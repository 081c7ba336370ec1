-- ===== src/Reader.antt =====
-- libraries/prio-http/src/server_reader.cpp: the readers that a conversation feeds with the chunks it
-- receives. A call of `consume` either asks for more or ends with what it hands on.
pub mod Chunks
use wpp.Prelude.{
  Bytes, ℕ, zero, suc, ◌+◌, ◌-◌, Bool, true, false, Option, none, some, List, [], ◌∷◌, ◌++◌,
  if◌then◌else◌, codes, find_str, take, drop, length, ltb, leb,
}

pub record HeaderReader : Type 0 where
  pub headers_stream : Bytes
  pub body_stream : Bytes

abbrev pub new_header_reader : HeaderReader
new_header_reader = record { headers_stream = []; body_stream = [] }

-- What a call of `consume` does next: `read()`, or hand on the reader's streams.
pub data Next (R : Type 0) : Type 0 where
  more : R → Next R
  complete : R → Next R

abbrev pub header_end : Bytes
header_end = codes "\r\n\r\n"

-- The streams at the end of the headers, where the bytes behind it are the begin of the body.
unfoldable pub consume_at : Option ℕ → HeaderReader → Next HeaderReader
consume_at none r = more r
consume_at (some pos) r =
    let len = length r.headers_stream - (4 + pos) in
    complete (record {
      headers_stream = take pos r.headers_stream;
      body_stream =
          if ltb 0 len then r.body_stream ++ drop (pos + 4) r.headers_stream else r.body_stream;
    })

-- `HttpHeaderReader::consume(s)`.
unfoldable pub consume_headers : Bytes → HeaderReader → Next HeaderReader
unfolding consume_at find_str
consume_headers s r =
    let appended = record r { headers_stream = r.headers_stream ++ s } in
    consume_at (find_str header_end appended.headers_stream) appended

pub record BodyReader : Type 0 where
  pub size : ℕ
  pub body : Bytes

-- `HttpContentLengthBodyReader::consume(c)`.
unfoldable pub consume_body : Bytes → BodyReader → Next BodyReader
consume_body c r =
    let appended = r.body ++ c in
    let body = if ltb r.size (length appended) then take r.size appended else appended in
    if leb r.size (length body)
    then complete (record r { body = body })
    else more (record r { body = body })

-- The chunks that a connection gives, until a reader is complete: the reader, and the chunks that it
-- has not read. `none`: the chunks end first.
module _ {R : Type 0} (consume : Bytes → R → Next R) where
  unfoldable pub feed : List Bytes → R → Option (R × List Bytes)
  feed [] r = none
  feed (s ∷ chunks) r = elim (consume s r) [
    | more r' ↦ feed chunks r'
    | complete r' ↦ some (r', chunks)
  ]
