-- ===== src/Client.antt =====
-- libraries/prio-http/src/client_conversation.cpp: the readers of a client and `HttpClientConversation`
-- behind the request that it has written. A call gives what the conversation does next: it reads on,
-- resolves or rejects its promise. A throw in a reader ends in `onRequestError`, in `parseHeaders` or
-- behind `read`. `inflate` is what `Decompressor` makes of a text, or `none` where it throws.
pub mod Sizes
pub mod Chunks
pub mod Arrivals
pub mod Parsing
pub mod Heads
pub mod Hearing
pub mod Exchange
pub mod Answers
pub mod Interim
use wpp.Prelude.{
  Bytes, ℕ, zero, suc, ◌+◌, ◌-◌, ◌*◌, ◌^◌, Bool, true, false, Option, none, some, List, [], ◌∷◌,
  ◌++◌, if◌then◌else◌, ◌>>=◌, ◌||◌, ◌&&◌, codes, str_eq, is_empty, find_char, find_char_from,
  find_str, find_first, take, drop, substr, length, ltb, leb, ◌==◌, not,
}
use wpp.Prelude.Decimal.{ℤ, scan_int, scan_size, skip_space, clamp_size}
use wpp.Text.{trim}
use wpp.Headers
use wpp.Headers.{Headers, no_headers, lines_from, parse_lines, value_main, value_at, header_values}
use wpp.Response
use wpp.Response.{Response, new_response, set_status, set_body}
use wpp.Reader.{HeaderReader, new_header_reader, header_end}

-- `wrapped_`, the stream of a chunked reader, and whether the data is compressed.
pub record BodyState : Type 0 where
  pub gzipped : Bool
  pub size : ℕ
  pub stream : Bytes
  pub body : Bytes

pub data Stage : Type 0 where
  heading : HeaderReader → Stage
  sized : BodyState → Stage
  chunked : BodyState → Stage

pub record Client : Type 0 where
  pub response : Response
  pub stage : Stage

abbrev pub new_client : Client
new_client = record { response = new_response; stage = heading new_header_reader }

pub data Turn : Type 0 where
  reading : Client → Turn
  resolved : Response → Turn
  rejected : Turn
  undefined : Turn
  endless : Turn

-- A conversation that reads goes on; one that does not is done.
abbrev pub follow : (Client → Turn) → Turn → Turn
follow next (reading c) = next c
follow next (resolved r) = resolved r
follow next rejected = rejected
follow next undefined = undefined
follow next endless = endless

-- What a call of a body reader does next. `unset`: it uses a number that was not set.
pub data Heard : Type 0 where
  waits : BodyState → Heard
  again : BodyState → Heard
  finished : Bytes → Heard
  broken : Heard
  unset : Heard

-- What `parse_headers` makes of a response; it may throw, or read behind a vector.
pub data Parsed : Type 0 where
  parsed : Response → Parsed
  threw : Parsed
  fault : Parsed

abbrev pub crlf : Bytes
crlf = codes "\r\n"

-- A digit behind `std::hex`.
unfoldable pub hex_digit_value : ℕ → Option ℕ
hex_digit_value c =
    if leb b'0' c && leb c b'9'
    then some (c - b'0')
    else if leb b'a' c && leb c b'f'
    then some (c - b'a' + 10)
    else if leb b'A' c && leb c b'F'
    then some (c - b'A' + 10)
    else none

unfoldable pub read_hex_digits : ℕ → Bytes → ℕ
unfolding hex_digit_value
read_hex_digits n [] = n
read_hex_digits n (c ∷ s) = elim (hex_digit_value c) [
  | some d ↦ read_hex_digits (n * 16 + d) s
  | none ↦ n
]

abbrev pub is_x : ℕ → Bool
is_x c = c == b'x' || c == b'X'

-- The digits behind the prefix `0x`, if there is one.
unfoldable pub read_prefixed : Bytes → ℕ
unfolding read_hex_digits
read_prefixed (c ∷ d ∷ s) =
    if c == b'0' && is_x d then read_hex_digits 0 s else read_hex_digits 0 (c ∷ d ∷ s)
read_prefixed s = read_hex_digits 0 s

unfoldable pub read_hex_signed : Bytes → Bool × ℕ
unfolding read_prefixed
read_hex_signed [] = (false, 0)
read_hex_signed (c ∷ s) =
    if c == b'-'
    then (true, read_prefixed s)
    else if c == b'+'
    then (false, read_prefixed s)
    else (false, read_prefixed (c ∷ s))

-- `iss >> std::hex >> s`: 0 where there is no number. At the end of the text `s` is not set (`none`).
unfoldable pub scan_word : Bytes → Option ℕ
unfolding read_hex_signed clamp_size
scan_word [] = none
scan_word (c ∷ s) = some (clamp_size (read_hex_signed (c ∷ s)))

unfoldable pub scan_hex : Bytes → Option ℕ
unfolding skip_space scan_word
scan_hex s = scan_word (skip_space s)

-- `append(s.c_str() + from, len)`: bytes of `s` and the NUL behind it. `none`: it reads behind that.
unfoldable pub append_from : Bytes → ℕ → ℕ → Option Bytes
append_from s from len =
    if len == 0
    then some []
    else if leb (from + len) (length s + 1)
    then some (take len (drop from (s ++ 0 ∷ [])))
    else none

-- The streams where a read `s` was appended to those of a reader, and the headers end, or do not. The
-- rest is taken from `s`, at the place that the end has in the stream.
pub data Cut : Type 0 where
  waiting : HeaderReader → Cut
  whole : HeaderReader → Cut
  beyond : Cut

unfoldable pub cut_body : Option Bytes → ℕ → HeaderReader → Cut
cut_body none pos reader = beyond
cut_body (some rest) pos reader = whole (record {
  headers_stream = take pos reader.headers_stream;
  body_stream = reader.body_stream ++ rest;
})

unfoldable pub cut_at : Option ℕ → Bytes → HeaderReader → Cut
unfolding cut_body append_from
cut_at none s reader = waiting reader
cut_at (some pos) s reader =
    cut_body (append_from s (pos + 4) (length reader.headers_stream - (4 + pos))) pos reader

-- The words of the status line: the protocol, and the text of the code. `none`: it throws.
unfoldable pub status_parts : Bytes → Option (Bytes × Bytes)
unfolding find_char find_first
status_parts s = find_char b' ' s >>= (λ pos1.
    find_first (λ c. not (c == b' ')) (drop pos1 s) >>= (λ k.
      find_char_from b' ' s (pos1 + k)
      >>= (λ pos2. some (take pos1 s, substr s (pos1 + k) (pos2 - (pos1 + k))))))

-- The first line of the headers, and the lines behind it.
abbrev pub cut_line : Option ℕ → Bytes → Bytes × Bytes
cut_line none s = (s, [])
cut_line (some pos) s = (take pos s, drop (suc pos) s)

-- What the headers say of the body.
unfoldable pub framing : Response → Response
unfolding value_main header_values scan_size str_eq
framing r =
    let te = Headers.get (codes "TRANSFER-ENCODING") r.headers in
    let size = Headers.get (codes "CONTENT-LENGTH") r.headers in
    if not (is_empty te) && str_eq (value_main (value_at (header_values te) 0)) (codes "chunked")
    then record r { is_chunked = true }
    else if not (is_empty size)
    then record r { size = scan_size size }
    else r

-- The loop over the lines is the one of `Headers::parse`.
unfoldable pub parse_fields : Bytes → Response → Parsed
unfolding framing lines_from parse_lines
parse_fields rest r = elim (parse_lines (lines_from rest []) no_headers) [
  | none ↦ fault
  | some h ↦ parsed (framing (record r { headers = h }))
]

-- Where the text of the code is blank, `iss >> s` does not set `s`.
unfoldable pub parse_status : Option (Bytes × Bytes) → Bytes → Response → Parsed
unfolding parse_fields scan_int skip_space
parse_status none rest r = threw
parse_status (some (proto, code)) rest r =
    if is_empty (skip_space code)
    then fault
    else parse_fields rest (record r { proto = proto; status_code = scan_int code })

unfoldable pub parse_headers : Bytes → Response → Parsed
unfolding parse_status status_parts set_status find_char trim
parse_headers s r =
    let (line, rest) = cut_line (find_char b'\n' s) s in
    parse_status (status_parts (trim line)) rest (set_status (trim line) (record r { size = 0 }))

-- `parseHeaders` for the streams of a reader. It consumes what follows an interim response.
abbrev pub is_interim : Response → Bool
is_interim r = str_eq (take 3 r.status) (codes "100")

module _ (inflate : Bytes → Option Bytes) where
  -- `add`.
  unfoldable pub add_data : Bytes → BodyState → Option BodyState
  add_data c b =
      if b.gzipped
      then inflate c >>= (λ t. some (record b { body = b.body ++ t }))
      else some (record b { body = b.body ++ c })

  -- `complete` of the wrapped reader.
  unfoldable pub complete_with : Bool → Bytes → Heard
  complete_with true c = elim (inflate c) [ none ↦ broken | some t ↦ finished t ]
  complete_with false c = finished c

  -- `HttpClientContentLengthBodyReader::consume` behind `add`.
  unfoldable pub sized_added : Option BodyState → Heard
  unfolding complete_with
  sized_added none = broken
  sized_added (some b) =
      let cut = if ltb b.size (length b.body) then take b.size b.body else b.body in
      if leb b.size (length cut)
      then complete_with b.gzipped cut
      else waits (record b { body = cut })

  unfoldable pub consume_sized : Bytes → BodyState → Heard
  unfolding sized_added add_data
  consume_sized c b = sized_added (add_data c b)

  -- `HttpClientChunkedBodyReader::consume` behind `wrapped_->add`, where `used` bytes of the stream are
  -- those of the chunk and its line ends: `substr` throws where the stream ends before.
  unfoldable pub next_chunk : ℕ → Option BodyState → Heard
  next_chunk used none = broken
  next_chunk used (some b) =
      if ltb (length b.stream) used
      then broken
      else if is_empty (drop used b.stream)
      then waits (record b { stream = [] })
      else again (record b { stream = drop used b.stream })

  -- The call at a line end: `s` is the size of the chunk.
  unfoldable pub at_size : ℕ → ℕ → BodyState → Heard
  unfolding next_chunk add_data find_str
  at_size pos s b =
      if s == 0
      then elim (find_str header_end b.stream) [ some _ ↦ finished b.body | none ↦ waits b ]
      else if leb s (length b.stream - pos - 2)
      then next_chunk (pos + 2 + s + 2) (add_data (take s (drop (pos + 2) b.stream)) b)
      else waits b

  unfoldable pub round : BodyState → Heard
  unfolding at_size find_str scan_hex
  round b = elim (find_str crlf b.stream) [
    | none ↦ waits b
    | some pos ↦ elim (scan_hex (take pos b.stream)) [ none ↦ unset | some s ↦ at_size pos s b ]
  ]

  -- `HttpClientChunkedBodyReader::consume`, which calls itself; `again` is left where fuel ends.
  unfoldable pub consume_loop : ℕ → BodyState → Heard
  unfolding round
  consume_loop zero b = again b
  consume_loop (suc fuel) b = elim (round b) [
    | waits b' ↦ waits b'
    | again b' ↦ consume_loop fuel b'
    | finished t ↦ finished t
    | broken ↦ broken
    | unset ↦ unset
  ]

  unfoldable pub consume_chunked : Bytes → BodyState → Heard
  unfolding consume_loop
  consume_chunked c b =
      consume_loop (suc (length (b.stream ++ c))) (record b { stream = b.stream ++ c })

  -- What the conversation does then; `onResponseComplete` stores the body.
  unfoldable pub turn_of : (BodyState → Stage) → Response → Heard → Turn
  unfolding set_body
  turn_of stage r (waits b) = reading (record { response = r; stage = stage b })
  turn_of stage r (again b) = endless
  turn_of stage r (finished t) = resolved (set_body t r)
  turn_of stage r broken = rejected
  turn_of stage r unset = undefined

  -- `onHeadersComplete(b)`.
  unfoldable pub on_headers_complete : Bytes → Response → Turn
  unfolding turn_of consume_chunked consume_sized set_body
  on_headers_complete s r =
      let start : BodyState = record {
        gzipped = r.is_gzipped;
        size = r.size;
        stream = [];
        body = [];
      } in
      if r.is_chunked
      then turn_of chunked r (consume_chunked s start)
      else if ltb 0 r.size
      then turn_of sized r (consume_sized s start)
      else resolved (set_body s r)

  -- `ClientHttpHeaderReader::consume` at a stream that holds the end of the headers, or not.
  -- `parseHeaders` consumes what follows an interim response anew.
  unfoldable pub consume_headers : ℕ → Cut → Response → Turn
  unfolding on_headers_complete parse_headers str_eq cut_at find_str
  consume_headers zero cut r = endless
  consume_headers (suc fuel) beyond r = undefined
  consume_headers (suc fuel) (waiting reader) r =
      reading (record { response = r; stage = heading reader })
  consume_headers (suc fuel) (whole reader) r = elim (parse_headers reader.headers_stream r) [
    | threw ↦ rejected
    | fault ↦ undefined
    | parsed r' ↦ elim (is_interim r') [
      | false ↦ on_headers_complete reader.body_stream r'
      | true ↦
          consume_headers fuel
            (cut_at (find_str header_end reader.body_stream) reader.body_stream
              (record { headers_stream = reader.body_stream; body_stream = [] }))
            r'
    ]
  ]

  -- `consume` of the reader of each stage, for the bytes of a read.
  unfoldable pub hear_at : Bytes → Stage → Response → Turn
  unfolding consume_headers turn_of consume_chunked consume_sized
  hear_at s (heading reader) r =
      let stream = reader.headers_stream ++ s in
      consume_headers (suc (length stream))
        (cut_at (find_str header_end stream) s (record reader { headers_stream = stream })) r
  hear_at s (sized b) r = turn_of sized r (consume_sized s b)
  hear_at s (chunked b) r = turn_of chunked r (consume_chunked s b)

  -- The reads of a connection, until the conversation asks for no more.
  unfoldable pub hear : List Bytes → Client → Turn
  unfolding hear_at
  hear [] c = reading c
  hear (s ∷ reads) c = follow (hear reads) (hear_at s c.stage c.response)
