-- ===== src/Writer.antt =====
-- libraries/prio-http/src/server_writer.cpp: the writer of chunked bodies. A call gives the new writer
-- and what it has its conversation do; `written` and `failed` are the ends of a `con_->write`.
pub mod Gzip
pub mod Runs
pub mod Completion
pub mod Coding
use wpp.Prelude.{
  Bytes, ℕ, ◌%◌, ◌^◌, Bool, true, false, Option, none, some, List, [], ◌∷◌, ◌++◌, if◌then◌else◌,
  codes, is_empty, length, ◌>>=◌,
}
use wpp.Prelude.Hex.{print_hex}
use wpp.Headers
use wpp.Response
use wpp.Response.{Response, flush_headers}

pub data Effect : Type 0 where
  wrote : Bytes → Effect
  response_complete : Effect
  request_error : Effect

pub record ChunkedWriter : Type 0 where
  pub chunks : List Bytes
  pub writing : Bool
  pub done : Bool

abbrev pub new_writer : ChunkedWriter
new_writer = record { chunks = []; writing = false; done = false }

abbrev pub crlf : Bytes
crlf = codes "\r\n"

-- The text of one chunk: its size is printed as an `int`, so modulo 2 ^ 32.
unfoldable pub chunk_text : Bytes → Bytes
chunk_text c = print_hex (length c % 2 ^ 32) ++ (crlf ++ (c ++ crlf))

abbrev pub last_chunk : Bytes
last_chunk = codes "0\r\n\r\n"

-- `chunkResponse` for the three members.
abbrev pub respond : List Bytes → Bool → Bool → ChunkedWriter × List Effect
respond cs true done = (record { chunks = cs; writing = true; done = done }, [])
respond [] false true =
    (record { chunks = []; writing = false; done = true }, response_complete ∷ [])
respond [] false false = (record { chunks = []; writing = false; done = false }, [])
respond (c ∷ cs) false done = (record { chunks = cs; writing = true; done = done }, wrote c ∷ [])

unfoldable pub chunk_response : ChunkedWriter → ChunkedWriter × List Effect
chunk_response w = respond w.chunks w.writing w.done

abbrev pub push : Bytes → ChunkedWriter → ChunkedWriter
push c w = record w { chunks = w.chunks ++ c ∷ [] }

-- `flush`.
unfoldable pub flush : ChunkedWriter → ChunkedWriter × List Effect
unfolding chunk_response
flush w = chunk_response (push last_chunk (record w { done = true }))

-- The head of the response, where it has not been sent.
unfoldable pub push_head : Bool → Response → ChunkedWriter → Option (Response × ChunkedWriter)
push_head keep r w =
    if r.headers_sent
    then some (r, w)
    else flush_headers keep r
      >>= (λ s. some (s, push (s.status ++ (crlf ++ Headers.to_string s.headers)) w))

-- `write(c)` behind the head.
unfoldable pub write_chunk : Bytes → ChunkedWriter → ChunkedWriter × List Effect
unfolding chunk_response chunk_text
write_chunk c w = if is_empty c then (w, []) else chunk_response (push (chunk_text c) w)

unfoldable pub write :
    Bool → Bytes → Response → ChunkedWriter → Option (Response × (ChunkedWriter × List Effect))
unfolding push_head write_chunk
write keep c r w = push_head keep r w >>= (λ (s, w'). some (s, write_chunk c w'))

-- The end of a `con_->write`.
unfoldable pub written : ChunkedWriter → ChunkedWriter × List Effect
unfolding chunk_response
written w = chunk_response (record w { writing = false })

abbrev pub failed : ChunkedWriter → ChunkedWriter × List Effect
failed w = (w, request_error ∷ [])

-- What happens to a writer behind the head: calls of the application, and ends of its writes.
pub data Event : Type 0 where
  written_to : Bytes → Event
  flushed : Event
  write_ended : Event

unfoldable pub step : Event → ChunkedWriter → ChunkedWriter × List Effect
unfolding write_chunk flush written
step (written_to c) w = write_chunk c w
step flushed w = flush w
step write_ended w = written w

unfoldable pub run : List Event → ChunkedWriter → ChunkedWriter × List Effect
unfolding step
run [] w = (w, [])
run (e ∷ es) w = let (w1, effects) = step e w in let (w2, more) = run es w1 in (w2, effects ++ more)

-- `HttpPlainBodyWriter::flush` up to the write: the response, and the payload.
unfoldable pub plain_flush : Bool → Response → Option (Response × Bytes)
plain_flush keep r = flush_headers keep r >>= (λ s. some (Response.to_string s))

-- `HttpGzippedBodyWriter::flush` around a plain writer, where `compress` is what the compressor makes of
-- a whole body.
unfoldable pub gzip_flush : (Bytes → Bytes) → Bool → Response → Option (Response × Bytes)
unfolding plain_flush
gzip_flush compress keep r =
    flush_headers keep r >>= (λ s. plain_flush keep (Response.set_body (compress s.body) s))
