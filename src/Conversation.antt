-- ===== src/Conversation.antt =====
-- libraries/prio-http/src/conversation.cpp: class `HttpConversation` between its readers and writers. A
-- promise is explicit: `reading` is what the conversation waits for on the side of the request, and
-- `writing` a write that has not ended. The handler behind `cb_` calls `chunk` and `flush`.
pub mod Requests
pub mod Answers
use wpp.Prelude.{
  Bytes, ℕ, Bool, true, false, not, ◌&&◌, Option, none, some, List, [], ◌∷◌, ◌++◌, if◌then◌else◌,
  codes, is_empty, case_eq, ltb,
}
use wpp.Headers
use wpp.Request
use wpp.Request.{Request, Outcome, returned, thrown, fault, empty_request}
use wpp.Response
use wpp.Response.{Response, new_response}
use wpp.Reader.{
  HeaderReader, BodyReader, Next, more, complete, new_header_reader, consume_headers, consume_body,
}
use wpp.Writer
use wpp.Writer.{ChunkedWriter, new_writer, plain_flush, gzip_flush}

-- The reader that waits for a read, one that waits until `100 Continue` is written, a handler that has
-- the request, a conversation that has let go of itself, and undefined behaviour.
pub data Reading : Type 0 where
  header_reader : HeaderReader → Reading
  body_reader : BodyReader → Reading
  continuing : BodyReader → Reading
  handling : Reading
  ended : Reading
  undefined : Reading

pub data Writing : Type 0 where
  plain : Writing
  payload : Writing
  chunked : ChunkedWriter → Writing

pub data Effect : Type 0 where
  wrote : Bytes → Effect
  resolved : Request → Effect
  rejected : Effect
  completed : Effect
  closed : Effect

pub record Conversation : Type 0 where
  pub request : Request
  pub response : Response
  pub keep_alive : Bool
  pub reading : Reading
  pub writing : Writing

-- `on`: the reader that is asked first reads.
abbrev pub new_conversation : Conversation
new_conversation = record {
  request = empty_request;
  response = new_response;
  keep_alive = false;
  reading = header_reader new_header_reader;
  writing = plain;
}

abbrev pub Turn : Type 0
Turn = Conversation × List Effect

abbrev pub stuck : Conversation → Turn
stuck c = (record c { reading = undefined }, [])

-- `onRequestError`.
abbrev pub on_request_error : Conversation → Turn
on_request_error c = (record c { reading = ended }, rejected ∷ closed ∷ [])

-- `onRequestComplete(b)`.
unfoldable pub on_request_complete : Bytes → Conversation → Turn
on_request_complete b c =
    let request = record c.request { body = b } in
    (
      record c { request = request; keep_alive = Request.keep_alive request; reading = handling },
      resolved request ∷ [],
    )

-- `HttpContentLengthBodyReader::consume`.
abbrev pub body_next : Next BodyReader → Conversation → Turn
body_next (more r) c = (record c { reading = body_reader r }, [])
body_next (complete r) c = on_request_complete r.body c

abbrev pub read_body : Bytes → BodyReader → Conversation → Turn
read_body s r c = body_next (consume_body s r) c

-- `onHeadersComplete(b)`.
unfoldable pub on_headers_complete : Bytes → Conversation → Turn
unfolding on_request_complete
on_headers_complete b c =
    let reader : BodyReader = record { size = c.request.size; body = [] } in
    if ltb 0 c.request.size
    then if is_empty b
        && case_eq (Headers.get (codes "Expect") c.request.headers) (codes "100-continue")
      then (
        record c { reading = continuing reader },
        wrote (codes "HTTP/1.1 100 Continue\r\n\r\n") ∷ [],
      )
      else read_body b reader c
    else on_request_complete b c

-- The headers are parsed into the request; a throw rejects the read that the reader is called from.
abbrev pub parsed : Outcome Bool → Bytes → Conversation → Turn
parsed (returned has_body request) b c = on_headers_complete b (record c { request = request })
parsed (thrown request) b c = on_request_error (record c { request = request })
parsed fault b c = stuck c

abbrev pub header_next : Next HeaderReader → Conversation → Turn
header_next (more r) c = (record c { reading = header_reader r }, [])
header_next (complete r) c = parsed (Request.parse r.headers_stream c.request) r.body_stream c

-- A read that has come to its end.
abbrev pub read_by : Reading → Bytes → Conversation → Turn
read_by (header_reader r) s c = header_next (consume_headers s r) c
read_by (body_reader r) s c = read_body s r c
read_by _ s c = (c, [])

unfoldable pub data_read : Bytes → Conversation → Turn
unfolding on_headers_complete
data_read s c = read_by c.reading s c

abbrev pub read_failed : Conversation → Turn
read_failed c = on_request_error c

-- `onResponseComplete`.
unfoldable pub on_response_complete : Conversation → Turn
on_response_complete c =
    let reset = record c {
      request = Request.reset c.request;
      response = Response.reset c.response;
    } in
    if c.keep_alive && not c.request.detached
    then (
      record reset { reading = header_reader new_header_reader; writing = plain },
      completed ∷ [],
    )
    else if c.request.detached
    then (record reset { reading = ended }, completed ∷ [])
    else (record reset { reading = ended }, completed ∷ closed ∷ [])

-- What a chunked writer has the conversation do.
abbrev pub chunk_effects : List Writer.Effect → Conversation → Turn
chunk_effects [] c = (c, [])
chunk_effects (Writer.wrote s ∷ es) c = let (c', rest) = chunk_effects es c in (c', wrote s ∷ rest)
chunk_effects (Writer.response_complete ∷ es) c = on_response_complete c
chunk_effects (Writer.request_error ∷ es) c = on_request_error c

-- A payload goes out.
abbrev pub send_payload : Option (Response × Bytes) → Conversation → Turn
send_payload none c = stuck c
send_payload (some (r, s)) c = (record c { response = r; writing = payload }, wrote s ∷ [])

abbrev pub on_chunked : ChunkedWriter × List Writer.Effect → Conversation → Turn
on_chunked (w, es) c = chunk_effects es (record c { writing = chunked w })

-- `flush(res)` for the response that the handler has made; `compress` is the compressor on a body. A
-- handler does not flush again while its payload is being written.
module _ (compress : Bytes → Bytes) where
  abbrev pub flush_by : Writing → Response → Conversation → Turn
  flush_by plain r c =
      if r.is_gzipped && not r.is_chunked
      then send_payload (gzip_flush compress c.keep_alive r) c
      else send_payload (plain_flush c.keep_alive r) c
  flush_by payload r c = (c, [])
  flush_by (chunked w) r c = on_chunked (Writer.flush w) (record c { response = r })

  unfoldable pub flush : Response → Conversation → Turn
  unfolding on_response_complete
  flush r c = flush_by c.writing r c

-- The end of a write.
abbrev pub ended_by : Reading → Writing → Conversation → Turn
ended_by (continuing r) w c = read_body [] r c
ended_by _ payload c = on_response_complete c
ended_by _ (chunked w) c = on_chunked (Writer.written w) c
ended_by _ plain c = (c, [])

unfoldable pub write_ended : Conversation → Turn
unfolding on_response_complete on_request_complete
write_ended c = ended_by c.reading c.writing c

-- A write that fails; nothing waits for that of `100 Continue`.
abbrev pub failed_by : Reading → Conversation → Turn
failed_by (continuing r) c = (c, [])
failed_by _ c = on_request_error c

abbrev pub write_failed : Conversation → Turn
write_failed c = failed_by c.reading c

-- `chunk(ch)` behind `Response::chunk`, with no compression: a new writer as long as no head was sent, and
-- else the writer that is there. `none`: that is a plain one, whose `write` does nothing.
abbrev pub chunk_writer : Response → Writing → Option ChunkedWriter
chunk_writer r (chunked w) = if r.headers_sent then some w else some new_writer
chunk_writer r _ = if r.headers_sent then none else some new_writer

abbrev pub chunk_sent :
    Option (Response × (ChunkedWriter × List Writer.Effect)) → Conversation → Turn
chunk_sent none c = stuck c
chunk_sent (some (r, turn)) c = on_chunked turn (record c { response = r })

abbrev pub chunk_by : Option ChunkedWriter → Bytes → Response → Conversation → Turn
chunk_by none ch r c = (record c { response = r }, [])
chunk_by (some w) ch r c = chunk_sent (Writer.write c.keep_alive ch r w) c

unfoldable pub chunk : Bytes → Response → Conversation → Turn
unfolding on_response_complete
chunk ch r c =
    let marked = record r { is_chunked = true } in
    chunk_by (chunk_writer marked c.writing) ch marked c

-- The chunks that the connection reads, as long as a reader waits for them: those that are not read, and
-- what the conversation has come to.
abbrev pub waits : Reading → Bool
waits (header_reader r) = true
waits (body_reader r) = true
waits _ = false

unfoldable pub hear : List Bytes → Conversation → List Bytes × Turn
unfolding data_read
hear [] c = ([], (c, []))
hear (s ∷ ss) c = elim (waits c.reading) [
  | true ↦
      let (c1, effects) = data_read s c in
      let (unread, (c2, rest)) = hear ss c1 in (unread, (c2, effects ++ rest))
  | false ↦ (s ∷ ss, (c, []))
]
