-- ===== src/Conversation/Answers.antt =====
-- libraries/prio-http/src/conversation.cpp: requests with no body.
use mathlib.Core.List.{flatten}
use wpp.Prelude.{Bytes, ℕ, List, [], ◌∷◌, ◌++◌, ◌≡◌, ◌≢◌, ap, ◌∙◌, All, Lacks}
use wpp.Text.Split.{IsPart}
use wpp.Headers
use wpp.Headers.{Header}
use wpp.Headers.RoundTrip.{IsText}
use wpp.Request.Parse.{received, words}
use wpp.Request.Stream.{head_of, parse-chunks}
use wpp.Reader.{header_end, new_header_reader}
use wpp.Conversation.{
  Conversation, header_reader, on_request_complete, on_headers_complete, parsed, hear,
}
use wpp.Conversation.Requests.{go_on, hear-headers, hear-handling, request_of, handed_on}

-- A request whose headers give no content length or 0 is handed on with the bytes that its reader
-- has read behind the headers, of a next request say, as its body. The request line must have no
-- line feed, and be a method and a target that are not empty and hold no space, and a protocol that
-- is not empty and does not start with one. There must be a header. Each header line must be a
-- name, a colon and a value, with no line feed: the name is not empty, has no colon and no blank at
-- its ends, and is not `Cookie`. Blanks around the value, as in `Host: x`, are cut off.
pub hear-bodiless :
    (chunks : List Bytes) (m q : Bytes) (y : ℕ) (proto : Bytes) (h : Header) (hs : List Header)
    (extra : Bytes) (c : Conversation)
    → flatten chunks ≡ head_of (words m q (y ∷ proto)) (h ∷ hs) ++ (header_end ++ extra)
    → IsPart 32 m
    → IsPart 32 q
    → y ≢ 32
    → Lacks b'\n' (words m q (y ∷ proto))
    → All IsText (h ∷ hs)
    → Headers.content_length (received (h ∷ hs)) ≡ 0
    → (b : Bytes) × (left : List Bytes) × (b ++ flatten left ≡ extra)
      × (hear chunks (record c { reading = header_reader new_header_reader }) ≡ (
        left,
        handed_on (record (request_of m q (y ∷ proto) (h ∷ hs) [] c.request) { body = b }) c,
      ))
unfolding on_request_complete on_headers_complete
hear-bodiless chunks m q y proto h hs extra c text hm hq hy free ls sized =
    let (reader, unread, done, made, rest) =
      parse-chunks chunks m q y proto h hs extra c.request text hm hq hy free ls in
    let (x, f) = hear-headers chunks new_header_reader reader unread c done in
    (
      reader.body_stream,
      unread,
      rest,
      f
          ∙ ap (λ o. go_on unread (parsed o reader.body_stream (record c { reading = x }))) made
          ∙ ap
              (λ (k : ℕ). go_on unread (
                on_headers_complete reader.body_stream (record c {
                  request = record (request_of m q (y ∷ proto) (h ∷ hs) [] c.request) {
                    size = k;
                    body = c.request.body;
                  };
                  reading = x;
                })))
              sized
          ∙ hear-handling unread
              (handed_on
                (record (request_of m q (y ∷ proto) (h ∷ hs) [] c.request) {
                  body = reader.body_stream;
                })
                c).0
              (handed_on
                (record (request_of m q (y ∷ proto) (h ∷ hs) [] c.request) {
                  body = reader.body_stream;
                })
                c).1,
    )
