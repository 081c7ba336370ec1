-- ===== src/Conversation/Requests.antt =====
-- libraries/prio-http/src/conversation.cpp: requests that a conversation hears in chunks.
use mathlib.Core.List.{flatten}
use mathlib.Core.Option.{some-injective}
use wpp.Prelude.{
  Bytes, ℕ, ◌+◌, ◌<◌, true, false, some, List, [], ◌∷◌, ◌++◌, ◌≡◌, ◌≢◌, refl, ap, ◌∙◌, arith,
  length, length-append, take-length, ltb, All, Lacks, is_empty, case_eq, codes, take, append-nil,
}
use wpp.Headers
use wpp.Request
use wpp.Request.{Request, Outcome, returned}
use wpp.Reader.{
  HeaderReader, BodyReader, Next, header_end, more, complete, new_header_reader, consume_headers,
  consume_body, feed,
}
use wpp.Text.Split.{IsPart}
use wpp.Headers.{Header}
use wpp.Headers.RoundTrip.{IsText}
use wpp.Request.Parse.{received, words, path_from}
use wpp.Request.Stream.{and_false, head_of, parse-chunks}
use wpp.Reader.Chunks.{feed_body}
use wpp.Conversation.{
  Conversation, Reading, header_reader, body_reader, handling, Turn, Effect, resolved,
  on_request_complete, on_headers_complete, read_body, body_next, parsed, header_next, data_read,
  hear,
}

-- The chunks that are left, behind a turn.
abbrev pub go_on : List Bytes → Turn → List Bytes × Turn
go_on ss (c, effects) = let (unread, (c2, rest)) = hear ss c in (unread, (c2, effects ++ rest))

-- Where a reader comes to its end, the conversation goes on with what it hands on.
module _ {R : Type 0} (consume : Bytes → R → Next R) (by : R → Reading)
    (next : Next R → Conversation → Turn)
    (asks : (r : R) (c : Conversation) → next (more r) c ≡ (record c { reading = by r }, []))
    (hears : (s : Bytes) (ss : List Bytes) (r : R) (c : Conversation)
      → hear (s ∷ ss) (record c { reading = by r })
        ≡ go_on ss (next (consume s r) (record c { reading = by r }))) where
  hear-feed :
      (chunks : List Bytes) (r r' : R) (unread : List Bytes) (c : Conversation)
      → feed consume chunks r ≡ some (r', unread)
      → (x : Reading) × (hear chunks (record c { reading = by r })
          ≡ go_on unread (next (complete r') (record c { reading = x })))
  unfolding feed
  hear-feed [] r r' unread c e = absurd (cc)
  hear-feed (s ∷ ss) r r' unread c e =
      let (x, f) = next_turn (λ r1 f. hear-feed ss r1 r' unread c f) (consume s r) e in
      (x, hears s ss r c ∙ f)
    where
      next_turn :
          ((r1 : R)
            → feed consume ss r1 ≡ some (r', unread)
            → (x : Reading) × (hear ss (record c { reading = by r1 })
                ≡ go_on unread (next (complete r') (record c { reading = x }))))
          → (n : Next R)
          → elim n [ more r1 ↦ feed consume ss r1 | complete r1 ↦ some (r1, ss) ]
            ≡ some (r', unread)
          → (x : Reading) × (go_on ss (next n (record c { reading = by r }))
              ≡ go_on unread (next (complete r') (record c { reading = x })))
      next_turn later (more r1) f =
          let (x, g) = later r1 f in (x, ap (go_on ss) (asks r1 (record c { reading = by r })) ∙ g)
      next_turn later (complete r1) f = (
        by r,
        ap (λ p. go_on p.1 (next (complete p.0) (record c { reading = by r })))
            (some-injective _ _ f),
      )

pub hear-headers :
    (chunks : List Bytes) (r r' : HeaderReader) (unread : List Bytes) (c : Conversation)
    → feed consume_headers chunks r ≡ some (r', unread)
    → (x : Reading) × (hear chunks (record c { reading = header_reader r })
        ≡ go_on unread (header_next (complete r') (record c { reading = x })))
unfolding hear data_read
hear-headers =
    hear-feed consume_headers (λ r. header_reader r) header_next (λ r c. refl) (λ s ss r c. refl)

hear-body :
    (chunks : List Bytes) (r r' : BodyReader) (unread : List Bytes) (c : Conversation)
    → feed consume_body chunks r ≡ some (r', unread)
    → (x : Reading) × (hear chunks (record c { reading = body_reader r })
        ≡ go_on unread (on_request_complete r'.body (record c { reading = x })))
unfolding hear data_read
hear-body = hear-feed consume_body (λ r. body_reader r) body_next (λ r c. refl) (λ s ss r c. refl)

-- With the request in a handler's hands nothing is read.
pub hear-handling :
    (ss : List Bytes) (c : Conversation) (effects : List Effect)
    → go_on ss (record c { reading = handling }, effects)
      ≡ (ss, (record c { reading = handling }, effects))
unfolding hear
hear-handling [] c effects =
    ap (λ (es : List Effect). ([], (record c { reading = handling }, es))) (append-nil effects)
hear-handling (s ∷ ss) c effects =
    ap (λ (es : List Effect). (s ∷ ss, (record c { reading = handling }, es))) (append-nil effects)

-- A reader's turn does not depend on what the conversation waited for.
body_next-reading :
    (n : Next BodyReader) (c : Conversation) (x y : Reading)
    → body_next n (record c { reading = x }) ≡ body_next n (record c { reading = y })
unfolding on_request_complete
body_next-reading (more r) c x y = refl
body_next-reading (complete r) c x y = refl

on_headers_complete-body :
    (b : Bytes) (c : Conversation)
    → ltb 0 c.request.size ≡ true
    → case_eq (Headers.get (codes "Expect") c.request.headers) (codes "100-continue") ≡ false
    → on_headers_complete b c ≡ read_body b (record { size = c.request.size; body = [] }) c
unfolding on_headers_complete
on_headers_complete-body b c sized plain = rw (sized, plain, and_false (is_empty b)) refl

length_pos : (s : Bytes) → s ≢ [] → 0 < length s
length_pos [] ne = absurd (ne refl)
length_pos (c ∷ s) ne = omega arith

-- The body that the bytes behind the headers begin with.
hear-rest :
    (b : Bytes) (unread : List Bytes) (c : Conversation) (body extra : Bytes)
    → c.request.size ≡ length body
    → body ≢ []
    → case_eq (Headers.get (codes "Expect") c.request.headers) (codes "100-continue") ≡ false
    → b ++ flatten unread ≡ body ++ extra
    → (left : List Bytes) × (go_on unread (on_headers_complete b c)
        ≡ (left, on_request_complete body c))
unfolding flatten on_request_complete hear data_read
hear-rest b unread c body extra sized ne plain e =
    let size : length (b ++ flatten unread) ≡ length body + length extra =
      ap length e ∙ length-append body extra in
    let (left, done) = feed_body (b ∷ unread) (length body) [] (length_pos body ne) (omega arith) in
    let (x, f) =
      hear-body (b ∷ unread) (record { size = length body; body = [] })
        (record { size = length body; body = take (length body) (b ++ flatten unread) }) left c
        done in
    (
      left,
      ap (go_on unread) (
            on_headers_complete-body b c (ground (arith, length_pos body ne)) plain
            ∙ ap (λ (k : ℕ). body_next (consume_body b (record { size = k; body = [] })) c) sized
            ∙ body_next-reading (consume_body b (record { size = length body; body = [] })) c
                c.reading (body_reader (record { size = length body; body = [] })))
          ∙ f
          ∙ hear-handling left (on_request_complete (take (length body) (b ++ flatten unread)) c).0
              (on_request_complete (take (length body) (b ++ flatten unread)) c).1
          ∙ ap (λ (t : Bytes). (left, on_request_complete t c))
              (ap (take (length body)) e ∙ take-length body extra),
    )

-- The request that a text of these parts is.
abbrev pub request_of : Bytes → Bytes → Bytes → List Header → Bytes → Request → Request
request_of m q proto hs body r = record r {
  path = path_from m q (proto ++ b'\r' ∷ []) r.path;
  headers = received hs;
  size = length body;
  body = body;
}

-- The turn of a conversation that hands a request on.
abbrev pub handed_on : Request → Conversation → Turn
handed_on r c = (
  record c { request = r; keep_alive = Request.keep_alive r; reading = handling },
  resolved r ∷ [],
)

-- A conversation that waits for headers and hears, in chunks of any sizes, a request line, headers
-- with the length of the body, which is not empty, and no `Expect: 100-continue`, and that body,
-- calls its handler once, and reads no further. The request has the path, headers and body that
-- were sent, and the protocol with the carriage return of its line still behind it, as `parse`
-- leaves that. What the reader has read behind the body is gone. The request line must have no line
-- feed, and be a method and a target that are not empty and hold no space, and a protocol that is
-- not empty and does not start with one. Each header line must be a name, a colon and a value, with
-- no line feed: the name is not empty, has no colon and no blank at its ends, and is not `Cookie`.
-- Blanks around the value, as in `Host: x`, are cut off.
pub hear-request :
    (chunks : List Bytes) (m q : Bytes) (y : ℕ) (proto : Bytes) (h : Header) (hs : List Header)
    (body extra : Bytes) (c : Conversation)
    → flatten chunks ≡ head_of (words m q (y ∷ proto)) (h ∷ hs) ++ (header_end ++ (body ++ extra))
    → IsPart 32 m
    → IsPart 32 q
    → y ≢ 32
    → Lacks b'\n' (words m q (y ∷ proto))
    → All IsText (h ∷ hs)
    → body ≢ []
    → Headers.content_length (received (h ∷ hs)) ≡ length body
    → case_eq (Headers.get (codes "Expect") (received (h ∷ hs))) (codes "100-continue") ≡ false
    → (left : List Bytes) × (hear chunks (record c { reading = header_reader new_header_reader })
        ≡ (left, handed_on (request_of m q (y ∷ proto) (h ∷ hs) body c.request) c))
unfolding on_request_complete
hear-request chunks m q y proto h hs body extra c text hm hq hy free ls ne sized plain =
    let (reader, unread, done, made, rest) =
      parse-chunks chunks m q y proto h hs (body ++ extra) c.request text hm hq hy free ls in
    let (x, f) = hear-headers chunks new_header_reader reader unread c done in
    let made_of : Request = record (request_of m q (y ∷ proto) (h ∷ hs) body c.request) {
      size = Headers.content_length (received (h ∷ hs));
      body = c.request.body;
    } in
    let (left, g) =
      hear-rest reader.body_stream unread (record c { request = made_of; reading = x }) body extra
        sized ne plain rest in
    (
      left,
      f
          ∙ ap (λ o. go_on unread (parsed o reader.body_stream (record c { reading = x }))) made
          ∙ g
          ∙ ap
              (λ (k : ℕ). (
                left,
                handed_on (record (request_of m q (y ∷ proto) (h ∷ hs) body c.request) { size = k })
                    c,
              ))
              sized,
    )
