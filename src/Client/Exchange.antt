-- ===== src/Client/Exchange.antt =====
-- libraries/prio-http/src/client_conversation.cpp: what a client hears of the responses that
-- libraries/prio-http/src/response.cpp writes.
use mathlib.Core.List.{flatten}
use wpp.Prelude.{
  Bytes, ℕ, ◌+◌, ◌<◌, ◌^◌, true, false, Option, List, [], ◌∷◌, ◌++◌, ltb, length, length-append,
  append_assoc, take, drop, take-length, take_all, codes, str_eq, is_empty, is_empty_ne,
  if◌then◌else◌, find_str, All, Lacks, ◌≡◌, ◌≢◌, refl, sym, ap, ◌∙◌, arith, case_eq,
}
use wpp.Prelude.Cuts.{drop-front}
use wpp.Prelude.Decimal.{ℤ, print_nat, print_nat-cons, scan_size-print_nat, scan_int, skip_space}
use wpp.Text.Trim.{StartsClear, EndsClear}
use wpp.Headers.{Header, get_in, no_headers}
use wpp.Headers.RoundTrip.{IsLine, All-IsText, parse-block}
use wpp.Reader
use wpp.Reader.{
  HeaderReader, BodyReader, Next, more, complete, header_end, new_header_reader, consume_at, feed,
}
use wpp.Reader.Chunks.{Headed, feed_headers}
use wpp.Request.Stream.{head_of, head_end, none_yet}
use wpp.Text.{split}
use wpp.Response.{Response, new_response, status_words, set_body, set_status}
use wpp.Response.Payload.{get_in-case}
use wpp.Client.{
  resolved, sized, new_client, consume_sized, turn_of, framing, parse_headers, parsed,
  on_headers_complete, hear, follow,
}
use wpp.Client.Heads.{HeadIsSafe}
use wpp.Client.Chunks.{plain}
use wpp.Client.Parsing.{status_line, parse_headers_lem}
use wpp.Client.Hearing.{hear_head, hear-sized, consume_complete}

-- What `framing` finds of a plain body.
framing_plain :
    (r : Response) (n : ℕ)
    → n < 2 ^ 64
    → get_in (codes "Content-Length") r.headers.headers ≡ print_nat n
    → get_in (codes "TRANSFER-ENCODING") r.headers.headers ≡ []
    → framing r ≡ record r { size = n }
unfolding framing
framing_plain r n small length_is none_such =
    let size : get_in (codes "CONTENT-LENGTH") r.headers.headers ≡ print_nat n =
      get_in-case (codes "CONTENT-LENGTH") (codes "Content-Length") r.headers.headers
        (unfold case_eq in refl)
      ∙ length_is in
    rw (none_such, size, is_empty_ne (print_nat n) (print_nat-cons n), scan_size-print_nat n small)
      refl

status_words_fields :
    (ws : List Bytes) (r : Response)
    → (p : Bytes) × (k : ℤ) × (status_words ws r ≡ record r { proto = p; status_code = k })
status_words_fields [] r = (r.proto, r.status_code, refl)
status_words_fields (w ∷ []) r = (r.proto, r.status_code, refl)
status_words_fields (proto ∷ code ∷ more_words) r =
    (proto, (if is_empty (skip_space code) then r.status_code else scan_int code), refl)

-- The response behind the head.
abbrev answer_of : Bytes → Bytes → Bytes → List Header → ℕ → Response
answer_of status proto code hs n = record new_response {
  status = status;
  proto = proto;
  status_code = scan_int code;
  headers = record no_headers { headers = hs };
  size = n;
}

module _ (proto code reason : Bytes) (c : ℕ) (h : Header) (hs : List Header)
    (proto_word : Lacks b' ' proto) (code_word : Lacks b' ' (c ∷ code))
    (visible : skip_space (c ∷ code) ≢ [])
    (free : Lacks b'\n' (status_line proto (c ∷ code) reason))
    (start : StartsClear (status_line proto (c ∷ code) reason))
    (end : EndsClear (status_line proto (c ∷ code) reason)) (lines : All IsLine (h ∷ hs)) where
  abbrev the_line : Bytes
  the_line = status_line proto (c ∷ code) reason

  head_parsed :
      (n : ℕ)
      → n < 2 ^ 64
      → get_in (codes "Content-Length") (h ∷ hs) ≡ print_nat n
      → get_in (codes "TRANSFER-ENCODING") (h ∷ hs) ≡ []
      → parse_headers (head_of (status_line proto (c ∷ code) reason) (h ∷ hs)) new_response
        ≡ parsed (answer_of (status_line proto (c ∷ code) reason) proto (c ∷ code) (h ∷ hs) n)
  unfolding set_status
  head_parsed n small length_is none_such =
      let line = status_line proto (c ∷ code) reason in
      let (p, k, words) =
        status_words_fields (split (status_line proto (c ∷ code) reason) b' ')
          (record new_response { status = status_line proto (c ∷ code) reason }) in
      parse_headers_lem proto code reason c (h ∷ hs) new_response proto_word code_word visible free
        start end (parse-block h hs (record no_headers { headers = h ∷ hs }) lines refl).1
      ∙ ap
          (λ (r : Response). parsed (
            framing (record r {
              proto = proto;
              status_code = scan_int (c ∷ code);
              headers = record no_headers { headers = h ∷ hs };
            })))
          words
      ∙ ap parsed (
          framing_plain
            (answer_of (status_line proto (c ∷ code) reason) proto (c ∷ code) (h ∷ hs) 0) n small
            length_is none_such)

  module _ (inflate : Bytes → Option Bytes) (chunks : List Bytes) (body : Bytes)
      (text : flatten chunks
        ≡ head_of (status_line proto (c ∷ code) reason) (h ∷ hs) ++ (header_end ++ body)) where
    headed :
        Headed
          (flatten chunks)
          (length (head_of (status_line proto (c ∷ code) reason) (h ∷ hs)))
          (feed Reader.consume_headers chunks new_header_reader)
    headed =
        feed_headers chunks [] (length (head_of (status_line proto (c ∷ code) reason) (h ∷ hs)))
          none_yet
          (ap (find_str header_end) text
            ∙ head_end (status_line proto (c ∷ code) reason) h hs body free
                (All-IsText (h ∷ hs) lines))

    head_read :
        headed.reader.headers_stream ≡ head_of (status_line proto (c ∷ code) reason) (h ∷ hs)
    head_read =
        headed.headers
        ∙ ap (take (length (head_of (status_line proto (c ∷ code) reason) (h ∷ hs)))) text
        ∙ take-length (head_of (status_line proto (c ∷ code) reason) (h ∷ hs)) (header_end ++ body)

    body_read : headed.reader.body_stream ++ flatten headed.unread ≡ body
    body_read =
        let head = head_of (status_line proto (c ∷ code) reason) (h ∷ hs) in
        headed.body
        ∙ ap (drop (length (head_of (status_line proto (c ∷ code) reason) (h ∷ hs)) + 4)) (
            text
            ∙ sym (
                append_assoc (head_of (status_line proto (c ∷ code) reason) (h ∷ hs)) header_end
                  body))
        ∙ drop-front (head_of (status_line proto (c ∷ code) reason) (h ∷ hs) ++ header_end) body
            (length (head_of (status_line proto (c ∷ code) reason) (h ∷ hs)) + 4)
            (omega (
              arith,
              length-append {0} (head_of (status_line proto (c ∷ code) reason) (h ∷ hs)) header_end,
            ))

    -- The turn at the end of the headers.
    at_body :
        (n : ℕ)
        → 0 < n
        → on_headers_complete inflate headed.reader.body_stream
            (answer_of (status_line proto (c ∷ code) reason) proto (c ∷ code) (h ∷ hs) n)
          ≡ turn_of inflate sized
              (answer_of (status_line proto (c ∷ code) reason) proto (c ∷ code) (h ∷ hs) n)
              (consume_sized inflate headed.reader.body_stream (plain n [] []))
    unfolding on_headers_complete
    at_body n positive = let some_body : ltb 0 n ≡ true = ground arith in rw some_body refl

    pub hear_response :
        HeadIsSafe [] chunks
        → body ≢ []
        → length body < 2 ^ 64
        → get_in (codes "Content-Length") (h ∷ hs) ≡ print_nat (length body)
        → get_in (codes "TRANSFER-ENCODING") (h ∷ hs) ≡ []
        → str_eq (take 3 (status_line proto (c ∷ code) reason)) (codes "100") ≡ false
        → hear inflate chunks new_client
          ≡ resolved
              (record (answer_of
                (status_line proto (c ∷ code) reason)
                proto
                (c ∷ code)
                (h ∷ hs)
                (length body)) { body = body })
    unfolding set_body
    hear_response safe ne small length_is none_such final =
        let n = length body in
        let r : Response =
          answer_of (status_line proto (c ∷ code) reason) proto (c ∷ code) (h ∷ hs) (length body) in
        hear_head inflate chunks headed.unread new_header_reader headed.reader new_response
          (on_headers_complete inflate headed.reader.body_stream r)
          (λ fuel.
            consume_complete inflate fuel headed.reader new_response r
              (ap (λ (t : Bytes). parse_headers t new_response) head_read
                ∙ head_parsed (length body) small length_is none_such)
              final)
          safe headed.completes
        ∙ ap (follow (hear inflate headed.unread)) (at_body (length body) (positive body ne))
        ∙ hear-sized inflate headed.unread headed.reader.body_stream [] (length body) r
            (omega (arith, ap length body_read))
        ∙ ap (λ (t : Bytes). resolved (set_body (take (length body) t) r)) body_read
        ∙ ap (λ (t : Bytes). resolved (set_body t r)) (take_all body)
        ∙ rw (is_empty_ne body ne) refl
      where
        positive : (b : Bytes) → b ≢ [] → 0 < length b
        positive [] e = absurd (e refl)
        positive (x ∷ b) e = omega arith
