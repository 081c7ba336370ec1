-- ===== src/Client/Answers.antt =====
-- libraries/prio-http/src/client_conversation.cpp: responses that a server flushes, and status lines
-- without a reason.
use mathlib.Core.List.{flatten}
use mathlib.Core.Path.{subst}
use wpp.Prelude.{
  Bytes, ℕ, ◌<◌, ◌^◌, Bool, true, false, Option, some, List, [], ◌∷◌, ◌++◌, length, take,
  take-length, codes, str_eq, find_str, All, Lacks, ◌≡◌, ◌≢◌, refl, sym, ap, ◌∙◌,
}
use wpp.Prelude.Decimal.{print_nat, print_nat-cons, skip_space}
use wpp.Text.Trim.{StartsClear, EndsClear}
use wpp.Headers.{Header, get_in}
use wpp.Headers.RoundTrip.{IsLine, All-IsText}
use wpp.Reader
use wpp.Reader.{
  HeaderReader, BodyReader, Next, more, complete, header_end, new_header_reader, consume_at, feed,
}
use wpp.Reader.Chunks.{Headed, feed_headers}
use wpp.Request.Stream.{head_of, head_end, none_yet}
use wpp.Response.{Response, new_response, to_string, flush_headers}
use wpp.Response.Payload.{payload_parts}
use wpp.Client.{resolved, rejected, new_client, parse_headers, hear}
use wpp.Client.Parsing.{status_line, status_parts_short, parse_headers_short}
use wpp.Response.Framing.{Ends, Frames, plain_length, chunked_coding, flush_headers-Frames}
use wpp.Client.Heads.{HeadIsSafe}
use wpp.Client.Hearing.{hear_head, consume_thrown}
use wpp.Client.Exchange.{hear_response}

-- What a client makes of the text of a response.
pub record Understood (inflate : Bytes → Option Bytes) (chunks : List Bytes) (s : Response)
    : Type 0 where
  pub answer : Response
  pub hears : hear inflate chunks new_client ≡ resolved answer
  pub status : answer.status ≡ s.status
  pub headers : answer.headers.headers ≡ s.headers.headers
  pub body : answer.body ≡ s.body

-- A status line that the client reads as one: words with blanks between them, and a reason.
pub record IsStatus (proto code reason : Bytes) : Type 0 where
  pub proto_word : Lacks b' ' proto
  pub code_word : Lacks b' ' code
  pub visible : skip_space code ≢ []
  pub free : Lacks b'\n' (status_line proto code reason)
  pub start : StartsClear (status_line proto code reason)
  pub end : EndsClear (status_line proto code reason)
  pub final : str_eq (take 3 (status_line proto code reason)) (codes "100") ≡ false

line-ne-nil : (p r : Bytes) → p ++ b' ' ∷ r ≢ []
line-ne-nil [] r = cc
line-ne-nil (x ∷ p) r = cc

-- What a response that was flushed says of its body.
flushed-Frames :
    (keep : Bool) (r s : Response)
    → r.headers_sent ≡ false
    → r.is_chunked ≡ false
    → Frames (false, []) (false, []) r.headers
    → flush_headers keep r ≡ some s
    → (s.body ≡ r.body)
      × (get_in (codes "Content-Length") s.headers.headers ≡ print_nat (length r.body))
      × (get_in (codes "TRANSFER-ENCODING") s.headers.headers ≡ [])
flushed-Frames keep r s unsent plain_body fresh flushed = (
  framed.1.0,
  ap (λ p. p.1) (framed.1.1.0 ∙ ap (λ (b : Bool). plain_length b r.body) plain_body),
  ap (λ p. p.1) (framed.1.1.1 ∙ ap chunked_coding plain_body),
)
  where
    framed :
        (s.headers_sent ≡ true)
        × ((s.body ≡ r.body)
            × Frames (plain_length r.is_chunked r.body) (chunked_coding r.is_chunked) s.headers)
    framed =
        subst
          (Ends (λ (x : Response).
            (x.headers_sent ≡ true)
            × ((x.body ≡ r.body)
                × Frames (plain_length r.is_chunked r.body) (chunked_coding r.is_chunked)
                    x.headers)))
          flushed (flush_headers-Frames keep r unsent fresh)

understood :
    (inflate : Bytes → Option Bytes) (chunks : List Bytes) (s : Response)
    (proto code reason : Bytes) (all : List Header)
    → IsStatus proto code reason
    → s.status ≡ status_line proto code reason
    → s.headers.headers ≡ all
    → All IsLine all
    → s.body ≢ []
    → length s.body < 2 ^ 64
    → get_in (codes "Content-Length") all ≡ print_nat (length s.body)
    → get_in (codes "TRANSFER-ENCODING") all ≡ []
    → HeadIsSafe [] chunks
    → flatten chunks ≡ (to_string s).1
    → Understood inflate chunks s
understood inflate chunks s proto [] reason all i status e ls ne small l t safe text =
    absurd (i.visible (unfold skip_space in refl))
understood inflate chunks s proto (c ∷ code) reason [] i status e ls ne small l t safe text =
    absurd (print_nat-cons (length s.body) (unfold get_in in (sym l)))
understood inflate chunks s proto (c ∷ code) reason (h ∷ hs) i status e ls ne small l t safe text =
    record {
      answer = _;
      hears =
          hear_response proto code reason c h hs i.proto_word i.code_word i.visible i.free i.start
            i.end ls inflate chunks s.body
            (text
              ∙ payload_parts s h hs
                  (λ empty. line-ne-nil proto ((c ∷ code) ++ b' ' ∷ reason) (sym status ∙ empty)) ls
                  e
              ∙ ap (λ (x : Bytes). head_of x (h ∷ hs) ++ (header_end ++ s.body)) status)
            safe ne small l t i.final;
      status = sym status;
      headers = sym e;
      body = refl;
    }

-- A server's response that is not chunked, with neither framing header set before: from its text
-- the client resolves with the status, the headers and the body that were sent, in any reads of
-- which the one where the head ends holds all of the head, or nothing behind it. The status line
-- must be a protocol, a code and a reason, with no line feed and no blank at its ends, and not
-- start with `100`, and the body must not be empty. Behind `flushHeaders` each header must have a
-- name, with no colon and other than `Cookie`, and a value, both with no line feed and no blank at
-- their ends.
pub flush-hear :
    (inflate : Bytes → Option Bytes) (keep : Bool) (r s : Response) (chunks : List Bytes)
    (proto code reason : Bytes)
    → r.headers_sent ≡ false
    → r.is_chunked ≡ false
    → Frames (false, []) (false, []) r.headers
    → flush_headers keep r ≡ some s
    → IsStatus proto code reason
    → s.status ≡ status_line proto code reason
    → All IsLine s.headers.headers
    → s.body ≢ []
    → length s.body < 2 ^ 64
    → HeadIsSafe [] chunks
    → flatten chunks ≡ (to_string s).1
    → Understood inflate chunks s
flush-hear inflate keep r s chunks proto code reason unsent plain_body fresh flushed i status ls ne
      small safe text =
    let (body, size, none_such) = flushed-Frames keep r s unsent plain_body fresh flushed in
    understood inflate chunks s proto code reason s.headers.headers i status refl ls ne small
      (size ∙ ap (λ (b : Bytes). print_nat (length b)) (sym body)) none_such safe text

-- A response whose status line has a code and no reason, as `redirect` sets it: the client of the
-- same library rejects its text, whatever body follows. The read where the head ends must hold all
-- of the head, or nothing behind it. There must be a header, and each must have a name, with no
-- colon and other than `Cookie`, and a value, both with no line feed and no blank at their ends.
pub hear_no_reason :
    (inflate : Bytes → Option Bytes) (chunks : List Bytes) (proto code : Bytes) (c : ℕ) (h : Header)
    (hs : List Header) (body : Bytes)
    → Lacks b' ' proto
    → Lacks b' ' (c ∷ code)
    → Lacks b'\n' (proto ++ b' ' ∷ c ∷ code)
    → StartsClear (proto ++ b' ' ∷ c ∷ code)
    → EndsClear (proto ++ b' ' ∷ c ∷ code)
    → All IsLine (h ∷ hs)
    → HeadIsSafe [] chunks
    → flatten chunks ≡ head_of (proto ++ b' ' ∷ c ∷ code) (h ∷ hs) ++ (header_end ++ body)
    → hear inflate chunks new_client ≡ rejected
hear_no_reason inflate chunks proto code c h hs body hp hc free start end ls safe text =
    hear_head inflate chunks headed.unread new_header_reader headed.reader new_response rejected
      (λ fuel. consume_thrown inflate fuel headed.reader new_response (
        ap (λ (t : Bytes). parse_headers t new_response)
          (headed.headers
            ∙ ap (take (length (head_of (proto ++ b' ' ∷ c ∷ code) (h ∷ hs)))) text
            ∙ take-length (head_of (proto ++ b' ' ∷ c ∷ code) (h ∷ hs)) (header_end ++ body))
        ∙ parse_headers_short (proto ++ b' ' ∷ c ∷ code) (h ∷ hs) free start end new_response
            (status_parts_short proto code c hp hc)))
      safe headed.completes
  where
    headed :
        Headed
          (flatten chunks)
          (length (head_of (proto ++ b' ' ∷ c ∷ code) (h ∷ hs)))
          (feed Reader.consume_headers chunks new_header_reader)
    headed =
        feed_headers chunks [] (length (head_of (proto ++ b' ' ∷ c ∷ code) (h ∷ hs))) none_yet (
          ap (find_str header_end) text
          ∙ head_end (proto ++ b' ' ∷ c ∷ code) h hs body free (All-IsText (h ∷ hs) ls))
