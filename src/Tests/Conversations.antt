-- ===== src/Tests/Conversations.antt =====
-- Conversations at concrete inputs.
use mathlib.Core.List.{flatten}
use wpp.Prelude.{
  Bytes, Bool, true, false, some, none, List, [], ◌∷◌, ◌++◌, ◌≡◌, refl, codes, arith, case_eq,
  length, find_char, length,
}
use wpp.Prelude.Decimal.{print_nat}
use wpp.Headers
use wpp.Headers.{Header, no_headers}
use wpp.Headers.RoundTrip.{IsText, block}
use wpp.Request.{empty_request}
use wpp.Response.{Response, new_response}
use wpp.Response.Framing.{Ends}
use wpp.Writer.{gzip_flush}
use wpp.Writer.Gzip.{gzip_flush-length}
use wpp.Conversation.{Conversation, new_conversation, hear}
use wpp.Conversation.Requests.{request_of, handed_on, hear-request}
use wpp.Conversation.Answers.{hear-bodiless}
use wpp.Tests.Checks.{lacks_sound}

abbrev sized : Header
sized = (codes "Content-Length", codes " 2")

sized-IsText : IsText sized
unfolding case_eq wpp.Text.is_blank
sized-IsText = record {
  name_ne_nil = λ e. cc;
  name_colon = lacks_sound b':' (codes "Content-Length") refl;
  name_feed = lacks_sound b'\n' (codes "Content-Length") refl;
  name_starts = refl;
  name_ends = refl;
  value_feed = lacks_sound b'\n' (codes " 2") refl;
  no_cookie = refl;
}

abbrev posted : List Bytes
posted =
    codes "POST /x HTTP/1.1\r\nContent-Len"
    ∷ codes "gth: 2\r\n\r\no"
    ∷ codes "kGET"
    ∷ codes "more"
    ∷ []

hear-request_example :
    (left : List Bytes) × (hear posted new_conversation ≡ (
      left,
      handed_on
          (request_of
            (codes "POST")
            (codes "/x")
            (codes "HTTP/1.1")
            (sized ∷ [])
            (codes "ok")
            empty_request)
          new_conversation,
    ))
unfolding flatten block case_eq Headers.get_in Headers.content_length wpp.Prelude.Decimal.scan_size
    wpp.Text.trim
hear-request_example =
    hear-request posted (codes "POST") (codes "/x") b'H' (codes "TTP/1.1") sized [] (codes "ok")
      (codes "GETmore") new_conversation refl ((λ e. cc), lacks_sound b' ' (codes "POST") refl)
      ((λ e. cc), lacks_sound b' ' (codes "/x") refl) (omega arith)
      (lacks_sound b'\n' (codes "POST /x HTTP/1.1") refl) (sized-IsText, tt) (λ e. cc) refl refl

abbrev host : Header
host = (codes "Host", codes " a")

host-IsText : IsText host
unfolding case_eq wpp.Text.is_blank
host-IsText = record {
  name_ne_nil = λ e. cc;
  name_colon = lacks_sound b':' (codes "Host") refl;
  name_feed = lacks_sound b'\n' (codes "Host") refl;
  name_starts = refl;
  name_ends = refl;
  value_feed = lacks_sound b'\n' (codes " a") refl;
  no_cookie = refl;
}

-- Two requests in one chunk.
abbrev pipelined : Bytes
pipelined = codes "GET /a HTTP/1.1\r\nHost: a\r\n\r\nGET /b HTTP/1.1\r\n"

hear-bodiless_example :
    (b : Bytes) × (left : List Bytes) × (b ++ flatten left ≡ codes "GET /b HTTP/1.1\r\n")
    × (hear (pipelined ∷ []) new_conversation ≡ (
      left,
      handed_on
          (record (request_of
            (codes "GET")
            (codes "/a")
            (codes "HTTP/1.1")
            (host ∷ [])
            []
            empty_request) { body = b })
          new_conversation,
    ))
unfolding flatten block case_eq Headers.get_in Headers.content_length wpp.Text.trim
hear-bodiless_example =
    hear-bodiless (pipelined ∷ []) (codes "GET") (codes "/a") b'H' (codes "TTP/1.1") host []
      (codes "GET /b HTTP/1.1\r\n") new_conversation refl
      ((λ e. cc), lacks_sound b' ' (codes "GET") refl)
      ((λ e. cc), lacks_sound b' ' (codes "/a") refl) (omega arith)
      (lacks_sound b'\n' (codes "GET /a HTTP/1.1") refl) (host-IsText, tt) refl

abbrev hello : Response
hello = record new_response { status = codes "HTTP/1.1 200 OK"; body = codes "hello" }

abbrev sent_hello : Response
sent_hello = record hello {
  headers = record no_headers {
    headers = (codes "Content-Length", codes "5") ∷ (codes "Connection", codes "Keep-Alive") ∷ [];
  };
  headers_sent = true;
}

abbrev hello_text : Bytes
hello_text = codes "HTTP/1.1 200 OK\r\nContent-Length:5\r\nConnection:Keep-Alive\r\n\r\nhello"

abbrev kept : Conversation
kept = record new_conversation { keep_alive = true }

-- A compressor of runs, for one text.
abbrev shorter : Bytes → Bytes
shorter s = codes "z"

gzip_flush-length_example :
    Ends
      (λ (p : Response × Bytes).
        (p.0.body ≡ codes "z")
        × (Headers.get_in (codes "Content-Length") p.0.headers.headers ≡ print_nat 5))
      (gzip_flush shorter true hello)
unfolding Headers.exists_in Headers.get_in case_eq
gzip_flush-length_example = gzip_flush-length shorter true hello refl refl (refl, refl) (λ e. cc)
