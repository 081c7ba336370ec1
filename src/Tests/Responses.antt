-- ===== src/Tests/Responses.antt =====
-- Responses and chunked bodies at concrete inputs.
use wpp.Prelude.{Bytes, true, false, List, [], ◌∷◌, ◌≡◌, refl, codes, arith, case_eq}
use wpp.Prelude.Decimal.{print_nat}
use wpp.Headers
use wpp.Headers.{Header, no_headers}
use wpp.Headers.RoundTrip.{IsLine}
use wpp.Response.{Response, new_response, flush_headers}
use wpp.Response.Framing.{Ends, Frames, flush_headers-Frames}
use wpp.Writer.{Event, written_to, write_ended}
use wpp.Writer.Coding.{Delivered, run-Delivered}
use wpp.Tests.Checks.{lacks_sound}

abbrev pub greeting : Response
greeting = record new_response { status = codes "HTTP/1.1 200 OK"; body = codes "hello" }

flush_headers-Frames_example :
    Ends
      (λ (s : Response).
        (s.headers_sent ≡ true)
        × ((s.body ≡ codes "hello") × Frames (true, codes "5") (false, []) s.headers))
      (flush_headers true greeting)
unfolding Headers.exists_in Headers.get_in case_eq print_nat
flush_headers-Frames_example = flush_headers-Frames true greeting refl (refl, refl)

abbrev pub length_line : Header
length_line = (codes "Content-Length", codes "5")

pub length_line-IsLine : IsLine length_line
unfolding case_eq wpp.Text.is_blank
length_line-IsLine = record {
  name_ne_nil = λ e. cc;
  name_colon = lacks_sound b':' (codes "Content-Length") refl;
  name_feed = lacks_sound b'\n' (codes "Content-Length") refl;
  name_starts = refl;
  name_ends = refl;
  value_feed = lacks_sound b'\n' (codes "5") refl;
  value_starts = refl;
  value_ends = refl;
  no_cookie = refl;
}

abbrev pub sent_greeting : Response
sent_greeting = record greeting {
  headers = record no_headers { headers = length_line ∷ [] };
  headers_sent = true;
}

abbrev pub pieces : List Bytes
pieces = codes "HTTP/1.1 200 OK\r\nContent-Len" ∷ codes "gth:5\r\n\r\nhe" ∷ codes "llo" ∷ []

-- Two writes, the second while the first is on its way.
abbrev two_writes : List Event
two_writes = written_to (codes "Hello, ") ∷ written_to (codes "world") ∷ write_ended ∷ []

run-Delivered_example : Delivered (codes "HTTP/1.1 200 OK\r\n\r\n") two_writes 3
run-Delivered_example =
    run-Delivered (codes "HTTP/1.1 200 OK\r\n\r\n") two_writes 3 tt
      (((λ e. cc e), omega arith), (((λ e. cc e), omega arith), tt)) (omega arith)
