-- ===== src/Tests/Clients.antt =====
-- What a client hears at concrete inputs.
use mathlib.Core.List.{flatten}
use wpp.Prelude.{
  Bytes, false, Option, none, List, [], ◌∷◌, ◌++◌, ◌≡◌, refl, codes, arith, case_eq, str_eq,
  find_str, starts_with, inl, inr,
}
use wpp.Prelude.Decimal.{print_nat}
use wpp.Prelude.Hex.{print_hex}
use wpp.Headers
use wpp.Headers.{Header, no_headers}
use wpp.Headers.RoundTrip.{IsLine}
use wpp.Response.{new_response, flush_headers, to_string, set_body}
use wpp.Writer.{chunk_text}
use wpp.Client.{hear, chunked, resolved, rejected, undefined, new_client}
use wpp.Client.Heads.{HeadIsSafe, hear_split_head}
use wpp.Client.Chunks.{plain}
use wpp.Client.Arrivals.{Read, in_data, Arrives, texts, hear-Arrives, hear_line_cut}
use wpp.Client.Answers.{IsStatus, Understood, flush-hear, hear_no_reason}
use wpp.Tests.Checks.{lacks_sound}
use wpp.Tests.Responses.{greeting, sent_greeting, pieces, length_line, length_line-IsLine}

-- No text is compressed here.
abbrev no_inflate : Bytes → Option Bytes
no_inflate s = none

-- `ab` and `cde`, with a cut inside the second chunk.
abbrev first_read : Read
first_read = record {
  text = codes "2\r\nab\r\n3\r\nc";
  chunks = codes "ab" ∷ [];
  left = codes "3\r\nc";
}

two_chunks : Arrives [] (first_read ∷ []) (codes "de\r\n0\r\n\r\n") (codes "cde" ∷ [])
unfolding flatten chunk_text print_hex
two_chunks = (
  refl,
  (((λ e. cc), omega arith), tt),
  in_data (codes "c") (codes "de") (λ e. cc) (omega arith) refl,
  (refl, (((λ e. cc), omega arith), tt)),
)

hear-Arrives_example :
    hear no_inflate
      (texts (first_read ∷ []) ++ codes "de\r\n0\r\n\r\n" ∷ [])
      (record { response = new_response; stage = chunked (plain 0 [] []) })
    ≡ resolved (record new_response { body = codes "abcde" })
unfolding flatten set_body
hear-Arrives_example =
    hear-Arrives no_inflate 0 new_response (first_read ∷ []) [] (codes "de\r\n0\r\n\r\n") []
      (codes "cde" ∷ []) [] two_chunks

hear_line_cut_example :
    hear no_inflate
      (codes "2\r\nab\r" ∷ codes "\n0\r\n\r\n" ∷ [])
      (record { response = new_response; stage = chunked (plain 0 [] []) })
    ≡ rejected
unfolding flatten chunk_text print_hex
hear_line_cut_example =
    hear_line_cut no_inflate 0 new_response [] (codes "2\r\nab\r") [] (codes "ab") (codes "\r") []
      (codes "\n0\r\n\r\n" ∷ []) tt ((λ e. cc), omega arith) (omega arith) refl

ok-IsStatus : IsStatus (codes "HTTP/1.1") (codes "200") (codes "OK")
unfolding wpp.Prelude.Decimal.skip_space str_eq wpp.Text.is_blank
ok-IsStatus = record {
  proto_word = lacks_sound b' ' (codes "HTTP/1.1") refl;
  code_word = lacks_sound b' ' (codes "200") refl;
  visible = λ e. cc e;
  free = lacks_sound b'\n' (codes "HTTP/1.1 200 OK") refl;
  start = refl;
  end = refl;
  final = refl;
}

-- The head with the begin of the body, and the rest of that.
abbrev two_reads : List Bytes
two_reads = codes "HTTP/1.1 200 OK\r\nContent-Length:5\r\n\r\nhe" ∷ codes "llo" ∷ []

flush-hear_example : Understood no_inflate two_reads sent_greeting
unfolding HeadIsSafe find_str starts_with Headers.exists_in Headers.get_in case_eq print_nat flatten
    flush_headers to_string Headers.set Headers.to_string
flush-hear_example =
    flush-hear no_inflate false greeting sent_greeting two_reads (codes "HTTP/1.1") (codes "200")
      (codes "OK") refl refl (refl, refl) refl ok-IsStatus refl (length_line-IsLine, tt) (λ e. cc e)
      (omega arith) (inl refl) refl

abbrev moved : List Bytes
moved = codes "HTTP/1.1 302\r\nContent-Le" ∷ codes "ngth:5\r\n\r\n" ∷ []

hear_no_reason_example : hear no_inflate moved new_client ≡ rejected
unfolding HeadIsSafe find_str starts_with flatten wpp.Text.is_blank wpp.Headers.RoundTrip.block
hear_no_reason_example =
    hear_no_reason no_inflate moved (codes "HTTP/1.1") (codes "02") b'3' length_line [] []
      (lacks_sound b' ' (codes "HTTP/1.1") refl) (lacks_sound b' ' (codes "302") refl)
      (lacks_sound b'\n' (codes "HTTP/1.1 302") refl) refl refl (length_line-IsLine, tt) (inr refl)
      refl

hear_split_head_example : hear no_inflate pieces new_client ≡ undefined
unfolding find_str starts_with
hear_split_head_example =
    hear_split_head no_inflate (codes "HTTP/1.1 200 OK\r\nContent-Len") (codes "gth:5\r\n\r\nhe") 33
      (codes "llo" ∷ []) new_response refl refl (omega arith) (omega arith)
