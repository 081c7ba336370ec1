-- ===== src/Tests/Messages.antt =====
-- Requests, headers and the readers at concrete inputs.
use mathlib.Core.List.{flatten}
use wpp.Prelude.{Bytes, some, List, [], ◌∷◌, ◌++◌, ◌≡◌, refl, codes, arith, case_eq, ltb, find_str}
use wpp.Prelude.Decimal.{print_nat}
use wpp.Headers
use wpp.Headers.{Header, Headers, no_headers}
use wpp.Headers.RoundTrip.{IsLine, IsText, block, parse-block}
use wpp.Path.{empty_path}
use wpp.Request
use wpp.Request.{Request, empty_request, returned}
use wpp.Request.Parse.{headers_of, words, path_from}
use wpp.Request.Stream.{parse-chunks}
use wpp.Reader.{HeaderReader, new_header_reader, consume_headers, feed}
use wpp.Reader.Chunks.{Headed, feed_headers}
use wpp.Tests.Checks.{lacks_sound}

abbrev host : Header
host = (codes "Host", codes "example.org")

host-IsLine : IsLine host
unfolding wpp.Text.is_blank case_eq
host-IsLine = record {
  name_ne_nil = λ e. cc;
  name_colon = lacks_sound b':' (codes "Host") refl;
  name_feed = lacks_sound b'\n' (codes "Host") refl;
  name_starts = refl;
  name_ends = refl;
  value_feed = lacks_sound b'\n' (codes "example.org") refl;
  value_starts = refl;
  value_ends = refl;
  no_cookie = refl;
}

parse-block_example :
    (Headers.to_string (headers_of (host ∷ [])) ≡ block (host ∷ []) ++ codes "\r\n\r\n")
    × (Headers.parse (block (host ∷ [])) ≡ some (headers_of (host ∷ [])))
parse-block_example = parse-block host [] (headers_of (host ∷ [])) (host-IsLine, tt) refl

abbrev one_header : Headers
one_header = headers_of (host ∷ [])

abbrev two_headers : Headers
two_headers = headers_of (host ∷ (codes "X", codes "1") ∷ [])

abbrev two_hosts : Headers
two_hosts = headers_of (host ∷ (codes "host", codes "b") ∷ [])

abbrev sized_header : Headers
sized_header = headers_of (host ∷ (codes "CONTENT-LENGTH", print_nat 12) ∷ [])

-- The header as clients write it.
abbrev spaced : Header
spaced = (codes "Host", codes " example.org")

spaced-IsText : IsText spaced
unfolding wpp.Text.is_blank case_eq
spaced-IsText = record {
  name_ne_nil = λ e. cc;
  name_colon = lacks_sound b':' (codes "Host") refl;
  name_feed = lacks_sound b'\n' (codes "Host") refl;
  name_starts = refl;
  name_ends = refl;
  value_feed = lacks_sound b'\n' (codes " example.org") refl;
  no_cookie = refl;
}

abbrev sent : Bytes
sent = words (codes "GET") (codes "/a") (codes "HTTP/1.1") ++ (b'\r' ∷ b'\n' ∷ block (host ∷ []))

parse-chunks_example :
    (reader : HeaderReader) × (unread : List Bytes) × (feed consume_headers
        (codes "GET /a HTTP/1.1\r\nHo"
          ∷ codes "st: example.org\r\n\r"
          ∷ codes "\nhi"
          ∷ codes "!"
          ∷ [])
        new_header_reader
      ≡ some (reader, unread))
    × (Request.parse reader.headers_stream empty_request
        ≡ returned (ltb 0 (Headers.content_length one_header)) (record empty_request {
          path = path_from (codes "GET") (codes "/a") (codes "HTTP/1.1\r") empty_path;
          headers = one_header;
          size = Headers.content_length one_header;
        }))
    × (reader.body_stream ++ flatten unread ≡ codes "hi!")
unfolding flatten block wpp.Text.trim
parse-chunks_example =
    parse-chunks
      (codes "GET /a HTTP/1.1\r\nHo"
        ∷ codes "st: example.org\r\n\r"
        ∷ codes "\nhi"
        ∷ codes "!"
        ∷ [])
      (codes "GET") (codes "/a") b'H' (codes "TTP/1.1") spaced [] (codes "hi!") empty_request refl
      ((λ e. cc), lacks_sound 32 (codes "GET") refl) ((λ e. cc), lacks_sound 32 (codes "/a") refl)
      (omega arith) (lacks_sound b'\n' (words (codes "GET") (codes "/a") (codes "HTTP/1.1")) refl)
      (spaced-IsText, tt)

feed_headers_example : Headed (codes "ab\r\n\r\ncd") 2 (
    feed consume_headers
      (codes "ab\r\n" ∷ codes "\r\nc" ∷ codes "d" ∷ [])
      (record { headers_stream = []; body_stream = [] }))
unfolding find_str flatten
feed_headers_example = feed_headers (codes "ab\r\n" ∷ codes "\r\nc" ∷ codes "d" ∷ []) [] 2 refl refl
