-- ===== src/Request/Stream.antt =====
-- libraries/prio-http/src/server_reader.cpp and request.cpp: a request that comes in chunks.
use mathlib.Core.List.{flatten}
use mathlib.Core.Option
use wpp.Prelude.{
  Bytes, ℕ, suc, ◌+◌, ◌&&◌, Bool, true, false, some, List, [], ◌∷◌, ◌++◌, ◌≡◌, ◌≢◌, refl, ap, sym,
  ◌∙◌, arith, All, Lacks, length, length-append, append_assoc, find_str, starts_with, ◌==◌, none,
  take, drop, take-length, ltb,
}
use wpp.Prelude.Cuts.{drop-front}
use wpp.Text.Split.{IsPart}
use wpp.Headers
use wpp.Headers.{Header}
use wpp.Headers.RoundTrip.{IsText, block, line-Lacks}
use wpp.Request.{Request, returned, parse}
use wpp.Request.Parse.{received, words, path_from, parse_lem}
use wpp.Reader.{HeaderReader, header_end, new_header_reader, consume_headers, feed}
use wpp.Reader.Chunks.{Headed, feed_headers}

abbrev starts_cr : Bytes → Bool
starts_cr [] = false
starts_cr (x ∷ s) = x == b'\r'

pub and_false : (b : Bool) → (b && false) ≡ false
and_false true = refl
and_false false = refl

-- A line feed does not come next in a line that goes on, or ends in a carriage return.
no_feed : (p q r : Bytes) → Lacks b'\n' p → starts_with (b'\n' ∷ q) (p ++ b'\r' ∷ r) ≡ false
unfolding starts_with
no_feed [] q r h = refl
no_feed (c ∷ p) q r (hc, h) = ground arith

behind_feed :
    (r : Bytes)
    → starts_cr r ≡ false
    → find_str header_end (b'\r' ∷ b'\n' ∷ r)
      ≡ Option.map suc (Option.map suc (find_str header_end r))
unfolding find_str starts_with
behind_feed [] f = refl
behind_feed (x ∷ r) f = let k : (b'\r' == x) ≡ false = ground arith in rw (find_str, k) refl

-- The end of the headers is behind a line that another line follows.
end_behind :
    (p r : Bytes) (i : ℕ)
    → Lacks b'\n' p
    → starts_cr r ≡ false
    → find_str header_end r ≡ some i
    → find_str header_end (p ++ (b'\r' ∷ b'\n' ∷ r)) ≡ some (length p + 2 + i)
unfolding find_str starts_with
end_behind [] r i h f e = behind_feed r f ∙ rw e (ap some (omega arith))
end_behind (c ∷ p) r i (hc, h) f e =
    rw
      (
        find_str,
        no_feed p (b'\r' ∷ b'\n' ∷ []) (b'\n' ∷ r) h,
        and_false (b'\r' == c),
        end_behind p r i h f e,
      )
      (ap some (omega arith))

-- The end of the headers right behind a line.
pub end_at :
    (p body : Bytes)
    → Lacks b'\n' p
    → find_str header_end (p ++ (header_end ++ body)) ≡ some (length p)
unfolding find_str starts_with
end_at [] body h = refl
end_at (c ∷ p) body (hc, h) =
    rw
      (
        find_str,
        no_feed p (b'\r' ∷ b'\n' ∷ []) (b'\n' ∷ b'\r' ∷ b'\n' ∷ body) h,
        and_false (b'\r' == c),
        end_at p body h,
      )
      refl

block_starts :
    (h : Header) (hs : List Header) (rest : Bytes)
    → IsText h
    → starts_cr (block (h ∷ hs) ++ rest) ≡ false
unfolding block wpp.Text.is_blank
block_starts ([], v) hs rest l = absurd (l.name_ne_nil refl)
block_starts (x ∷ n, v) [] rest l = let k = l.name_starts in ground arith
block_starts (x ∷ n, v) (g ∷ hs) rest l = let k = l.name_starts in ground arith

block_end :
    (h : Header) (hs : List Header) (body : Bytes)
    → All IsText (h ∷ hs)
    → find_str header_end (block (h ∷ hs) ++ (header_end ++ body)) ≡ some (length (block (h ∷ hs)))
unfolding block
block_end h [] body (l, _) = end_at (h.0 ++ b':' ∷ h.1) body (line-Lacks h l)
block_end h (g ∷ hs) body (l, ls) =
    ap (find_str header_end) (append_assoc line _ (header_end ++ body))
    ∙ end_behind line (block (g ∷ hs) ++ (header_end ++ body)) _ (line-Lacks h l)
        (block_starts g hs _ ls.0) (block_end g hs body ls)
    ∙ ap some (omega (arith, length-append {0} line (b'\r' ∷ b'\n' ∷ block (g ∷ hs))))
  where
    line : Bytes
    line = h.0 ++ b':' ∷ h.1

-- The text of a request in front of the empty line.
abbrev pub head_of : Bytes → List Header → Bytes
head_of line hs = line ++ (b'\r' ∷ b'\n' ∷ block hs)

pub head_end :
    (line : Bytes) (h : Header) (hs : List Header) (body : Bytes)
    → Lacks b'\n' line
    → All IsText (h ∷ hs)
    → find_str header_end (head_of line (h ∷ hs) ++ (header_end ++ body))
      ≡ some (length (head_of line (h ∷ hs)))
head_end line h hs body free ls =
    ap (find_str header_end) (append_assoc line _ (header_end ++ body))
    ∙ end_behind line (block (h ∷ hs) ++ (header_end ++ body)) _ free (block_starts h hs _ ls.0)
        (block_end h hs body ls)
    ∙ ap some (omega (arith, length-append {0} line (b'\r' ∷ b'\n' ∷ block (h ∷ hs))))

pub none_yet : find_str header_end [] ≡ none
unfolding find_str
none_yet = refl

-- A request line, header lines, an empty line and a body, in chunks of any sizes: the header reader
-- comes to its end, `parse` makes of the text it hands on the request that was sent, with the
-- carriage return of the request line behind its protocol, and the body is what the reader has read
-- behind the headers and what it has not read. The request line must have no line feed, and be a
-- method and a target that are not empty and hold no space, and a protocol that is not empty and
-- does not start with one. There must be a header. Each header line must be a name, a colon and a
-- value, with no line feed: the name is not empty, has no colon and no blank at its ends, and is
-- not `Cookie`. Blanks around the value, as in `Host: x`, are cut off.
pub parse-chunks :
    (chunks : List Bytes) (m q : Bytes) (y : ℕ) (proto : Bytes) (h : Header) (hs : List Header)
    (body : Bytes) (r : Request)
    → flatten chunks ≡ head_of (words m q (y ∷ proto)) (h ∷ hs) ++ (header_end ++ body)
    → IsPart 32 m
    → IsPart 32 q
    → y ≢ 32
    → Lacks b'\n' (words m q (y ∷ proto))
    → All IsText (h ∷ hs)
    → (reader : HeaderReader) × (unread : List Bytes) × (feed consume_headers chunks
          new_header_reader
        ≡ some (reader, unread))
      × (parse reader.headers_stream r
          ≡ returned (ltb 0 (Headers.content_length (received (h ∷ hs)))) (record r {
            path = path_from m q ((y ∷ proto) ++ b'\r' ∷ []) r.path;
            headers = received (h ∷ hs);
            size = Headers.content_length (received (h ∷ hs));
          }))
      × (reader.body_stream ++ flatten unread ≡ body)
parse-chunks chunks m q y proto h hs body r text hm hq hy free ls = (
  headed.reader,
  headed.unread,
  headed.completes,
  ap (λ (s : Bytes). parse s r)
        (headed.headers ∙ ap (take (length head)) text ∙ take-length head (header_end ++ body))
      ∙ parse_lem m q y proto h hs r hm hq hy free ls,
  headed.body
      ∙ ap (drop (length head + 4)) (text ∙ sym (append_assoc head header_end body))
      ∙ drop-front (head ++ header_end) body _ (omega (arith, length-append {0} head header_end)),
)
  where
    head : Bytes
    head = head_of (words m q (y ∷ proto)) (h ∷ hs)

    headed : Headed (flatten chunks) (length head) (feed consume_headers chunks new_header_reader)
    headed =
        feed_headers chunks [] (length head) none_yet
          (ap (find_str header_end) text ∙ head_end (words m q (y ∷ proto)) h hs body free ls)
