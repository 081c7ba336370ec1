-- ===== src/Headers/RoundTrip.antt =====
-- libraries/prio-http/src/header.cpp: `Headers::parse` on what `Headers::toString` writes.
use wpp.Prelude.{
  Bytes, false, Option, some, List, [], ◌∷◌, ◌++◌, ◌≡◌, ◌≢◌, refl, sym, ap, ◌∙◌, arith, case_eq,
  codes, ◌>>=◌, is_empty, is_empty_ne, All, All-append, Lacks, append_assoc, append-nil, map,
  find_char-append, take-length, drop-suc-length, length, ◌==◌,
}
use wpp.Text.{trim, is_blank}
use wpp.Text.Trim.{IsBlank, StartsClear, EndsClear, trim_unique, trim-IsTrimmed}
use wpp.Headers.{
  Header, Headers, no_headers, set, write_headers, to_string, lines_from, set_line, parse_lines,
  parse,
}
use wpp.Headers.Laws.{set_other}

-- A header that is one line: a name with no colon and a value, both with no line feed and no blank at
-- their ends. It is not a `Cookie` header.
pub record IsLine (h : Header) : Type 0 where
  pub name_ne_nil : h.0 ≢ []
  pub name_colon : Lacks b':' h.0
  pub name_feed : Lacks b'\n' h.0
  pub name_starts : StartsClear h.0
  pub name_ends : EndsClear h.0
  pub value_feed : Lacks b'\n' h.1
  pub value_starts : StartsClear h.1
  pub value_ends : EndsClear h.1
  pub no_cookie : case_eq h.0 (codes "COOKIE") ≡ false

-- A header whose value may have blanks at its ends, as in `Host: x`.
pub record IsText (h : Header) : Type 0 where
  pub name_ne_nil : h.0 ≢ []
  pub name_colon : Lacks b':' h.0
  pub name_feed : Lacks b'\n' h.0
  pub name_starts : StartsClear h.0
  pub name_ends : EndsClear h.0
  pub value_feed : Lacks b'\n' h.1
  pub no_cookie : case_eq h.0 (codes "COOKIE") ≡ false

IsLine-IsText : (h : Header) → IsLine h → IsText h
IsLine-IsText h l = record {
  name_ne_nil = l.name_ne_nil;
  name_colon = l.name_colon;
  name_feed = l.name_feed;
  name_starts = l.name_starts;
  name_ends = l.name_ends;
  value_feed = l.value_feed;
  no_cookie = l.no_cookie;
}

pub All-IsText : (hs : List Header) → All IsLine hs → All IsText hs
All-IsText [] ls = tt
All-IsText (h ∷ hs) (l, ls) = (IsLine-IsText h l, All-IsText hs ls)

-- A header without the blanks around its value.
abbrev pub tidy : Header → Header
tidy (k, v) = (k, trim v)

tidy-All : (hs : List Header) → All IsLine hs → map tidy hs ≡ hs
tidy-All [] ls = refl
tidy-All ((k, v) ∷ hs) (l, ls) =
    ap (λ (t : Bytes). (k, t) ∷ map tidy hs)
      (ap trim (sym (append-nil v)) ∙ trim_unique [] v [] tt tt l.value_starts l.value_ends)
    ∙ ap (λ (x : List Header). (k, v) ∷ x) (tidy-All hs ls)

trim-append_blank : (v tail : Bytes) → All IsBlank tail → trim (v ++ tail) ≡ trim v
trim-append_blank v tail blank =
    let r = trim-IsTrimmed v in
    ap (λ (t : Bytes). trim (t ++ tail)) r.splits
    ∙ ap trim (append_assoc (r.before ++ trim v) r.after tail)
    ∙ trim_unique r.before (trim v) (r.after ++ tail) r.before_blank
        (All-append IsBlank r.after tail r.after_blank blank) r.starts r.ends

-- The text between the request line and the empty line, as the header reader cuts it out.
unfoldable pub block : List Header → Bytes
block [] = []
block (h ∷ []) = h.0 ++ b':' ∷ h.1
block (h ∷ g ∷ hs) = (h.0 ++ b':' ∷ h.1) ++ (b'\r' ∷ b'\n' ∷ block (g ∷ hs))

lines_from-Lacks :
    (p rest line : Bytes)
    → Lacks b'\n' p
    → lines_from (p ++ rest) line ≡ lines_from rest (line ++ p)
unfolding lines_from
lines_from-Lacks [] rest line h = rw append-nil
lines_from-Lacks (c ∷ p) rest line (hc, h) =
    let e : (c == b'\n') ≡ false = ground arith in
    rw (lines_from, e) (lines_from-Lacks p rest (line ++ c ∷ []) h ∙ rw append_assoc)

prefix-ne-nil : (k s : Bytes) → k ≢ [] → k ++ s ≢ []
prefix-ne-nil [] s h = absurd (h refl)
prefix-ne-nil (c ∷ k) s h = cc

-- A line is cut at the colon, and both sides are trimmed.
set_line_lem :
    (h : Header) (tail : Bytes) (g : Headers)
    → IsText h
    → All IsBlank tail
    → set_line (h.0 ++ b':' ∷ (h.1 ++ tail)) (some (length h.0)) g
      ≡ some (record g { headers = g.headers ++ tidy h ∷ [] })
unfolding set_line
set_line_lem (k, v) tail g l blank =
    rw (take-length k (b':' ∷ (v ++ tail)), drop-suc-length k b':' (v ++ tail))
      ((λ i. set (trimmed_name i) (trim-append_blank v tail blank i) g)
        ∙ set_other k (trim v) g l.no_cookie)
  where
    trimmed_name : trim k ≡ k
    trimmed_name =
        ap trim (sym (append-nil k)) ∙ trim_unique [] k [] tt tt l.name_starts l.name_ends

-- One line, with a carriage return or nothing behind the value.
parse_line :
    (h : Header) (tail : Bytes) (lines : List Bytes) (done : List Header)
    → IsText h
    → All IsBlank tail
    → parse_lines (((h.0 ++ b':' ∷ h.1) ++ tail) ∷ lines) (record no_headers { headers = done })
      ≡ parse_lines lines (record no_headers { headers = done ++ tidy h ∷ [] })
unfolding parse_lines
parse_line (k, v) tail lines done l blank =
    let text : (k ++ b':' ∷ v) ++ tail ≡ k ++ b':' ∷ (v ++ tail) = append_assoc k (b':' ∷ v) tail in
    let full : is_empty (k ++ b':' ∷ (v ++ tail)) ≡ false =
      is_empty_ne _ (prefix-ne-nil k _ l.name_ne_nil) in
    rw (text, full, find_char-append b':' k (v ++ tail) l.name_colon)
      (ap (λ (m : Option Headers). m >>= parse_lines lines)
        (set_line_lem (k, v) tail (record no_headers { headers = done }) l blank))

lines_from_feed :
    (p rest : Bytes) → Lacks b'\n' p → lines_from (p ++ b'\n' ∷ rest) [] ≡ p ∷ lines_from rest []
lines_from_feed p rest h = lines_from-Lacks p (b'\n' ∷ rest) [] h ∙ unfold lines_from in refl

pub line-Lacks : (h : Header) → IsText h → Lacks b'\n' (h.0 ++ b':' ∷ h.1)
line-Lacks h l =
    All-append (λ c. c ≢ b'\n') h.0 (b':' ∷ h.1) l.name_feed (omega arith, l.value_feed)

last_line :
    (h : Header) → IsText h → lines_from (h.0 ++ b':' ∷ h.1) [] ≡ ((h.0 ++ b':' ∷ h.1) ++ []) ∷ []
last_line h l =
    ap (λ (text : Bytes). lines_from text []) (sym (append-nil (h.0 ++ b':' ∷ h.1)))
    ∙ lines_from-Lacks (h.0 ++ b':' ∷ h.1) [] [] (line-Lacks h l)
    ∙ unfold lines_from in ap (λ (x : Bytes). x ∷ []) (sym (append-nil (h.0 ++ b':' ∷ h.1)))

returned-Lacks : (h : Header) → IsText h → Lacks b'\n' ((h.0 ++ b':' ∷ h.1) ++ b'\r' ∷ [])
returned-Lacks h l =
    All-append (λ c. c ≢ b'\n') (h.0 ++ b':' ∷ h.1) _ (line-Lacks h l) (omega arith, tt)

parse_block :
    (h : Header) (hs done : List Header)
    → All IsText (h ∷ hs)
    → parse_lines (lines_from (block (h ∷ hs)) []) (record no_headers { headers = done })
      ≡ some (record no_headers { headers = done ++ tidy h ∷ map tidy hs })
unfolding block
parse_block h [] done (l, ls) =
    ap (λ (text : List Bytes). parse_lines text (record no_headers { headers = done }))
      (last_line h l)
    ∙ parse_line h [] [] done l tt
    ∙ unfold parse_lines in refl
parse_block h (g ∷ hs) done (l, ls) =
    ap (λ (text : List Bytes). parse_lines text (record no_headers { headers = done }))
      (ap (λ (text : Bytes). lines_from text [])
          (sym (append_assoc (h.0 ++ b':' ∷ h.1) (b'\r' ∷ []) _))
        ∙ lines_from_feed ((h.0 ++ b':' ∷ h.1) ++ b'\r' ∷ []) (block (g ∷ hs)) (returned-Lacks h l))
    ∙ parse_line h (b'\r' ∷ []) _ done l (unfold is_blank in (refl, tt))
    ∙ parse_block g hs (done ++ tidy h ∷ []) ls
    ∙ ap (λ (x : List Header). some (record no_headers { headers = x }))
        (append_assoc done (tidy h ∷ []) (map tidy (g ∷ hs)))

-- Lines are parsed as headers without the blanks around their values.
pub parse-texts :
    (h : Header) (hs : List Header)
    → All IsText (h ∷ hs)
    → parse (block (h ∷ hs)) ≡ some (record no_headers { headers = map tidy (h ∷ hs) })
unfolding parse
parse-texts h hs ls = parse_block h hs [] ls

write_headers-block :
    (h : Header) (hs : List Header) → write_headers (h ∷ hs) ≡ block (h ∷ hs) ++ codes "\r\n"
unfolding write_headers block
write_headers-block h [] = simp append_assoc
write_headers-block h (g ∷ hs) =
    ap (λ (s : Bytes). h.0 ++ b':' ∷ (h.1 ++ b'\r' ∷ b'\n' ∷ s)) (write_headers-block g hs)
    ∙ simp append_assoc

-- `toString` writes headers as a block, which has a line for each, and an empty line, and `parse`
-- reads the block, which is what the header reader hands on, as the same headers in the same order.
-- There must be a header. Each must have a name, with no colon and other than `Cookie`, and a
-- value, both with no line feed and no blank at their ends.
pub parse-block :
    (h : Header) (hs : List Header) (g : Headers)
    → All IsLine (h ∷ hs)
    → g.headers ≡ h ∷ hs
    → (to_string g ≡ block (h ∷ hs) ++ codes "\r\n\r\n")
      × (parse (block (h ∷ hs)) ≡ some (record no_headers { headers = h ∷ hs }))
unfolding parse to_string
parse-block h hs g ls e = (
  ap (λ (x : List Header). write_headers x ++ codes "\r\n") e
      ∙ ap (λ (s : Bytes). s ++ codes "\r\n") (write_headers-block h hs)
      ∙ append_assoc (block (h ∷ hs)) (codes "\r\n") (codes "\r\n"),
  parse_block h hs [] (All-IsText (h ∷ hs) ls)
      ∙ ap (λ (x : List Header). some (record no_headers { headers = x })) (tidy-All (h ∷ hs) ls),
)
