-- ===== src/Text/Html.antt =====
-- libraries/prio-http/src/common.cpp: `escape_html` and `unescape_html`.
use wpp.Prelude.{Bytes, ℕ, [], ◌∷◌, ◌++◌, ◌≡◌, refl, ap, arith, All-append, Lacks, ◌∙◌}
use wpp.Text.{escape_char, escape_html, unescape_loop, unescape_html}

unescape_loop-escape_char :
    (c : ℕ) (rest : Bytes) → unescape_loop 0 (escape_char c ++ rest) ≡ c ∷ unescape_loop 0 rest
unfolding unescape_loop escape_char
unescape_loop-escape_char c rest = ground arith

-- `unescape_html` gives back every text that `escape_html` has escaped.
pub unescape_html-escape_html : (s : Bytes) → unescape_html (escape_html s) ≡ s
unfolding unescape_html escape_html
unescape_html-escape_html [] = refl
unescape_html-escape_html (c ∷ s) =
    unescape_loop-escape_char c (escape_html s) ∙ ap (◌∷◌ c) (unescape_html-escape_html s)

escape_char-Lacks : (c : ℕ) → Lacks b'<' (escape_char c) × Lacks b'>' (escape_char c)
unfolding escape_char
escape_char-Lacks c = ground arith

-- Escaped text holds neither `<` nor `>`.
pub escape_html-Lacks : (s : Bytes) → Lacks b'<' (escape_html s) × Lacks b'>' (escape_html s)
unfolding escape_html
escape_html-Lacks [] = (tt, tt)
escape_html-Lacks (c ∷ s) = (
  All-append _ (escape_char c) _ (escape_char-Lacks c).0 (escape_html-Lacks s).0,
  All-append _ (escape_char c) _ (escape_char-Lacks c).1 (escape_html-Lacks s).1,
)
