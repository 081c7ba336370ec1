-- ===== src/Url/Ends.antt =====
-- libraries/prio/src/url.cpp: the loop of `setQuery`, and its end.
use mathlib.Core.Option
use wpp.Prelude.{
  Bytes, ℕ, zero, suc, ◌+◌, ◌<◌, ◌≤◌, Option, some, none, List, [], ◌∷◌, ◌≡◌, ◌≢◌, refl, ap, arith,
  length, length-append, drop, find_char_from, find_char-cases, found, missing, if◌then◌else◌, ◌==◌,
}
use wpp.Prelude.Cuts.{length-drop}
use wpp.Url.{query_loop, parse_query}

-- A search that finds gives a place within the text, at its start or behind it.
data FromCases (c : ℕ) (s : Bytes) (at : ℕ) : Type 0 where
  here : (i : ℕ) → find_char_from c s at ≡ some i → at ≤ i → i < length s → FromCases c s at
  nowhere : find_char_from c s at ≡ none → FromCases c s at

from_cases : (c : ℕ) (s : Bytes) (at : ℕ) → FromCases c s at
from_cases c s at = elim (find_char-cases c (drop at s)) [
  | found i e f ↦ here (at + i) (rw e refl) (omega arith) (
      omega (
        arith,
        length-drop at s,
        ap length f.splits,
        length-append f.front (c ∷ f.back),
        f.front_length,
      ))
  | missing e h ↦ nowhere (rw e refl)
]

map-some :
    (f : List (Bytes × Bytes) → List (Bytes × Bytes)) (o : Option (List (Bytes × Bytes)))
    → o ≢ none
    → Option.map f o ≢ none
map-some f none h e = h refl
map-some f (some x) h e = cc

loop_ends :
    (fuel : ℕ) (s : Bytes) (at : ℕ)
    → at ≤ length s
    → length s < fuel + at
    → query_loop fuel s at ≢ none
unfolding query_loop
loop_ends zero s at le h = absurd (omega arith)
loop_ends (suc fuel) s at le h = elim (from_cases b'=' s at) [
  | nowhere e ↦ rw (query_loop, e) (λ r. cc)
  | here p e lo hi ↦ elim (from_cases b'&' s (p + 1)) [
    | nowhere f ↦ rw (query_loop, e, f) (λ r. cc)
    | here a f lo2 hi2 ↦
        rw (query_loop, e, f) (map-some _ _ (loop_ends fuel s (a + 1) (omega arith) (omega arith)))
  ]
]

-- `setQuery` comes to an end on every text, within as many rounds as the text has bytes and one.
pub parse_query_ends : (query : Bytes) → parse_query query ≢ none
unfolding parse_query
parse_query_ends [] = λ r. cc
parse_query_ends (c ∷ query) =
    loop_ends (suc (length (c ∷ query))) (c ∷ query) (if c == b'?' then 1 else 0) (ground arith)
      (ground arith)
