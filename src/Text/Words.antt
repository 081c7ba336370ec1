-- ===== src/Text/Words.antt =====
-- libraries/prio-http/src/common.cpp: `split(s, string)` at a delimiter of one byte, which is how the
-- sources call it.

use wpp.Prelude.{
  Bytes, ℕ, zero, suc, ◌+◌, ◌<◌, true, false, some, List, [], ◌∷◌, ◌++◌, ◌≡◌, refl, sym, ap, ◌∙◌,
  arith, Lacks, append_assoc, append-nil, find_char, find_str, ◌==◌, leb, if◌then◌else◌, Bool-cases,
  inl, inr, drop, length, length-append, drop-length, take-length, substr, find_char-append, found,
  missing, find_char-cases,
}
use wpp.Text.{push_part, split_loop, split, split_str_loop, split_str}
use wpp.Text.Split.{split_loop-Lacks, split_loop_at_delim}

find_str-find_char : (d : ℕ) (s : Bytes) → find_str (d ∷ []) s ≡ find_char d s
unfolding find_str find_char
find_str-find_char d [] = refl
find_str-find_char d (c ∷ s) = elim (Bool-cases (c == d)) [
  | inl e ↦ ground (arith, find_str-find_char d s)
  | inr e ↦ ground (arith, find_str-find_char d s)
]

split_loop_rest :
    (d : ℕ) (r : Bytes) (elems : List Bytes)
    → Lacks d r
    → split_loop d r [] elems ≡ push_part r elems
unfolding split_loop
split_loop_rest d r elems h =
    ap (λ (s : Bytes). split_loop d s [] elems) (sym (append-nil r))
    ∙ split_loop-Lacks d r [] [] elems h

-- What the code adds behind the loop, and before each round.
last_part :
    (front r : Bytes) (elems : List Bytes)
    → elems
        ++ (if leb (length (front ++ r)) (length front)
            then []
            else drop (length front) (front ++ r) ∷ [])
      ≡ push_part r elems
last_part front [] elems =
    let e : leb (length (front ++ [])) (length front) ≡ true =
      ground (arith, length-append {0} front []) in
    rw (e, append-nil)
last_part front (c ∷ r) elems =
    let e : leb (length (front ++ c ∷ r)) (length front) ≡ false =
      ground (arith, length-append {0} front (c ∷ r)) in
    rw (e, drop-length front (c ∷ r))

push_guard :
    (n : ℕ) (p : Bytes) (elems : List Bytes)
    → (if n + length p == 0 then elems else push_part p elems) ≡ push_part p elems
push_guard n [] elems = ground arith
push_guard n (c ∷ p) elems = let e : (n + length (c ∷ p) == 0) ≡ false = ground arith in rw e

substr_front : (front p r : Bytes) → substr (front ++ (p ++ r)) (length front) (length p) ≡ p
substr_front front p r = rw (drop-length front (p ++ r)) (take-length p r)

module _ (fuel d : ℕ) (front p q : Bytes) (elems : List Bytes) where
  next_front : (front ++ p ++ d ∷ []) ++ q ≡ front ++ (p ++ d ∷ q)
  next_front = simp append_assoc

  next_length : length (front ++ p ++ d ∷ []) ≡ length front + length p + 1
  next_length = omega (arith, length-append {0} (front ++ p) (d ∷ []), length-append {0} front p)

  one_round :
      Lacks d p
      → split_str_loop (suc fuel) (front ++ (p ++ d ∷ q)) (d ∷ []) (length front) elems
        ≡ split_str_loop fuel
            ((front ++ p ++ d ∷ []) ++ q)
            (d ∷ [])
            (length (front ++ p ++ d ∷ []))
            (push_part p elems)
  unfolding split_str_loop
  one_round h =
      rw
        (
          split_str_loop,
          drop-length front (p ++ d ∷ q),
          find_str-find_char d (p ++ d ∷ q),
          find_char-append d p q h,
        )
        (λ i. split_str_loop fuel (sym next_front i) (d ∷ []) (sym next_length i) (
          (ap (λ (t : Bytes). if length front + length p == 0 then elems else push_part t elems)
                (substr_front front p (d ∷ q))
              ∙ push_guard (length front) p elems)
            i))

-- The loop at a text whose front is done.
loop_lem :
    (fuel d : ℕ) (front r : Bytes) (elems : List Bytes)
    → length r < fuel
    → split_str_loop fuel (front ++ r) (d ∷ []) (length front) elems
      ≡ some (split_loop d r [] elems)
loop_lem zero d front r elems h = absurd (omega arith)
loop_lem (suc fuel) d front r elems h = elim (find_char-cases d r) [
  | found i at f ↦
      let shorter : length f.back < fuel =
        omega (arith, ap length f.splits, length-append {0} f.front (d ∷ f.back)) in
      ap (λ (s : Bytes). split_str_loop (suc fuel) (front ++ s) (d ∷ []) (length front) elems)
        f.splits
      ∙ one_round fuel d front f.front f.back elems f.front_lacks
      ∙ loop_lem fuel d (front ++ f.front ++ d ∷ []) f.back (push_part f.front elems) shorter
      ∙ sym (
          ap (λ (s : Bytes). some (split_loop d s [] elems)) f.splits
          ∙ ap some (
              split_loop-Lacks d f.front (d ∷ f.back) [] elems f.front_lacks
              ∙ split_loop_at_delim d f.back f.front elems))
  | missing at lacks ↦
      unfold split_str_loop in
      rw (split_str_loop, drop-length front r, find_str-find_char d r, at)
        (ap some (last_part front r elems ∙ sym (split_loop_rest d r elems lacks)))
]

-- At a delimiter of one byte the loop of `split(s, string)` ends, and returns what `split(s, char)`
-- does: its test for a match at position 0 changes nothing.
pub split_str-split : (s : Bytes) (d : ℕ) → split_str s (d ∷ []) ≡ some (split s d)
unfolding split_str split
split_str-split s d = loop_lem (suc (length s)) d [] s [] (omega arith)
