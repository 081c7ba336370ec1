-- ===== src/Text/Split.antt =====
-- libraries/prio-http/src/common.cpp: what `split(s, char)` returns.
use mathlib.Core.List.{flatten}
use wpp.Prelude.{
  Bytes, ℕ, List, [], ◌∷◌, ◌++◌, ◌≡◌, ◌≢◌, refl, sym, ap, ◌∙◌, arith, append_assoc, append-nil, All,
  All-append, Lacks, ◌==◌, Bool-cases, if◌then◌else◌, inl, inr,
}
use wpp.Text.{push_part, split_loop, split}

-- A part that `split` may return: at least one byte, none of them the delimiter.
abbrev pub IsPart : ℕ → Bytes → Type 0
IsPart d p = (p ≢ []) × Lacks d p

-- The bytes of a text that are not the delimiter, in order.
pub without : ℕ → Bytes → Bytes
without d [] = []
without d (c ∷ s) = if c == d then without d s else c ∷ without d s

-- The parts with the delimiter between them.
unfoldable pub join : ℕ → List Bytes → Bytes
join d [] = []
join d (p ∷ []) = p
join d (p ∷ q ∷ ps) = p ++ d ∷ join d (q ∷ ps)

push_part-append :
    (item : Bytes) (elems more : List Bytes)
    → push_part item (elems ++ more) ≡ elems ++ push_part item more
push_part-append [] elems more = refl
push_part-append (c ∷ item) elems more = append_assoc elems more _

split_loop-append :
    (d : ℕ) (s item : Bytes) (elems more : List Bytes)
    → split_loop d s item (elems ++ more) ≡ elems ++ split_loop d s item more
unfolding split_loop
split_loop-append d [] item elems more = push_part-append item elems more
split_loop-append d (c ∷ s) item elems more = ground (
  arith,
  split_loop-append d s [] elems (push_part item more),
  split_loop-append d s (item ++ c ∷ []) elems more,
  push_part-append item elems more,
)

pub split_loop-Lacks :
    (d : ℕ) (p rest item : Bytes) (elems : List Bytes)
    → Lacks d p
    → split_loop d (p ++ rest) item elems ≡ split_loop d rest (item ++ p) elems
unfolding split_loop
split_loop-Lacks d [] rest item elems h = rw append-nil
split_loop-Lacks d (c ∷ p) rest item elems h =
    ground (arith, split_loop-Lacks d p rest (item ++ c ∷ []) elems, append_assoc item (c ∷ []) p)

pub split_loop_at_delim :
    (d : ℕ) (rest item : Bytes) (elems : List Bytes)
    → split_loop d (d ∷ rest) item elems ≡ split_loop d rest [] (push_part item elems)
unfolding split_loop
split_loop_at_delim d rest item elems = ground arith

push_part_ne : (p : Bytes) → p ≢ [] → push_part p [] ≡ p ∷ []
push_part_ne [] h = absurd (h refl)
push_part_ne (c ∷ p) h = refl

-- The first part of a text that begins with a part and the delimiter.
pub split-append :
    (d : ℕ) (p rest : Bytes) → IsPart d p → split (p ++ d ∷ rest) d ≡ p ∷ split rest d
unfolding split
split-append d p rest (ne, h) =
    split_loop-Lacks d p (d ∷ rest) [] [] h
    ∙ split_loop_at_delim d rest p []
    ∙ ap (split_loop d rest []) (push_part_ne p ne)
    ∙ split_loop-append d rest [] (p ∷ []) []

-- A text that is one part.
pub split_one : (d : ℕ) (p : Bytes) → IsPart d p → split p d ≡ p ∷ []
unfolding split split_loop
split_one d p (ne, h) =
    ap (λ (s : Bytes). split_loop d s [] []) (sym (append-nil p))
    ∙ split_loop-Lacks d p [] [] [] h
    ∙ push_part_ne p ne

-- Splitting a join gives the parts back, if each is a part: `split` drops the empty ones.
pub split-join : (d : ℕ) (ps : List Bytes) → All (IsPart d) ps → split (join d ps) d ≡ ps
unfolding join
split-join d [] h = unfold split split_loop in refl
split-join d (p ∷ []) h = split_one d p h.0
split-join d (p ∷ q ∷ ps) h = split-append d p _ h.0 ∙ ap (◌∷◌ p) (split-join d (q ∷ ps) h.1)

push_part-All :
    (d : ℕ) (item : Bytes) (elems : List Bytes)
    → Lacks d item
    → All (IsPart d) elems
    → All (IsPart d) (push_part item elems)
push_part-All d [] elems h k = k
push_part-All d (c ∷ item) elems h k = All-append _ elems _ k (((cc), h), tt)

split_loop-All :
    (d : ℕ) (s item : Bytes) (elems : List Bytes)
    → Lacks d item
    → All (IsPart d) elems
    → All (IsPart d) (split_loop d s item elems)
unfolding split_loop
split_loop-All d [] item elems h k = push_part-All d item elems h k
split_loop-All d (c ∷ s) item elems h k = elim (Bool-cases (c == d)) [
  | inl e ↦
      rw (e, All, split_loop)
        (split_loop-All d s [] (push_part item elems) tt (push_part-All d item elems h k))
  | inr e ↦
      let ne : c ≢ d = ground arith in
      rw (e, All, split_loop)
        (split_loop-All d s (item ++ c ∷ []) elems (All-append _ item _ h (ne, tt)) k)
]

flatten-push_part :
    (item : Bytes) (elems : List Bytes) → flatten (push_part item elems) ≡ flatten elems ++ item
unfolding flatten
flatten-push_part [] elems = sym (append-nil _)
flatten-push_part (c ∷ item) [] = append-nil (c ∷ item)
flatten-push_part (c ∷ item) (e ∷ elems) =
    ap (λ (r : Bytes). e ++ r) (flatten-push_part (c ∷ item) elems)
    ∙ sym (append_assoc e (flatten elems) (c ∷ item))

flatten-split_loop :
    (d : ℕ) (s item : Bytes) (elems : List Bytes)
    → flatten (split_loop d s item elems) ≡ flatten elems ++ item ++ without d s
unfolding split_loop without
flatten-split_loop d [] item elems = flatten-push_part item elems ∙ sym (append-nil _)
flatten-split_loop d (c ∷ s) item elems = elim (Bool-cases (c == d)) [
  | inl e ↦
      rw (e, split_loop)
        (flatten-split_loop d s [] (push_part item elems) ∙ rw (flatten-push_part, append-nil))
  | inr e ↦ rw (e, split_loop) (flatten-split_loop d s (item ++ c ∷ []) elems ∙ simp append_assoc)
]

-- Every part that `split` returns has a byte and lacks the delimiter, and the parts spell, in
-- order, all other bytes of the text.
pub split_parts :
    (d : ℕ) (s : Bytes) → All (IsPart d) (split s d) × (flatten (split s d) ≡ without d s)
unfolding split flatten
split_parts d s = (split_loop-All d s [] [] tt tt, flatten-split_loop d s [] [])
