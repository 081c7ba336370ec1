-- ===== src/Text/Trim.antt =====
-- libraries/prio/src/common.cpp: what `trim` returns.
use wpp.Prelude.{
  Bytes, ℕ, suc, [], ◌∷◌, ◌++◌, ◌≡◌, refl, sym, ap, ◌∙◌, arith, append-nil, All, All-append,
  Bool-cases, inl, inr, Bool, true, false, not, find_first, find_last, none, some, take, ◌⊎◌,
  length, substr, take-length,
}
use mathlib.Core.Path.{subst}
use wpp.Text.{is_blank, trim, trim_between}

abbrev pub IsBlank : ℕ → Type 0
IsBlank c = is_blank c ≡ true

-- The first byte, if there is one, is not blank.
abbrev pub StartsClear : Bytes → Type 0
StartsClear [] = Unit
StartsClear (c ∷ s) = is_blank c ≡ false

-- The last byte, if there is one, is not blank.
abbrev pub EndsClear : Bytes → Type 0
EndsClear [] = Unit
EndsClear (c ∷ []) = is_blank c ≡ false
EndsClear (c ∷ d ∷ s) = EndsClear (d ∷ s)

-- `t` is `s` without its blank ends.
pub record IsTrimmed (s t : Bytes) : Type 0 where
  pub before : Bytes
  pub after : Bytes
  pub splits : s ≡ before ++ t ++ after
  pub before_blank : All IsBlank before
  pub after_blank : All IsBlank after
  pub starts : StartsClear t
  pub ends : EndsClear t

abbrev clear : ℕ → Bool
clear c = not (is_blank c)

find_last_blank : (s : Bytes) → All IsBlank s → find_last clear s ≡ none
unfolding find_last
find_last_blank [] h = refl
find_last_blank (c ∷ s) (b, h) = rw (find_last_blank s h, b)

find_first_blank : (s : Bytes) → All IsBlank s → find_first clear s ≡ none
unfolding find_first
find_first_blank [] h = refl
find_first_blank (c ∷ s) (b, h) = rw (b, find_first_blank s h)

find_last-append :
    (t post : Bytes) → All IsBlank post → find_last clear (t ++ post) ≡ find_last clear t
unfolding find_last
find_last-append [] post h = find_last_blank post h
find_last-append (c ∷ t) post h = rw (find_last-append t post h)

find_last-EndsClear :
    (c : ℕ) (t : Bytes) → EndsClear (c ∷ t) → find_last clear (c ∷ t) ≡ some (length t)
unfolding find_last
find_last-EndsClear c [] h = rw h
find_last-EndsClear c (d ∷ t) h = rw (find_last-EndsClear d t h)

trim_blank : (s : Bytes) → All IsBlank s → trim s ≡ []
unfolding trim
trim_blank s h = rw (trim, find_first_blank s h)

-- Where there is a byte that is not blank, both searches find one.
find_both :
    (s : Bytes)
    → All IsBlank s ⊎ ((i e : ℕ) × (find_first clear s ≡ some i) × (find_last clear s ≡ some e))
unfolding find_first find_last
find_both [] = inl tt
find_both (c ∷ s) = elim (find_both s) [
  | inl blank ↦ elim (Bool-cases (is_blank c)) [
    | inl b ↦ inl (b, blank)
    | inr b ↦ inr (0, 0, rw b, rw (find_last_blank s blank, b))
  ]
  | inr (i, e, first, last) ↦ elim (Bool-cases (is_blank c)) [
    | inl b ↦ inr (suc i, suc e, rw (b, first), rw last)
    | inr b ↦ inr (0, suc e, rw b, rw last)
  ]
]

-- A blank in front is dropped.
pub trim-cons_blank : (c : ℕ) (s : Bytes) → IsBlank c → trim (c ∷ s) ≡ trim s
unfolding trim
trim-cons_blank c s h = elim (find_both s) [
  | inl blank ↦ trim_blank (c ∷ s) (h, blank) ∙ sym (trim_blank s blank)
  | inr (i, e, first, last) ↦
      unfold find_first find_last trim_between in
      rw (trim, h, first, last) (ap (λ (n : ℕ). substr s i n) (omega arith))
]

-- The cut at both ends, at a first byte that is kept.
trim-append :
    (c : ℕ) (t post : Bytes)
    → is_blank c ≡ false
    → EndsClear (c ∷ t)
    → All IsBlank post
    → trim ((c ∷ t) ++ post) ≡ c ∷ t
unfolding trim find_first
trim-append c t post start end h =
    rw (trim, find_last-append (c ∷ t) post h, find_last-EndsClear c t end, start)
      (ap (λ (n : ℕ). take n ((c ∷ t) ++ post)) {y = length (c ∷ t)} (omega arith)
        ∙ take-length (c ∷ t) post)

-- A text with blank ends and the text between them, which is what `trim` returns.
pub trim_unique :
    (before t after : Bytes)
    → All IsBlank before
    → All IsBlank after
    → StartsClear t
    → EndsClear t
    → trim (before ++ t ++ after) ≡ t
trim_unique [] [] after hb ha start end = trim_blank after ha
trim_unique [] (c ∷ t) after hb ha start end = trim-append c t after start end ha
trim_unique (b ∷ before) t after (h, hb) ha start end =
    trim-cons_blank b _ h ∙ trim_unique before t after hb ha start end

EndsClear-append :
    (c : ℕ) (xs : Bytes) (d : ℕ) (t : Bytes) → EndsClear (d ∷ t) → EndsClear (c ∷ (xs ++ d ∷ t))
EndsClear-append c [] d t h = h
EndsClear-append c (x ∷ xs) d t h = EndsClear-append x xs d t h

-- A text that begins with a byte that is not blank.
extend_clear :
    (c : ℕ) (before t after : Bytes)
    → is_blank c ≡ false
    → All IsBlank before
    → All IsBlank after
    → EndsClear t
    → (u : Bytes) × IsTrimmed (c ∷ (before ++ t ++ after)) u
extend_clear c before [] after h hb ha end = (
  c ∷ [],
  record {
    before = [];
    after = before ++ after;
    splits = simp append-nil;
    before_blank = tt;
    after_blank = All-append _ before after hb ha;
    starts = h;
    ends = h;
  },
)
extend_clear c before (d ∷ t) after h hb ha end = (
  c ∷ (before ++ d ∷ t),
  record {
    before = [];
    after = after;
    splits = refl;
    before_blank = tt;
    after_blank = ha;
    starts = h;
    ends = EndsClear-append c before d t end;
  },
)

extend : (c : ℕ) (s t : Bytes) → IsTrimmed s t → (u : Bytes) × IsTrimmed (c ∷ s) u
extend c s t r = elim (Bool-cases (is_blank c)) [
  | inl b ↦ (
    t,
    record {
      before = c ∷ r.before;
      after = r.after;
      splits = ap (◌∷◌ c) r.splits;
      before_blank = (b, r.before_blank);
      after_blank = r.after_blank;
      starts = r.starts;
      ends = r.ends;
    },
  )
  | inr b ↦
      subst (λ (s : Bytes). (u : Bytes) × IsTrimmed (c ∷ s) u) (sym r.splits)
        (extend_clear c r.before t r.after b r.before_blank r.after_blank r.ends)
]

-- Every text is a trimmed text between blanks.
find-IsTrimmed : (s : Bytes) → (t : Bytes) × IsTrimmed s t
find-IsTrimmed [] = (
  [],
  record {
    before = [];
    after = [];
    splits = refl;
    before_blank = tt;
    after_blank = tt;
    starts = tt;
    ends = tt;
  },
)
find-IsTrimmed (c ∷ s) = let (t, r) = find-IsTrimmed s in extend c s t r

-- `trim` returns its argument without the blanks at both ends, and nothing else is cut.
pub trim-IsTrimmed : (s : Bytes) → IsTrimmed s (trim s)
trim-IsTrimmed s =
    let (t, r) = find-IsTrimmed s in
    let e : trim s ≡ t =
      ap trim r.splits
      ∙ trim_unique r.before t r.after r.before_blank r.after_blank r.starts r.ends in
    subst (IsTrimmed s) (sym e) r
