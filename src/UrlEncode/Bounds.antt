-- ===== src/UrlEncode/Bounds.antt =====
-- libraries/prio-http/src/urlencode.cpp: when `decode` stays inside its buffer, and when it does not.
use mathlib.Core.Option
use wpp.Prelude.{
  Bytes, ℕ, suc, ◌+◌, ◌≤◌, ◌≢◌, true, none, some, [], ◌∷◌, ◌++◌, ◌≡◌, refl, ap, ◌∙◌, arith,
  append_assoc, All, ◌==◌, if◌then◌else◌, length, ◌⊎◌, Bool-cases, inl, inr,
}
use wpp.UrlEncode.{x2c, decode_loop, decode}
use wpp.UrlEncode.RoundTrip.{decode_loop_plain, decode_loop_hex}

-- `decode_loop` gives a result, of at most `n` bytes.
abbrev DecodesWithin : ℕ → Bytes → Type 0
DecodesWithin n buffer = (out : Bytes) × (decode_loop buffer ≡ some out) × (length out ≤ n)

within_cons :
    (n x : ℕ) (buffer rest : Bytes)
    → decode_loop buffer ≡ Option.map (λ out. x ∷ out) (decode_loop rest)
    → DecodesWithin n rest
    → DecodesWithin (suc n) buffer
within_cons n x buffer rest e (out, r, h) =
    (x ∷ out, e ∙ ap (Option.map (λ out. x ∷ out)) r, omega arith)

within_step :
    (c d : ℕ) (s : Bytes) (n : ℕ)
    → c ≢ b'%'
    → DecodesWithin n (d ∷ s)
    → DecodesWithin (suc n) (c ∷ d ∷ s)
within_step c d s n h r = elim (Bool-cases (c == 0)) [
  | inl e ↦ ([], decode_loop_nul c d s e, omega arith)
  | inr e ↦
      within_cons n (if c == b'+' then 32 else c) _ (d ∷ s)
        (decode_loop_plain c d s (ground arith) h) r
]
  where
    decode_loop_nul : (c d : ℕ) (s : Bytes) → (c == 0) ≡ true → decode_loop (c ∷ d ∷ s) ≡ some []
    decode_loop_nul c d [] e = unfold decode_loop in rw e
    decode_loop_nul c d (x ∷ s) e = unfold decode_loop in rw (e, decode_loop)

within_hex :
    (c hi lo : ℕ) (s : Bytes) (n : ℕ)
    → c ≡ b'%'
    → DecodesWithin n s
    → DecodesWithin (suc n) (c ∷ hi ∷ lo ∷ s)
within_hex c hi lo s n e r =
    within_cons n (x2c hi lo) _ s
      (ap (λ (x : ℕ). decode_loop (x ∷ hi ∷ lo ∷ s)) e ∙ decode_loop_hex hi lo s) r

within_le : (n m : ℕ) (s : Bytes) → n ≤ m → DecodesWithin n s → DecodesWithin m s
within_le n m s h (out, e, k) = (out, e, omega arith)

within_end : (b : ℕ) → b ≢ b'%' → DecodesWithin 1 (b ∷ 0 ∷ [])
within_end b h = within_step b 0 [] 0 h ([], unfold decode_loop in refl, omega arith)

-- Split a byte by whether it begins an escape.
percent-cases : (c : ℕ) → (c ≡ b'%') ⊎ (c ≢ b'%')
percent-cases c = elim (Bool-cases (c == b'%')) [
  | inl e ↦ inl (ground arith)
  | inr e ↦ inr (ground arith)
]

within_text :
    (p : Bytes) (a b : ℕ) → a ≢ b'%' → b ≢ b'%' → DecodesWithin (length p + 2) (p ++ a ∷ b ∷ 0 ∷ [])
within_text [] a b h k = within_le 2 _ _ (omega arith) (within_step a b _ 1 h (within_end b k))
within_text (x ∷ []) a b h k = elim (percent-cases x) [
  | inl e ↦
      within_le 1 _ _ (omega arith)
        (within_hex x a b _ 0 e ([], unfold decode_loop in refl, omega arith))
  | inr e ↦
      within_le 3 _ _ (omega arith) (within_step x a _ 2 e (within_step a b _ 1 h (within_end b k)))
]
within_text (x ∷ y ∷ []) a b h k = elim (percent-cases x) [
  | inl e ↦ within_le 2 _ _ (omega arith) (within_hex x y a _ 1 e (within_end b k))
  | inr e ↦ within_step x y _ _ e (within_text (y ∷ []) a b h k)
]
within_text (x ∷ y ∷ z ∷ p) a b h k = elim (percent-cases x) [
  | inl e ↦
      within_le (suc (length p + 2)) _ _ (omega arith)
        (within_hex x y z _ _ e (within_text p a b h k))
  | inr e ↦
      within_le (suc (length (y ∷ z ∷ p) + 2)) _ _ (omega arith)
        (within_step x y _ _ e (within_text (y ∷ z ∷ p) a b h k))
]

-- A text whose last two bytes are no `%` is decoded inside its buffer, to at most as many bytes.
pub decode_within :
    (p : Bytes) (a b : ℕ)
    → a ≢ b'%'
    → b ≢ b'%'
    → (out : Bytes) × (decode (p ++ a ∷ b ∷ []) ≡ some out) × (length out ≤ length p + 2)
unfolding decode
decode_within p a b h k = rw append_assoc (within_text p a b h k)

decode_loop-none :
    (c : ℕ) (r : Bytes) → c ≢ 0 → c ≢ b'%' → decode_loop r ≡ none → decode_loop (c ∷ r) ≡ none
decode_loop-none c [] h k e = unfold decode_loop in ground arith
decode_loop-none c (d ∷ r) h k e = decode_loop_plain c d r h k ∙ rw e

decode_loop-append_none :
    (p r : Bytes)
    → All (λ c. (c ≢ 0) × (c ≢ b'%')) p
    → decode_loop r ≡ none
    → decode_loop (p ++ r) ≡ none
decode_loop-append_none [] r h e = e
decode_loop-append_none (c ∷ p) r (hc, h) e =
    decode_loop-none c (p ++ r) hc.0 hc.1 (decode_loop-append_none p r h e)

-- An escape that is cut short at the end of the text, after one digit or none, makes `decode` read
-- behind the terminating NUL.
pub decode_overrun :
    (p : Bytes) (digit : ℕ)
    → All (λ c. (c ≢ 0) × (c ≢ b'%')) p
    → (decode (p ++ b'%' ∷ []) ≡ none) × (decode (p ++ b'%' ∷ digit ∷ []) ≡ none)
unfolding decode
decode_overrun p digit h = (
  rw append_assoc (decode_loop-append_none p _ h (unfold decode_loop in refl)),
  rw append_assoc (decode_loop-append_none p _ h (unfold decode_loop in refl)),
)
