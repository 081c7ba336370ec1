-- ===== src/UrlEncode/Alphabet.antt =====
-- libraries/prio-http/src/urlencode.cpp: the characters that `encode` writes.

use wpp.Prelude.{
  Bytes, ℕ, ◌/◌, ◌%◌, ◌<◌, ◌≢◌, true, ◌||◌, All-append, [], ◌∷◌, ◌≡◌, refl, arith, All, IsByte,
  ◌==◌, is_alnum, Bool-cases, inl, inr,
}
use wpp.UrlEncode.{c2x, encode_char, encode}
use wpp.UrlEncode.RoundTrip.{is_plus}

-- A letter, a digit, `+` or `%`.
abbrev pub IsUnreserved : ℕ → Type 0
IsUnreserved c = (is_alnum c || c == b'+' || c == b'%') ≡ true

c2x-is_alnum : (x : ℕ) → x < 16 → IsUnreserved (c2x x)
unfolding c2x
c2x-is_alnum x h = ground arith

encode_char-IsUnreserved : (c : ℕ) → c < 256 → All IsUnreserved (encode_char c)
unfolding encode_char
encode_char-IsUnreserved c h = elim (Bool-cases (is_alnum c)) [
  | inl e ↦ rw e (rw e, tt)
  | inr e ↦ elim (Bool-cases (is_plus c)) [
    | inl b ↦ rw (e, b) (refl, tt)
    | inr b ↦
        rw (e, b)
          (refl, (c2x-is_alnum (c / 16) (omega arith), (c2x-is_alnum (c % 16) (omega arith), tt)))
  ]
]

-- Encoded text is made of letters, digits, `+` and `%`.
pub encode-IsUnreserved : (s : Bytes) → All IsByte s → All IsUnreserved (encode s)
unfolding encode
encode-IsUnreserved [] h = tt
encode-IsUnreserved (c ∷ s) (hc, h) = elim (Bool-cases (c == 0)) [
  | inl e ↦ rw (e, All) tt
  | inr e ↦
      rw (e, All)
        (All-append IsUnreserved (encode_char c) (encode s) (encode_char-IsUnreserved c hc)
          (encode-IsUnreserved s h))
]

pub encode-ne-nil : (c : ℕ) (s : Bytes) → c ≢ 0 → encode (c ∷ s) ≢ []
unfolding encode encode_char
encode-ne-nil c s h = ground arith
