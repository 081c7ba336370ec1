-- ===== src/Client/Sizes.antt =====
-- libraries/prio-http/src/client_conversation.cpp: the sizes of chunks, as a client reads what a server
-- prints.
use wpp.Prelude.{
  Bytes, ℕ, ◌+◌, ◌*◌, ◌^◌, ◌<◌, Bool, true, false, some, [], ◌∷◌, if◌then◌else◌, ◌==◌, ltb, ◌&&◌,
  Option-cases, Lacks, is_space, ◌≡◌, ◌≢◌, refl, ap, ◌∙◌, inl, inr, arith,
}
use wpp.Prelude.Hex.{hex_value, read_hex, print_hex, print_hex-cons, read_hex-print_hex_all}
use wpp.Prelude.Decimal.{skip_space, clamp_size}
use wpp.Client.{
  hex_digit_value, read_hex_digits, read_prefixed, read_hex_signed, scan_word, scan_hex, is_x,
}

digit_value : (c d : ℕ) → hex_value c ≡ some d → hex_digit_value c ≡ some d
unfolding hex_value hex_digit_value
digit_value c d h = ground arith

-- What a digit is not.
digit_plain :
    (c d : ℕ)
    → hex_value c ≡ some d
    → (is_space c ≡ false)
      × ((c == b'-') ≡ false)
      × ((c == b'+') ≡ false)
      × (is_x c ≡ false)
      × (c ≢ b'\r')
unfolding hex_value
digit_plain c d h = (ground arith, ground arith, ground arith, ground arith, ground arith)

-- A text that is read to its end starts with a digit.
first_digit :
    (n m c : ℕ) (s : Bytes)
    → read_hex n (c ∷ s) ≡ (m, [])
    → (d : ℕ) × (hex_value c ≡ some d) × (read_hex (n * 16 + d) s ≡ (m, []))
unfolding read_hex
first_digit n m c s h = elim (Option-cases (hex_value c)) [
  | inl e ↦ let clash : c ∷ s ≡ [] = ap (λ p. p.1) (rw (e, read_hex) at h) in absurd (cc)
  | inr (d, e) ↦ (d, e, rw (e, read_hex) at h)
]

digits_read : (n m : ℕ) (s : Bytes) → read_hex n s ≡ (m, []) → read_hex_digits n s ≡ m
unfolding read_hex_digits read_hex
digits_read n m [] h = ap (λ p. p.0) h
digits_read n m (c ∷ s) h =
    let (d, e, more) = first_digit n m c s h in
    rw (read_hex_digits, digit_value c d e) (digits_read (n * 16 + d) m s more)

pub digits-Lacks : (n m : ℕ) (s : Bytes) → read_hex n s ≡ (m, []) → Lacks b'\r' s
digits-Lacks n m [] h = tt
digits-Lacks n m (c ∷ s) h =
    let (d, e, more) = first_digit n m c s h in
    ((digit_plain c d e).4, digits-Lacks (n * 16 + d) m s more)

prefixed_read : (m : ℕ) (s : Bytes) → read_hex 0 s ≡ (m, []) → read_prefixed s ≡ m
unfolding read_prefixed
prefixed_read m [] h = digits_read 0 m [] h
prefixed_read m (c ∷ []) h = digits_read 0 m (c ∷ []) h
prefixed_read m (c ∷ c' ∷ s) h =
    let (d, e, more) = first_digit 0 m c (c' ∷ s) h in
    let (d', e', rest) = first_digit (0 * 16 + d) m c' s more in
    let plain : is_x c' ≡ false = (digit_plain c' d' e').3 in
    let none_such : (c == b'0' && is_x c') ≡ false =
      ap (λ (b : Bool). c == b'0' && b) plain ∙ and_false (c == b'0') in
    ap (λ (b : Bool). if b then read_hex_digits 0 s else read_hex_digits 0 (c ∷ c' ∷ s)) none_such
    ∙ digits_read 0 m (c ∷ c' ∷ s) h
  where
    and_false : (b : Bool) → (b && false) ≡ false
    and_false true = refl
    and_false false = refl

scanned : (m : ℕ) (s : Bytes) → s ≢ [] → m < 2 ^ 64 → read_hex 0 s ≡ (m, []) → scan_hex s ≡ some m
unfolding scan_hex scan_word skip_space read_hex_signed clamp_size read_hex
scanned m [] ne small h = absurd (ne refl)
scanned m (c ∷ s) ne small h =
    let (d, e, more) = first_digit 0 m c s h in
    let (space, minus, plus, x, r) = digit_plain c d e in
    let fits : ltb m (2 ^ 64) ≡ true = ground arith in
    rw
      (
        scan_hex,
        skip_space,
        space,
        scan_word,
        read_hex_signed,
        minus,
        plus,
        prefixed_read m (c ∷ s) h,
        fits,
      )
      refl

-- The size of a chunk comes back.
pub scan_hex-print_hex : (n : ℕ) → n < 2 ^ 64 → scan_hex (print_hex n) ≡ some n
scan_hex-print_hex n small =
    scanned n (print_hex n) (print_hex-cons n) small (read_hex-print_hex_all n)

pub print_hex-Lacks : (n : ℕ) → Lacks b'\r' (print_hex n)
print_hex-Lacks n = digits-Lacks 0 n (print_hex n) (read_hex-print_hex_all n)
