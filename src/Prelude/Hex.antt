-- ===== src/Prelude/Hex.antt =====
-- Hexadecimal numbers, as a stream prints them behind `std::hex`.
use Prim.Native.Nat.{ℕ, zero, suc, ◌+◌, ◌-◌, ◌*◌, ◌/◌, ◌%◌, ◌<◌}
use mathlib.Core.Path.{◌≡◌, refl, ◌∙◌, ap}
use mathlib.Core.Logic.{◌≢◌, inl, inr}
use mathlib.Core.Bool.{◌&&◌}
use mathlib.Core.List.{[], ◌∷◌, ◌++◌}
use mathlib.Core.Option.{Option, none, some}
use native.Mathlib.Omega.{arith}
use wpp.Prelude.Tests.{ltb, leb, if◌then◌else◌, Bool-cases}
use wpp.Prelude.ByteStrings.{Bytes}

unfoldable pub hex_digit : ℕ → ℕ
hex_digit d = if ltb d 10 then b'0' + d else b'a' + (d - 10)

print_loop : ℕ → ℕ → Bytes → Bytes
unfolding hex_digit
print_loop zero n out = out
print_loop (suc fuel) n out =
    let rest = print_loop fuel (n / 16) (hex_digit (n % 16) ∷ out) in
    if ltb n 16 then hex_digit n ∷ out else rest

-- `oss << std::hex << n`.
unfoldable pub print_hex : ℕ → Bytes
unfolding print_loop
print_hex n = print_loop (suc n) n []

-- The value of a digit.
unfoldable pub hex_value : ℕ → Option ℕ
hex_value c =
    if leb b'0' c && leb c b'9'
    then some (c - b'0')
    else if leb b'a' c && leb c b'f'
    then some (c - b'a' + 10)
    else none

-- The number in front of a text, behind `n`, and what follows it.
unfoldable pub read_hex : ℕ → Bytes → ℕ × Bytes
unfolding hex_value
read_hex n [] = (n, [])
read_hex n (c ∷ s) = elim (hex_value c) [ some d ↦ read_hex (n * 16 + d) s | none ↦ (n, c ∷ s) ]

hex_value-hex_digit : (d : ℕ) → d < 16 → hex_value (hex_digit d) ≡ some d
unfolding hex_value hex_digit
hex_value-hex_digit d h = ground arith

read_hex_step :
    (n m : ℕ) (out : Bytes) → m < 16 → read_hex n (hex_digit m ∷ out) ≡ read_hex (n * 16 + m) out
unfolding read_hex
read_hex_step n m out h = rw (read_hex, hex_value-hex_digit m h) refl

read_hex-print_loop :
    (fuel n : ℕ) (out : Bytes) → n < fuel → read_hex 0 (print_loop fuel n out) ≡ read_hex n out
unfolding print_loop
read_hex-print_loop zero n out h = elim h [ ]
read_hex-print_loop (suc fuel) n out h = elim (Bool-cases (ltb n 16)) [
  | inl e ↦
      rw e (
        read_hex_step 0 n out (ground arith) ∙ ap (λ (k : ℕ). read_hex k out) {y = n} (omega arith))
  | inr e ↦ rw e (
      read_hex-print_loop fuel (n / 16) (hex_digit (n % 16) ∷ out) (ground arith)
      ∙ read_hex_step (n / 16) (n % 16) out (omega arith)
      ∙ ap (λ (k : ℕ). read_hex k out) {y = n} (omega arith))
]

print_loop-ne-nil : (fuel n : ℕ) (out : Bytes) → out ≢ [] → print_loop fuel n out ≢ []
unfolding print_loop
print_loop-ne-nil zero n out h = h
print_loop-ne-nil (suc fuel) n out h =
    ground (arith, print_loop-ne-nil fuel (n / 16) (hex_digit (n % 16) ∷ out) (λ e. cc e))

pub print_hex-cons : (n : ℕ) → print_hex n ≢ []
unfolding print_hex print_loop
print_hex-cons n =
    ground (arith, print_loop-ne-nil n (n / 16) (hex_digit (n % 16) ∷ []) (λ e. cc e))

print_loop-append :
    (fuel n : ℕ) (out r : Bytes) → print_loop fuel n out ++ r ≡ print_loop fuel n (out ++ r)
unfolding print_loop
print_loop-append zero n out r = refl
print_loop-append (suc fuel) n out r = elim (Bool-cases (ltb n 16)) [
  | inl e ↦ rw e refl
  | inr e ↦ rw e (print_loop-append fuel (n / 16) (hex_digit (n % 16) ∷ out) r)
]

-- The digits of a number in front of a byte that is none.
pub read_hex-print_hex :
    (n c : ℕ) (rest : Bytes)
    → hex_value c ≡ none
    → read_hex 0 (print_hex n ++ c ∷ rest) ≡ (n, c ∷ rest)
unfolding print_hex read_hex
read_hex-print_hex n c rest h =
    ap (read_hex 0) (print_loop-append (suc n) n [] (c ∷ rest))
    ∙ read_hex-print_loop (suc n) n (c ∷ rest) (omega arith)
    ∙ rw (read_hex, h) refl

-- All of the digits.
pub read_hex-print_hex_all : (n : ℕ) → read_hex 0 (print_hex n) ≡ (n, [])
unfolding print_hex read_hex
read_hex-print_hex_all n = read_hex-print_loop (suc n) n [] (omega arith)
