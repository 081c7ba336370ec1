-- ===== src/Prelude/Decimal.antt =====
-- Decimal numbers, as the streams and `atoi` of the C++ library print and read them. An `int` has 32
-- bits and a `size_t` 64.
use Prim.Native.Nat.{ℕ, zero, suc, ◌+◌, ◌-◌, ◌*◌, ◌/◌, ◌%◌, ◌^◌, ◌<◌, min}
use mathlib.Core.Path.{◌≡◌, refl, ◌∙◌, ap}
use mathlib.Core.Logic.{◌≢◌, inl, inr}
use mathlib.Core.Bool.{Bool, true, false}
use mathlib.Core.List.{[], ◌∷◌}
use mathlib.Core.Option.{Option, none, some}
use native.Mathlib.Omega.{arith}
use wpp.Prelude.Tests.{ltb, ◌==◌, if◌then◌else◌, Bool-cases}
use wpp.Prelude.Lists.{All}
use wpp.Prelude.ByteStrings.{Bytes, is_digit, is_space}

-- `negsuc n` is -(n + 1).
pub data ℤ : Type 0 where
  pos : ℕ → ℤ
  negsuc : ℕ → ℤ

-- The values of an `int`.
abbrev pub IsInt : ℤ → Type 0
IsInt (pos n) = n < 2 ^ 31
IsInt (negsuc n) = n < 2 ^ 31

-- Digits in front of `out`; a number below the fuel is printed whole.
print_loop : ℕ → ℕ → Bytes → Bytes
print_loop zero n out = out
print_loop (suc fuel) n out =
    let rest = print_loop fuel (n / 10) ((b'0' + n % 10) ∷ out) in
    if ltb n 10 then (b'0' + n) ∷ out else rest

-- `oss << n`.
unfoldable pub print_nat : ℕ → Bytes
unfolding print_loop
print_nat n = print_loop (suc n) n []

unfoldable pub print_int : ℤ → Bytes
unfolding print_nat
print_int (pos n) = print_nat n
print_int (negsuc n) = b'-' ∷ print_nat (suc n)

-- The number that the digits in front spell, behind `n`.
unfoldable pub read_digits : ℕ → Bytes → ℕ
read_digits n [] = n
read_digits n (c ∷ s) =
    let rest = read_digits (n * 10 + (c - b'0')) s in if is_digit c then rest else n

unfoldable pub skip_space : Bytes → Bytes
skip_space [] = []
skip_space (c ∷ s) = if is_space c then skip_space s else c ∷ s

-- A sign and a number; no digits read as 0.
unfoldable pub read_signed : Bytes → Bool × ℕ
unfolding read_digits
read_signed [] = (false, 0)
read_signed (c ∷ s) =
    if c == b'-'
    then (true, read_digits 0 s)
    else if c == b'+'
    then (false, read_digits 0 s)
    else (false, read_digits 0 (c ∷ s))

-- The nearest `int`.
unfoldable pub clamp_int : Bool × ℕ → ℤ
clamp_int (false, n) = pos (min n (2 ^ 31 - 1))
clamp_int (true, zero) = pos 0
clamp_int (true, suc n) = negsuc (min n (2 ^ 31 - 1))

-- `iss >> value` for an `int` that is 0 before: 0 if there is no number, the nearest `int` on
-- overflow.
unfoldable pub scan_int : Bytes → ℤ
unfolding skip_space read_signed clamp_int
scan_int s = clamp_int (read_signed (skip_space s))

-- The same for a `size_t`: a minus sign negates modulo 2 ^ 64, and overflow gives the greatest value.
unfoldable pub clamp_size : Bool × ℕ → ℕ
clamp_size (negative, n) =
    if ltb n (2 ^ 64) then (if negative then (2 ^ 64 - n) % 2 ^ 64 else n) else 2 ^ 64 - 1

unfoldable pub scan_size : Bytes → ℕ
unfolding skip_space read_signed clamp_size
scan_size s = clamp_size (read_signed (skip_space s))

-- The number as an `int`; `none` where it is none.
unfoldable pub to_int : Bool × ℕ → Option ℤ
to_int (false, n) = if ltb n (2 ^ 31) then some (pos n) else none
to_int (true, zero) = some (pos 0)
to_int (true, suc n) = if ltb n (2 ^ 31) then some (negsuc n) else none

-- `atoi`, whose behaviour is undefined (`none`) where the value is no `int`.
unfoldable pub atoi : Bytes → Option ℤ
unfolding skip_space read_signed to_int
atoi s = to_int (read_signed (skip_space s))

abbrev pub IsDigit : ℕ → Type 0
IsDigit c = is_digit c ≡ true

print_loop-digits :
    (fuel n : ℕ) (out : Bytes) → All IsDigit out → All IsDigit (print_loop fuel n out)
unfolding print_loop
print_loop-digits zero n out h = h
print_loop-digits (suc fuel) n out h = elim (Bool-cases (ltb n 10)) [
  | inl e ↦ rw (e, All) (ground arith, h)
  | inr e ↦ rw (e, All) (print_loop-digits fuel (n / 10) ((b'0' + n % 10) ∷ out) (ground arith, h))
]

print_loop-ne-nil : (fuel n : ℕ) (out : Bytes) → out ≢ [] → print_loop fuel n out ≢ []
unfolding print_loop
print_loop-ne-nil zero n out h = h
print_loop-ne-nil (suc fuel) n out h =
    ground (arith, print_loop-ne-nil fuel (n / 10) ((b'0' + n % 10) ∷ out) (λ e. cc e))

pub print_nat-cons : (n : ℕ) → print_nat n ≢ []
unfolding print_nat print_loop
print_nat-cons n = ground (arith, print_loop-ne-nil n (n / 10) ((b'0' + n % 10) ∷ []) (λ e. cc e))

read_digits_step :
    (n m : ℕ) (out : Bytes)
    → m < 10
    → read_digits n ((b'0' + m) ∷ out) ≡ read_digits (n * 10 + m) out
unfolding read_digits
read_digits_step n m out h =
    let e : is_digit (b'0' + m) ≡ true = ground arith in
    rw e (ap (λ (k : ℕ). read_digits k out) {y = n * 10 + m} (omega arith))

read_digits-print_loop :
    (fuel n : ℕ) (out : Bytes)
    → n < fuel
    → read_digits 0 (print_loop fuel n out) ≡ read_digits n out
unfolding print_loop
read_digits-print_loop zero n out h = elim h [ ]
read_digits-print_loop (suc fuel) n out h = elim (Bool-cases (ltb n 10)) [
  | inl e ↦ rw e (
      read_digits_step 0 n out (ground arith)
      ∙ ap (λ (k : ℕ). read_digits k out) {y = n} (omega arith))
  | inr e ↦ rw e (
      read_digits-print_loop fuel (n / 10) ((b'0' + n % 10) ∷ out) (ground arith)
      ∙ read_digits_step (n / 10) (n % 10) out (omega arith)
      ∙ ap (λ (k : ℕ). read_digits k out) {y = n} (omega arith))
]

pub read_digits-print_nat : (n : ℕ) → read_digits 0 (print_nat n) ≡ n
unfolding print_nat
read_digits-print_nat n =
    read_digits-print_loop (suc n) n [] (omega arith) ∙ unfold read_digits in refl

pub print_nat-IsDigit : (n : ℕ) → All IsDigit (print_nat n)
unfolding print_nat
print_nat-IsDigit n = print_loop-digits (suc n) n [] tt

-- Text that begins with a digit has no blank and no sign in front.
read_signed_digits :
    (s : Bytes) → All IsDigit s → s ≢ [] → read_signed (skip_space s) ≡ (false, read_digits 0 s)
unfolding read_signed skip_space
read_signed_digits [] h ne = absurd (ne refl)
read_signed_digits (c ∷ s) (hc, h) ne = ground arith

skip_space_digits : (s : Bytes) → All IsDigit s → s ≢ [] → skip_space s ≢ []
unfolding skip_space
skip_space_digits [] h ne = ne
skip_space_digits (c ∷ s) (hc, h) ne = ground arith

pub skip_space-print_nat : (n : ℕ) → skip_space (print_nat n) ≢ []
skip_space-print_nat n = skip_space_digits (print_nat n) (print_nat-IsDigit n) (print_nat-cons n)

pub read_signed-print_nat : (n : ℕ) → read_signed (skip_space (print_nat n)) ≡ (false, n)
read_signed-print_nat n =
    read_signed_digits (print_nat n) (print_nat-IsDigit n) (print_nat-cons n)
    ∙ rw (read_digits-print_nat n)

pub read_signed_minus : (s : Bytes) → read_signed (skip_space (b'-' ∷ s)) ≡ (true, read_digits 0 s)
unfolding read_signed skip_space
read_signed_minus s = refl

-- An `int` is read back from its decimal print.
pub scan_int-print_int : (z : ℤ) → IsInt z → scan_int (print_int z) ≡ z
unfolding scan_int print_int clamp_int
scan_int-print_int (pos n) h = rw (read_signed-print_nat n) (ap pos (omega arith))
scan_int-print_int (negsuc n) h =
    rw (read_signed_minus (print_nat (suc n)), read_digits-print_nat (suc n))
      (ap negsuc (omega arith))

pub atoi-print_int : (z : ℤ) → IsInt z → atoi (print_int z) ≡ some z
unfolding atoi print_int to_int
atoi-print_int (pos n) h = rw (read_signed-print_nat n) (ground arith)
atoi-print_int (negsuc n) h =
    rw (read_signed_minus (print_nat (suc n)), read_digits-print_nat (suc n)) (ground arith)

pub scan_size-print_nat : (n : ℕ) → n < 2 ^ 64 → scan_size (print_nat n) ≡ n
unfolding scan_size clamp_size
scan_size-print_nat n h = rw (read_signed-print_nat n) (ground arith)

digits-Lacks : (d : ℕ) (s : Bytes) → is_digit d ≡ false → All IsDigit s → All (λ c. c ≢ d) s
digits-Lacks d [] h k = tt
digits-Lacks d (c ∷ s) h (hc, k) = (ground arith, digits-Lacks d s h k)

-- A printed `int` holds digits and a minus sign only.
pub print_int-Lacks :
    (d : ℕ) (z : ℤ) → is_digit d ≡ false → b'-' ≢ d → All (λ c. c ≢ d) (print_int z)
unfolding print_int
print_int-Lacks d (pos n) h k = digits-Lacks d (print_nat n) h (print_nat-IsDigit n)
print_int-Lacks d (negsuc n) h k =
    (k, digits-Lacks d (print_nat (suc n)) h (print_nat-IsDigit (suc n)))
