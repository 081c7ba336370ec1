-- ===== src/Prelude/Long.antt =====
-- The numbers of a `long`, which has 64 bits, as streams read them, and as a `size_t`.
use Prim.Native.Nat.{ℕ, zero, suc, ◌-◌, ◌^◌, ◌<◌, min}
use mathlib.Core.Path.{◌≡◌, refl, ap}
use mathlib.Core.Bool.{Bool, true, false}
use native.Mathlib.Omega.{arith}
use mathlib.Core.Option.{Option, none, some}
use wpp.Prelude.Tests.{if◌then◌else◌}
use wpp.Prelude.Lists.{is_empty, is_empty_ne}
use wpp.Prelude.ByteStrings.{Bytes}
use wpp.Prelude.Decimal.{
  ℤ, pos, negsuc, print_nat, print_int, read_signed, skip_space, read_signed-print_nat, read_digits,
  skip_space-print_nat,
}

-- The nearest `long`.
unfoldable pub clamp_long : Bool × ℕ → ℤ
clamp_long (false, n) = pos (min n (2 ^ 63 - 1))
clamp_long (true, zero) = pos 0
clamp_long (true, suc n) = negsuc (min n (2 ^ 63 - 1))

-- `iss >> value` for a `long`: 0 if there is no number, the nearest `long` on overflow.
unfoldable pub scan_long : Bytes → ℤ
unfolding skip_space read_signed clamp_long
scan_long s = clamp_long (read_signed (skip_space s))

-- `long value; iss >> value`, where a text that is blank leaves `value` unset (`none`).
unfoldable pub read_long : Bytes → Option ℤ
unfolding scan_long
read_long s = if is_empty (skip_space s) then none else some (scan_long s)

-- A `long` as a `size_t`: a negative one wraps modulo 2 ^ 64.
abbrev pub to_size : ℤ → ℕ
to_size (pos n) = n
to_size (negsuc n) = 2 ^ 64 - 1 - n

pub scan_long-print_nat : (n : ℕ) → n < 2 ^ 63 → scan_long (print_nat n) ≡ pos n
unfolding scan_long clamp_long
scan_long-print_nat n h = rw (read_signed-print_nat n) (ap pos (omega arith))

pub scan_long_minus_one : scan_long (print_int (negsuc 0)) ≡ negsuc 0
unfolding scan_long clamp_long print_int print_nat read_signed skip_space read_digits
scan_long_minus_one = refl

pub read_long-print_nat : (n : ℕ) → n < 2 ^ 63 → read_long (print_nat n) ≡ some (pos n)
unfolding read_long
read_long-print_nat n h =
    rw (is_empty_ne (skip_space (print_nat n)) (skip_space-print_nat n), scan_long-print_nat n h)
      refl

pub read_long_minus_one : read_long (print_int (negsuc 0)) ≡ some (negsuc 0)
unfolding read_long scan_long clamp_long print_int print_nat read_signed skip_space read_digits
read_long_minus_one = refl
