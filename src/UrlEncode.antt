-- ===== src/UrlEncode.antt =====
-- libraries/prio-http/src/urlencode.cpp: `Urlencode::encode` and `Urlencode::decode`. Both walk a
-- C string up to its NUL; `isalnum` and `isspace` are those of the C locale.
pub mod RoundTrip
pub mod Bounds
pub mod Alphabet
use Prim.Native.Nat.{bit_and}
use mathlib.Core.Option
use wpp.Prelude.{
  Bytes, ℕ, true, false, ◌+◌, ◌-◌, ◌*◌, ◌/◌, ◌%◌, ◌^◌, ◌&&◌, not, Option, none, some, [], ◌∷◌, ◌++◌,
  ltb, leb, ◌==◌, if◌then◌else◌, is_alnum, is_space,
}

pub c2x : ℕ → ℕ
c2x x = if ltb 9 x then x + 55 else x + 48

-- One hex digit, stored in a `char`: modulo 256.
pub hex_digit : ℕ → ℕ
hex_digit c =
    if leb b'A' c then (bit_and c 0xdf + 256 - b'A' + 10) % 256 else (c + 256 - b'0') % 256

pub x2c : ℕ → ℕ → ℕ
unfolding hex_digit
x2c hi lo = (hex_digit hi * 16 + hex_digit lo) % 256

-- The bytes that one round of `encode` writes.
pub encode_char : ℕ → Bytes
unfolding c2x
encode_char c =
    if is_alnum c
    then c ∷ []
    else if is_space c && not (c == b'\n') && not (c == b'\r')
    then b'+' ∷ []
    else b'%' ∷ c2x (c / 2 ^ 4) ∷ c2x (c % 16) ∷ []

unfoldable pub encode : Bytes → Bytes
unfolding encode_char
encode [] = []
encode (c ∷ s) = if c == 0 then [] else encode_char c ++ encode s

-- The loop of `decode` over the memory from `inBuff` to the end of the buffer, which holds the
-- terminating NUL. `none` is a read behind the buffer.
pub decode_loop : Bytes → Option Bytes
unfolding x2c
decode_loop [] = none
decode_loop (c ∷ []) = if c == 0 then some [] else none
decode_loop (c ∷ hi ∷ []) =
    if c == 0
    then some []
    else if c == b'%'
    then none
    else Option.map (λ out. (if c == b'+' then 32 else c) ∷ out) (decode_loop (hi ∷ []))
decode_loop (c ∷ hi ∷ lo ∷ s) = elim (c == 0) [
  | true ↦ some []
  | false ↦ elim (c == b'%') [
    | true ↦ Option.map (λ out. x2c hi lo ∷ out) (decode_loop s)
    | false ↦ Option.map (λ out. (if c == b'+' then 32 else c) ∷ out) (decode_loop (hi ∷ lo ∷ s))
  ]
]

unfoldable pub decode : Bytes → Option Bytes
unfolding decode_loop
decode s = decode_loop (s ++ 0 ∷ [])
