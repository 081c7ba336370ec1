-- ===== src/Base64.antt =====
-- libraries/prio/src/common.cpp: `base64_encode` and `base64_decode`. A byte is a number below 256,
-- and each store into an `unsigned char` keeps the low eight bits.
pub mod RoundTrip
use Prim.Native.Nat.{bit_and}
use wpp.Prelude.{
  Bytes, ℕ, ◌+◌, ◌*◌, ◌/◌, ◌%◌, ◌^◌, Bool, true, false, not, ◌&&◌, ◌||◌, none, some, [], ◌∷◌, ◌++◌,
  ◌==◌, codes, get_or, find_char, is_alnum,
}

pub base64_chars : Bytes
base64_chars = codes "ABCDEFGHIJKLMNOPQRSTUVWXYZabcdefghijklmnopqrstuvwxyz0123456789+/"

unfoldable pub is_base64 : ℕ → Bool
is_base64 c = is_alnum c || c == b'+' || c == b'/'

abbrev pub u8 : ℕ → ℕ
u8 x = x % 256

-- `base64_chars[i]`.
pub symbol : ℕ → ℕ
unfolding base64_chars
symbol i = get_or base64_chars i 0

-- The four values `char_array_4` of three bytes.
pub sextet0 : ℕ → ℕ
sextet0 a = u8 (bit_and a 0xfc / 2 ^ 2)

pub sextet1 : ℕ → ℕ → ℕ
sextet1 a b = u8 (bit_and a 0x03 * 2 ^ 4 + bit_and b 0xf0 / 2 ^ 4)

pub sextet2 : ℕ → ℕ → ℕ
sextet2 b c = u8 (bit_and b 0x0f * 2 ^ 2 + bit_and c 0xc0 / 2 ^ 6)

pub sextet3 : ℕ → ℕ
sextet3 c = u8 (bit_and c 0x3f)

-- One clause for a full `char_array_3`, and one for each number of bytes that the loop leaves over,
-- which are padded by `\0` and then by `=`.
unfoldable pub base64_encode : Bytes → Bytes
unfolding symbol sextet0 sextet1 sextet2 sextet3
base64_encode [] = []
base64_encode (a ∷ []) = symbol (sextet0 a) ∷ symbol (sextet1 a 0) ∷ b'=' ∷ b'=' ∷ []
base64_encode (a ∷ b ∷ []) =
    symbol (sextet0 a) ∷ symbol (sextet1 a b) ∷ symbol (sextet2 b 0) ∷ b'=' ∷ []
base64_encode (a ∷ b ∷ c ∷ s) =
    symbol (sextet0 a)
    ∷ symbol (sextet1 a b)
    ∷ symbol (sextet2 b c)
    ∷ symbol (sextet3 c)
    ∷ base64_encode s

-- `(unsigned char) base64_chars.find(c)`: `npos` becomes 255.
pub value : ℕ → ℕ
unfolding find_char base64_chars
value c = elim (find_char c base64_chars) [ some i ↦ u8 i | none ↦ 255 ]

-- The three bytes `char_array_3` of four values.
pub octet0 : ℕ → ℕ → ℕ
octet0 w x = u8 (w * 2 ^ 2 + bit_and x 0x30 / 2 ^ 4)

pub octet1 : ℕ → ℕ → ℕ
octet1 x y = u8 (bit_and x 0xf * 2 ^ 4 + bit_and y 0x3c / 2 ^ 2)

pub octet2 : ℕ → ℕ → ℕ
octet2 y z = u8 (bit_and y 0x3 * 2 ^ 6 + z)

-- The block behind the loop, at the `i` characters in `char_array_4`: `i - 1` bytes.
pub decode_tail : Bytes → Bytes
unfolding value octet0 octet1
decode_tail (w ∷ x ∷ []) = octet0 (value w) (value x) ∷ []
decode_tail (w ∷ x ∷ y ∷ []) = octet0 (value w) (value x) ∷ octet1 (value x) (value y) ∷ []
decode_tail _ = []

-- The test of the loop at a character.
pub accepts : ℕ → Bool
unfolding is_base64
accepts c = not (c == b'=') && is_base64 c

-- The loop; the second argument is `char_array_4` up to `i`.
pub decode_loop : Bytes → Bytes → Bytes
unfolding accepts decode_tail value octet0 octet1 octet2
decode_loop [] group = decode_tail group
decode_loop (z ∷ s) (w ∷ x ∷ y ∷ group) = elim (accepts z) [
  | true ↦
      octet0 (value w) (value x)
      ∷ octet1 (value x) (value y)
      ∷ octet2 (value y) (value z)
      ∷ decode_loop s []
  | false ↦ decode_tail (w ∷ x ∷ y ∷ group)
]
decode_loop (c ∷ s) group = elim (accepts c) [
  | true ↦ decode_loop s (group ++ c ∷ [])
  | false ↦ decode_tail group
]

unfoldable pub base64_decode : Bytes → Bytes
unfolding decode_loop
base64_decode encoded_string = decode_loop encoded_string []
