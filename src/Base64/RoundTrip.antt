-- ===== src/Base64/RoundTrip.antt =====
-- libraries/prio/src/common.cpp: `base64_decode` on what `base64_encode` writes.
use Prim.Native.Nat.{bit_and}
use wpp.Prelude.{
  Bytes, ℕ, ◌+◌, ◌*◌, ◌/◌, ◌%◌, ◌<◌, true, ◌&&◌, [], ◌∷◌, ◌≡◌, refl, ap, ◌∙◌, ◌==◌, arith, All,
  IsByte, all_below, all_below_sound, length,
}
use wpp.Base64.{
  symbol, sextet0, sextet1, sextet2, sextet3, base64_encode, value, octet0, octet1, octet2, accepts,
  decode_loop, base64_decode,
}

-- The values of the masks and shifts, for every byte.
mask_table :
    all_below 256 (λ x.
      (bit_and x 0xfc / 4 == x / 4)
      && (bit_and x 0x03 == x % 4)
      && (bit_and x 0xf0 / 16 == x / 16)
      && (bit_and x 0x0f == x % 16)
      && (bit_and x 0xc0 / 64 == x / 64)
      && (bit_and x 0x3f == x % 64)
      && (bit_and x 0x30 / 16 == x / 16 % 4)
      && (bit_and x 0x3c / 4 == x / 4 % 16))
    ≡ true
unfolding all_below
mask_table = refl

masks :
    (x : ℕ)
    → x < 256
    → (bit_and x 0xfc / 4 ≡ x / 4)
      × (bit_and x 0x03 ≡ x % 4)
      × (bit_and x 0xf0 / 16 ≡ x / 16)
      × (bit_and x 0x0f ≡ x % 16)
      × (bit_and x 0xc0 / 64 ≡ x / 64)
      × (bit_and x 0x3f ≡ x % 64)
      × (bit_and x 0x30 / 16 ≡ x / 16 % 4)
      × (bit_and x 0x3c / 4 ≡ x / 4 % 16)
masks x h = ground (arith, all_below_sound 256 _ x mask_table h)

symbol_table : all_below 64 (λ i. (value (symbol i) == i) && accepts (symbol i)) ≡ true
unfolding all_below value symbol accepts
symbol_table = refl

symbol_lem : (i : ℕ) → i < 64 → (value (symbol i) ≡ i) × (accepts (symbol i) ≡ true)
symbol_lem i h = ground (arith, all_below_sound 64 _ i symbol_table h)

sextet0_lem : (a : ℕ) → a < 256 → sextet0 a ≡ a / 4
unfolding sextet0
sextet0_lem a h = omega (arith, masks a h)

sextet1_lem : (a b : ℕ) → a < 256 → b < 256 → sextet1 a b ≡ a % 4 * 16 + b / 16
unfolding sextet1
sextet1_lem a b h k = omega (arith, masks a h, masks b k)

sextet2_lem : (b c : ℕ) → b < 256 → c < 256 → sextet2 b c ≡ b % 16 * 4 + c / 64
unfolding sextet2
sextet2_lem a b h k = omega (arith, masks a h, masks b k)

sextet3_lem : (c : ℕ) → c < 256 → sextet3 c ≡ c % 64
unfolding sextet3
sextet3_lem c h = omega (arith, masks c h)

octet0_lem : (a b : ℕ) → a < 256 → b < 256 → octet0 (sextet0 a) (sextet1 a b) ≡ a
unfolding octet0
octet0_lem a b h k = omega (
  arith,
  sextet0_lem a h,
  sextet1_lem a b h k,
  masks (sextet1 a b) (omega (arith, sextet1_lem a b h k)),
)

octet1_lem : (a b c : ℕ) → a < 256 → b < 256 → c < 256 → octet1 (sextet1 a b) (sextet2 b c) ≡ b
unfolding octet1
octet1_lem a b c h k l = omega (
  arith,
  sextet1_lem a b h k,
  sextet2_lem b c k l,
  masks (sextet1 a b) (omega (arith, sextet1_lem a b h k)),
  masks (sextet2 b c) (omega (arith, sextet2_lem b c k l)),
)

octet2_lem : (b c : ℕ) → b < 256 → c < 256 → octet2 (sextet2 b c) (sextet3 c) ≡ c
unfolding octet2
octet2_lem b c k l = omega (
  arith,
  sextet2_lem b c k l,
  sextet3_lem c l,
  masks (sextet2 b c) (omega (arith, sextet2_lem b c k l)),
)

-- Four characters that encode four values below 64 are read as those values.
decode_quad :
    (i j k l : ℕ) (s : Bytes)
    → i < 64
    → j < 64
    → k < 64
    → l < 64
    → decode_loop (symbol i ∷ symbol j ∷ symbol k ∷ symbol l ∷ s) []
      ≡ octet0 i j ∷ octet1 j k ∷ octet2 k l ∷ decode_loop s []
unfolding decode_loop
decode_quad i j k l s hi hj hk hl = rw (
  decode_loop,
  (symbol_lem i hi).1,
  (symbol_lem j hj).1,
  (symbol_lem k hk).1,
  (symbol_lem l hl).1,
  (symbol_lem i hi).0,
  (symbol_lem j hj).0,
  (symbol_lem k hk).0,
  (symbol_lem l hl).0,
)

-- Three characters and a padding character.
decode_triple :
    (i j k : ℕ)
    → i < 64
    → j < 64
    → k < 64
    → decode_loop (symbol i ∷ symbol j ∷ symbol k ∷ b'=' ∷ []) [] ≡ octet0 i j ∷ octet1 j k ∷ []
unfolding decode_loop
decode_triple i j k hi hj hk = rw (
  decode_loop,
  (symbol_lem i hi).1,
  (symbol_lem j hj).1,
  (symbol_lem k hk).1,
  (symbol_lem i hi).0,
  (symbol_lem j hj).0,
  (symbol_lem k hk).0,
)

decode_pair :
    (i j : ℕ)
    → i < 64
    → j < 64
    → decode_loop (symbol i ∷ symbol j ∷ b'=' ∷ b'=' ∷ []) [] ≡ octet0 i j ∷ []
unfolding decode_loop
decode_pair i j hi hj = rw (
  decode_loop,
  (symbol_lem i hi).1,
  (symbol_lem j hj).1,
  (symbol_lem i hi).0,
  (symbol_lem j hj).0,
)

sextets_lt :
    (a b c : ℕ)
    → a < 256
    → b < 256
    → c < 256
    → (sextet0 a < 64) × (sextet1 a b < 64) × (sextet2 b c < 64) × (sextet3 c < 64)
sextets_lt a b c h k l =
    omega (arith, sextet0_lem a h, sextet1_lem a b h k, sextet2_lem b c k l, sextet3_lem c l)

-- `base64_decode` gives back every byte string that `base64_encode` has encoded.
pub base64_decode-base64_encode : (s : Bytes) → All IsByte s → base64_decode (base64_encode s) ≡ s
unfolding base64_decode base64_encode
base64_decode-base64_encode [] h = unfold decode_loop in refl
base64_decode-base64_encode (a ∷ []) (ha, h) =
    let (lt0, lt1, lt2, lt3) = sextets_lt a 0 0 ha (omega arith) (omega arith) in
    decode_pair _ _ lt0 lt1 ∙ rw (octet0_lem a 0 ha (omega arith))
base64_decode-base64_encode (a ∷ b ∷ []) (ha, (hb, h)) =
    let (lt0, lt1, lt2, lt3) = sextets_lt a b 0 ha hb (omega arith) in
    decode_triple _ _ _ lt0 lt1 lt2
    ∙ rw (octet0_lem a b ha hb, octet1_lem a b 0 ha hb (omega arith))
base64_decode-base64_encode (a ∷ b ∷ c ∷ s) (ha, (hb, (hc, h))) =
    let (lt0, lt1, lt2, lt3) = sextets_lt a b c ha hb hc in
    decode_quad _ _ _ _ (base64_encode s) lt0 lt1 lt2 lt3
    ∙ rw (octet0_lem a b ha hb, octet1_lem a b c ha hb hc, octet2_lem b c hb hc)
        (ap (λ (r : Bytes). a ∷ b ∷ c ∷ r) (base64_decode-base64_encode s h))

-- The encoding of n bytes has 4 ⌈n / 3⌉ characters.
pub length-base64_encode : (s : Bytes) → length (base64_encode s) ≡ (length s + 2) / 3 * 4
unfolding base64_encode
length-base64_encode [] = refl
length-base64_encode (a ∷ []) = refl
length-base64_encode (a ∷ b ∷ []) = refl
length-base64_encode (a ∷ b ∷ c ∷ s) = omega (arith, length-base64_encode s)
