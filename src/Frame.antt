-- ===== src/Frame.antt =====
-- libraries/repro-web/src/websocket.cpp: class `WebsocketWriter`, the frame that it writes for one
-- message, and the masking that both sides share. The bytes of `be16` and `be64` are in network order.
pub mod Mask
use Prim.Native.Nat.{bit_or, bit_xor}
use wpp.Prelude.{
  Bytes, ℕ, ◌+◌, ◌*◌, ◌/◌, ◌%◌, ◌^◌, Bool, true, false, [], ◌∷◌, ◌++◌, map, if◌then◌else◌, length,
  get_or, ltb,
}

-- The loop of `mask` and `unmask`, at index `i`.
unfoldable pub xor_loop : Bytes → ℕ → Bytes → Bytes
xor_loop key i [] = []
xor_loop key i (c ∷ s) = bit_xor c (get_or key (i % 4) 0) ∷ xor_loop key (i + 1) s

unfoldable pub unmask : Bytes → Bytes → Bytes
unfolding xor_loop
unmask key s = xor_loop key 0 s

unfoldable pub mask : Bytes → Bytes → Bytes
unfolding xor_loop
mask key s = xor_loop key 0 s

-- `xorkey_` as the constructor leaves it for a client.
abbrev pub writer_key : Bytes
writer_key = map (λ c. bit_xor c 1) (0xFF ∷ 0x11 ∷ 0xFF ∷ 0x11 ∷ [])

unfoldable pub be16 : ℕ → Bytes
be16 n = n / 256 % 256 ∷ n % 256 ∷ []

unfoldable pub be32 : ℕ → Bytes
unfolding be16
be32 n = be16 (n / 65536) ++ be16 n

unfoldable pub be64 : ℕ → Bytes
unfolding be32
be64 n = be32 (n / 4294967296) ++ be32 n

-- The value of bytes in network order, as `be16toh` and `be64toh` give it.
abbrev pub be_from : ℕ → Bytes → ℕ
be_from n [] = n
be_from n (c ∷ s) = be_from (n * 256 + c) s

abbrev pub fin_and_opcode : ℕ → ℕ
fin_and_opcode op = bit_or 128 op % 256

-- The second byte without the mask bit, and the length bytes behind it.
abbrev pub short_length : ℕ → ℕ
short_length n = if ltb n 126 then n else if ltb n 65535 then 126 else 127

abbrev pub long_length : ℕ → Bytes
long_length n = if ltb n 126 then [] else if ltb n 65535 then be16 n else be64 n

-- What `write_frame` writes.
unfoldable pub frame : ℕ → Bool → Bytes → Bytes
unfolding mask be16 be64
frame op true msg =
    fin_and_opcode op
    ∷ bit_or (short_length (length msg)) 128
    ∷ (long_length (length msg) ++ (writer_key ++ mask writer_key msg))
frame op false msg =
    fin_and_opcode op ∷ short_length (length msg) ∷ (long_length (length msg) ++ msg)
