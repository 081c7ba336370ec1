-- ===== src/WebSocket/Heads.antt =====
-- libraries/repro-web/src/websocket.cpp: the two bytes that begin a frame, written and read.
use Prim.Native.Nat.{bit_or}
use wpp.Prelude.{
  ℕ, ◌/◌, ◌%◌, ◌<◌, ◌&&◌, not, Bool, true, false, ◌≡◌, refl, arith, ◌==◌, ==_iff, all_below,
  all_below_sound,
}
use wpp.Frame.{fin_and_opcode, short_length}
use wpp.WebSocket.{frame_length}

-- The second byte of a frame for a receiver that is a client, or a server.
abbrev pub second : Bool → ℕ → ℕ
second true n = short_length n
second false n = bit_or (short_length n) 128

opcode_table :
    all_below 16 (λ x. fin_and_opcode x % 16 == x && fin_and_opcode x / 128 % 2 == 1) ≡ true
unfolding all_below
opcode_table = refl

second_table :
    all_below 128 (λ x. frame_length false (bit_or x 128) == x && bit_or x 128 / 128 % 2 == 1)
    ≡ true
unfolding all_below
second_table = refl

and_left : (a b : Bool) → (a && b) ≡ true → a ≡ true
and_left true b h = refl
and_left false b h = h

and_right : (a b : Bool) → (a && b) ≡ true → b ≡ true
and_right true b h = h
and_right false b h = absurd cc

pub opcode_low : (op : ℕ) → op < 16 → fin_and_opcode op % 16 ≡ op
opcode_low op h = (==_iff _ op).0 (and_left _ _ (all_below_sound 16 _ op opcode_table h))

pub opcode_fin : (op : ℕ) → op < 16 → (fin_and_opcode op / 128 % 2 == 1) ≡ true
opcode_fin op h =
    and_right (fin_and_opcode op % 16 == op) _ (all_below_sound 16 _ op opcode_table h)

short_length_bound : (n : ℕ) → short_length n < 128
short_length_bound n = ground arith

pub second_length : (c : Bool) (n : ℕ) → frame_length c (second c n) ≡ short_length n
second_length true n = refl
second_length false n =
    (==_iff _ _).0
      (and_left _ _ (all_below_sound 128 _ (short_length n) second_table (short_length_bound n)))

pub second_mask : (c : Bool) (n : ℕ) → (second c n / 128 % 2 == 1) ≡ not c
second_mask true n = ground arith
second_mask false n =
    and_right (frame_length false (second false n) == short_length n) _
      (all_below_sound 128 _ (short_length n) second_table (short_length_bound n))
