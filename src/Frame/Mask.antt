-- ===== src/Frame/Mask.antt =====
-- libraries/repro-web/src/websocket.cpp: masking twice with the writer's key, and the numbers of a
-- frame's head.
use Prim.Native.Nat.{bit_xor}
use wpp.Prelude.{
  Bytes, ℕ, zero, suc, ◌+◌, ◌*◌, ◌%◌, ◌<◌, true, [], ◌∷◌, ◌≡◌, refl, ap, arith, All, IsByte, length,
  get_or, ◌==◌, ==_iff, all_below, all_below_sound,
}
use wpp.Frame.{xor_loop, mask, unmask, writer_key, be16, be32, be64, be_from}

twice : ℕ → ℕ → ℕ
twice k x = bit_xor (bit_xor x k) k

table_fe : all_below 256 (λ x. bit_xor (bit_xor x 0xFE) 0xFE == x) ≡ true
unfolding all_below
table_fe = refl

table_10 : all_below 256 (λ x. bit_xor (bit_xor x 0x10) 0x10 == x) ≡ true
unfolding all_below
table_10 = refl

twice_fe : (x : ℕ) → x < 256 → bit_xor (bit_xor x 0xFE) 0xFE ≡ x
twice_fe x h = (==_iff _ x).0 (all_below_sound 256 _ x table_fe h)

twice_10 : (x : ℕ) → x < 256 → bit_xor (bit_xor x 0x10) 0x10 ≡ x
twice_10 x h = (==_iff _ x).0 (all_below_sound 256 _ x table_10 h)

key_twice :
    (r x : ℕ)
    → r < 4
    → x < 256
    → bit_xor (bit_xor x (get_or writer_key r 0)) (get_or writer_key r 0) ≡ x
key_twice zero x hr hx = twice_fe x hx
key_twice (suc zero) x hr hx = twice_10 x hx
key_twice (suc (suc zero)) x hr hx = twice_fe x hx
key_twice (suc (suc (suc zero))) x hr hx = twice_10 x hx
key_twice (suc (suc (suc (suc r)))) x hr hx = absurd (omega arith)

xor_loop_twice :
    (i : ℕ) (s : Bytes) → All IsByte s → xor_loop writer_key i (xor_loop writer_key i s) ≡ s
unfolding xor_loop
xor_loop_twice i [] h = refl
xor_loop_twice i (x ∷ s) (hx, h) =
    let e = key_twice (i % 4) x (omega arith) hx in λ j. e j ∷ xor_loop_twice (i + 1) s h j

pub unmask-mask : (s : Bytes) → All IsByte s → unmask writer_key (mask writer_key s) ≡ s
unfolding mask unmask
unmask-mask s h = xor_loop_twice 0 s h

pub length-mask : (key : Bytes) (s : Bytes) → length (mask key s) ≡ length s
unfolding mask xor_loop
length-mask key s = go 0 s
  where
    go : (i : ℕ) (s : Bytes) → length (xor_loop key i s) ≡ length s
    go i [] = refl
    go i (x ∷ s) = ap suc (go (i + 1) s)

pub be_from-be16 : (n : ℕ) → n < 65536 → be_from 0 (be16 n) ≡ n
unfolding be16
be_from-be16 n h = omega arith

be_from-be32 : (m n : ℕ) → n < 4294967296 → be_from m (be32 n) ≡ m * 4294967296 + n
unfolding be32 be16
be_from-be32 m n h = omega arith

pub be_from-be64 : (n : ℕ) → n < 18446744073709551616 → be_from 0 (be64 n) ≡ n
unfolding be64 be32 be16
be_from-be64 n h = omega arith
