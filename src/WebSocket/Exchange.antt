-- ===== src/WebSocket/Exchange.antt =====
-- libraries/repro-web/src/websocket.cpp: a frame as `WebsocketWriter` writes it, read by the peer.
use wpp.Prelude.{
  leb, Bytes, ℕ, suc, ◌<◌, not, Bool, true, false, none, some, [], ◌∷◌, ◌++◌, ◌≡◌, ◌≢◌, refl, ap,
  sym, ◌∙◌, arith, All, IsByte, length, append_assoc, ltb, ◌==◌, Bool-cases, inl, inr,
  if◌then◌else◌,
}
use wpp.Frame.{
  mask, writer_key, be16, be32, be64, be_from, frame, fin_and_opcode, short_length, long_length,
}
use wpp.Frame.Mask.{unmask-mask, length-mask, be_from-be16, be_from-be64}
use wpp.WebSocket.Heads.{second, opcode_low, opcode_fin, second_length, second_mask}
use wpp.WebSocket.Arrivals.{arrive_step, arrive_last}
use wpp.WebSocket.{
  WsConnection, frame_head, frame_len, frame_mask, frame_msg, Turn, quiet, set_len, start_read,
  read_msg, read_mask, read_mask_or_msg, read_len, got_head, got_len, got_msg, parse_fin,
  parse_opcode, parse_mask, parse_len, on_done, deliver, arrive,
}

abbrev pub payload : Bool → Bytes → Bytes
payload true msg = msg
payload false msg = writer_key ++ mask writer_key msg

pub frame_parts :
    (c : Bool) (op : ℕ) (msg : Bytes)
    → frame op (not c) msg
      ≡ (fin_and_opcode op ∷ second c (length msg) ∷ [])
        ++ (long_length (length msg) ++ payload c msg)
unfolding frame
frame_parts true op msg = refl
frame_parts false op msg = refl

-- `ws` with the two bytes of a head read: its flags and its opcode.
abbrev pub headed : Bool → ℕ → WsConnection → WsConnection
headed c op ws = record ws {
  fin = true;
  mask = not c;
  is_client = c;
  opcode = op;
  extralenbytes = 0;
  pending = true;
  reading = none;
}

-- `ws` before a frame comes, and behind the frame.
abbrev pub expecting : Bool → WsConnection → WsConnection
expecting c ws = record ws { is_client = c; reading = some (frame_head, 2) }

abbrev pub extra : ℕ → ℕ
extra n = if ltb n 126 then 0 else if ltb n 65535 then 2 else 8

abbrev pub key_behind : Bool → Bytes → Bytes
key_behind true key = key
key_behind false key = writer_key

abbrev pub received : Bool → ℕ → Bytes → WsConnection → WsConnection
received c op msg ws = record ws {
  fin = true;
  mask = not c;
  is_client = c;
  opcode = op;
  size = length msg;
  extralenbytes = extra (length msg);
  xorkey = key_behind c ws.xorkey;
  msg = ws.msg ++ msg;
  pending = false;
  reading = none;
}

abbrev pub reads : Bool → ℕ → ℕ
reads c n = suc (if ltb n 126 then (if c then 1 else 2) else suc (if c then 1 else 2))

pub head_turn :
    (on_msg : Bytes → WsConnection → Turn) (c : Bool) (op n : ℕ) (ws : WsConnection)
    → op < 16
    → op ≢ 0
    → op ≢ 8
    → deliver on_msg frame_head (fin_and_opcode op ∷ second c n ∷ []) (expecting c ws)
      ≡ quiet (read_len (set_len (short_length n) (headed c op ws)))
unfolding deliver got_head parse_fin parse_opcode parse_mask parse_len
head_turn on_msg c op n ws h h0 h8 =
    rw (opcode_fin op h, opcode_low op h, not0, not8, second_length c n, second_mask c n) refl
  where
    not0 : (op == 0) ≡ false
    not0 = ground arith

    not8 : (op == 8) ≡ false
    not8 = ground arith

-- `ws` with the length of the message read.
abbrev pub sized : Bool → ℕ → Bytes → WsConnection → WsConnection
sized c op msg ws = record (headed c op ws) {
  size = length msg;
  extralenbytes = extra (length msg);
}

abbrev pub Handler : Type 0
Handler = Bytes → WsConnection → Turn

mask-ne-nil : (key msg : Bytes) → msg ≢ [] → mask key msg ≢ []
mask-ne-nil key [] ne e = absurd (ne refl)
mask-ne-nil key (x ∷ msg) ne e = absurd (omega (arith, length-mask key (x ∷ msg), ap length e))

payload_read :
    (on_msg : Handler) (c : Bool) (op : ℕ) (msg rest : Bytes) (ws : WsConnection)
    → msg ≢ []
    → All IsByte msg
    → arrive on_msg
        (if c then 1 else 2)
        (payload c msg ++ rest)
        (read_mask_or_msg (sized c op msg ws))
      ≡ (rest, on_done on_msg (received c op msg ws))
unfolding deliver got_msg read_mask_or_msg read_mask read_msg start_read
payload_read on_msg true op msg rest ws ne h = arrive_last on_msg msg rest frame_msg _ ne refl
payload_read on_msg false op msg rest ws ne h =
    arrive_step on_msg 1 writer_key (mask writer_key msg ++ rest) frame_mask _ _ (λ e. cc e) refl
      refl
    ∙ arrive_last on_msg (mask writer_key msg) rest frame_msg _ (mask-ne-nil writer_key msg ne)
        (ap (λ (n : ℕ). some (frame_msg, n)) (sym (length-mask writer_key msg)))
    ∙ ap
        (λ (t : Bytes).
          (rest, on_done on_msg (record (received false op msg ws) { msg = ws.msg ++ t })))
        (unmask-mask msg h)

-- `ws` while its length bytes are read.
abbrev lengthy : Bool → ℕ → ℕ → WsConnection → WsConnection
lengthy c op k ws = record (headed c op ws) { extralenbytes = k; reading = some (frame_len, k) }

pub short_turn :
    (c : Bool) (op : ℕ) (msg : Bytes) (ws : WsConnection)
    → ltb (length msg) 126 ≡ true
    → read_len (set_len (short_length (length msg)) (headed c op ws))
      ≡ read_mask_or_msg (sized c op msg ws)
unfolding read_len set_len
short_turn c op msg ws e = rw (e, small) refl
  where
    small : leb (length msg) 125 ≡ true
    small = ground arith

length_turn :
    (on_msg : Handler) (c : Bool) (op k : ℕ) (d msg : Bytes) (ws : WsConnection)
    → be_from 0 d ≡ length msg
    → deliver on_msg frame_len d (lengthy c op k ws)
      ≡ quiet (read_mask_or_msg (record (headed c op ws) { size = length msg; extralenbytes = k }))
unfolding deliver got_len
length_turn on_msg c op k d msg ws size_eq =
    λ i. quiet (read_mask_or_msg (record (headed c op ws) { size = size_eq i; extralenbytes = k }))

length_read :
    (on_msg : Handler) (c : Bool) (op : ℕ) (msg rest : Bytes) (ws : WsConnection)
    → length msg < 18446744073709551616
    → arrive on_msg
        (if ltb (length msg) 126 then (if c then 1 else 2) else suc (if c then 1 else 2))
        (long_length (length msg) ++ (payload c msg ++ rest))
        (read_len (set_len (short_length (length msg)) (headed c op ws)))
      ≡ arrive on_msg
          (if c then 1 else 2)
          (payload c msg ++ rest)
          (read_mask_or_msg (sized c op msg ws))
unfolding read_len set_len start_read be16 be64 be32
length_read on_msg c op msg rest ws h = elim (Bool-cases (ltb (length msg) 126)) [
  | inl e ↦ rw (short_turn c op msg ws e) (rw e refl)
  | inr e ↦ elim (Bool-cases (ltb (length msg) 65535)) [
    | inl f ↦
        let turn =
          length_turn on_msg c op 2 (be16 (length msg)) msg ws
            (be_from-be16 (length msg) (ground arith)) in
        rw (e, f)
          (arrive_step on_msg (if c then 1 else 2) (be16 (length msg)) (payload c msg ++ rest)
            frame_len (lengthy c op 2 ws) _ (λ e. cc e) refl turn)
    | inr f ↦
        let turn =
          length_turn on_msg c op 8 (be64 (length msg)) msg ws (be_from-be64 (length msg) h) in
        rw (e, f)
          (arrive_step on_msg (if c then 1 else 2) (be64 (length msg)) (payload c msg ++ rest)
            frame_len (lengthy c op 8 ws) _ (λ e. cc e) refl turn)
  ]
]

-- A receiver that waits for a frame and gets one of its peer's, of opcode 1 to 15 but 8, with a
-- byte message that is not empty and below 2 ^ 64 long, reads exactly that frame, in as many reads
-- as it has parts: it ends in `on_done` with the message appended to its text, unmasked if the
-- receiver is a server, with nothing pending. The bytes behind the frame are left.
pub frame_exchange :
    (on_msg : Handler) (c : Bool) (op : ℕ) (msg rest : Bytes) (ws : WsConnection)
    → op < 16
    → op ≢ 0
    → op ≢ 8
    → msg ≢ []
    → All IsByte msg
    → length msg < 18446744073709551616
    → arrive on_msg (reads c (length msg)) (frame op (not c) msg ++ rest) (expecting c ws)
      ≡ (rest, on_done on_msg (received c op msg ws))
frame_exchange on_msg c op msg rest ws h h0 h8 ne bytes bound =
    ap (λ (s : Bytes). arrive on_msg (reads c n) (s ++ rest) (expecting c ws))
      (frame_parts c op msg)
    ∙ arrive_step on_msg _ (fin_and_opcode op ∷ second c n ∷ [])
        ((long_length n ++ payload c msg) ++ rest) frame_head _ _ (λ e. cc e) refl
        (head_turn on_msg c op n ws h h0 h8)
    ∙ ap
        (λ (s : Bytes).
          arrive on_msg (if ltb n 126 then (if c then 1 else 2) else suc (if c then 1 else 2)) s
            (read_len (set_len (short_length n) (headed c op ws))))
        (append_assoc (long_length n) (payload c msg) rest)
    ∙ length_read on_msg c op msg rest ws bound
    ∙ payload_read on_msg c op msg rest ws ne bytes
  where
    n : ℕ
    n = length msg
