-- ===== src/WebSocket/Closing.antt =====
-- libraries/repro-web/src/websocket.cpp: what a close frame does to the connection.
use wpp.Prelude.{
  Bytes, ℕ, zero, suc, ◌/◌, ◌%◌, Bool, true, false, none, [], ◌∷◌, ◌≡◌, refl, ap, ◌∙◌, ◌==◌,
}
use wpp.WebSocket.{
  WsConnection, frame_head, Turn, on_close, quiet, then_do, deliver, serve, arrive, got_head,
  parse_fin, parse_opcode, close_down, dispose, send,
}
use wpp.WebSocket.Arrivals.{arrive_at}
use wpp.WebSocket.Exchange.{Handler, expecting}

-- `ws` behind a close frame with the first byte `byte1`.
abbrev pub closed : Bool → ℕ → WsConnection → WsConnection
closed c byte1 ws = record ws {
  fin = byte1 / 128 % 2 == 1;
  is_client = c;
  opcode = 8;
  extralenbytes = 0;
  con = false;
  pending = true;
  reading = none;
}

close_turn :
    (on_msg : Handler) (c : Bool) (byte1 byte2 : ℕ) (ws : WsConnection)
    → byte1 % 16 ≡ 8
    → deliver on_msg frame_head (byte1 ∷ byte2 ∷ []) (expecting c ws)
      ≡ (closed c byte1 ws, on_close ∷ [])
unfolding deliver got_head parse_fin parse_opcode close_down dispose
close_turn on_msg c byte1 byte2 ws h = rw h refl

no_read :
    (on_msg : Handler) (n : ℕ) (s : Bytes) (c : Bool) (byte1 : ℕ) (ws : WsConnection)
    → arrive on_msg n s (closed c byte1 ws) ≡ (s, quiet (closed c byte1 ws))
unfolding arrive serve
no_read on_msg zero s c byte1 ws = refl
no_read on_msg (suc n) s c byte1 ws = refl

-- A receiver that waits for a frame and gets the first two bytes of a close frame, of either side,
-- calls `onClose_` once and closes the connection. It reads nothing more, whatever has come in behind
-- the two bytes, and later sends do nothing.
pub close_frame :
    (on_msg : Handler) (c : Bool) (byte1 byte2 n op : ℕ) (s rest : Bytes) (ws : WsConnection)
    → byte1 % 16 ≡ 8
    → (arrive on_msg (suc n) (byte1 ∷ byte2 ∷ rest) (expecting c ws)
        ≡ (rest, (closed c byte1 ws, on_close ∷ [])))
      × (send op s (closed c byte1 ws) ≡ quiet (closed c byte1 ws))
unfolding then_do send
close_frame on_msg c byte1 byte2 n op s rest ws h = (
  arrive_at on_msg n (byte1 ∷ byte2 ∷ []) rest frame_head (expecting c ws) (λ e. cc e) refl
      ∙ ap
          (λ (t : Turn).
            ((arrive on_msg n rest t.0).0, then_do t (λ _. (arrive on_msg n rest t.0).1)))
          (close_turn on_msg c byte1 byte2 ws h)
      ∙ ap (λ (r : Bytes × Turn). (r.0, then_do (closed c byte1 ws, on_close ∷ []) (λ _. r.1)))
          (no_read on_msg n rest c byte1 ws),
  refl,
)
