-- ===== src/WebSocket/Sending.antt =====
-- libraries/repro-web/src/websocket.cpp: the queue of messages to send, and how control frames are
-- answered.
use wpp.Prelude.{
  Bytes, ℕ, zero, suc, ◌<◌, Bool, true, false, not, some, none, List, [], ◌∷◌, ◌++◌, ◌≡◌, ◌≢◌, refl,
  ap, ◌∙◌, arith, All, IsByte, length, append_assoc, append-nil, sym,
}
use wpp.Frame.{frame}
use wpp.WebSocket.{
  WsConnection, frame_head, Turn, Effect, wrote, quiet, then_do, send, send_msg, enqueue, written,
  read_frame, start_read, on_done, arrive,
}
use wpp.WebSocket.Exchange.{Handler, expecting, received, reads, frame_exchange}

-- Sends one behind the other, and reports of written frames one behind the other.
unfoldable pub send_each : List (ℕ × Bytes) → WsConnection → Turn
unfolding then_do send
send_each [] ws = quiet ws
send_each ((op, s) ∷ ms) ws = then_do (send op s ws) (send_each ms)

unfoldable pub written_times : ℕ → WsConnection → Turn
unfolding then_do written
written_times zero ws = quiet ws
written_times (suc n) ws = then_do (written ws) (written_times n)

abbrev pub frames : Bool → List (ℕ × Bytes) → List Effect
frames c [] = []
frames c ((op, s) ∷ ms) = wrote (frame op c s) ∷ frames c ms

abbrev pub busy : List (ℕ × Bytes) → WsConnection → WsConnection
busy ms ws = record ws { con = true; pending = true; msgs_to_send = ms; reading = none }

queue_all :
    (ms q : List (ℕ × Bytes)) (ws : WsConnection)
    → send_each ms (busy q ws) ≡ quiet (busy (q ++ ms) ws)
unfolding send_each then_do send enqueue
queue_all [] q ws = λ i. quiet (busy (sym (append-nil q) i) ws)
queue_all ((op, s) ∷ ms) q ws =
    queue_all ms (q ++ (op, s) ∷ []) ws ∙ λ i. quiet (busy (append_assoc q ((op, s) ∷ []) ms i) ws)

drain :
    (ms : List (ℕ × Bytes)) (ws : WsConnection)
    → written_times (length ms) (busy ms ws) ≡ (busy [] ws, frames ws.is_client ms)
unfolding written_times then_do written send_msg
drain [] ws = refl
drain ((op, s) ∷ ms) ws =
    ap (λ (t : Turn). (t.0, wrote (frame op ws.is_client s) ∷ t.1)) (drain ms ws)

-- `ws` open, with nothing pending and nothing queued.
abbrev pub ready : WsConnection → WsConnection
ready ws = record ws { con = true; pending = false; msgs_to_send = [] }

-- Messages sent on an open connection with nothing pending and nothing queued are written in the order
-- sent, each when the frame before it was written: the first at once, the others by as many reports of
-- a written frame. Nothing else happens, and the last frame is still pending.
pub send_order :
    (op : ℕ) (s : Bytes) (ms : List (ℕ × Bytes)) (ws : WsConnection)
    → then_do (send_each ((op, s) ∷ ms) (ready ws)) (written_times (length ms))
      ≡ (busy [] ws, frames ws.is_client ((op, s) ∷ ms))
unfolding send_each then_do send send_msg enqueue
send_order op s ms ws =
    ap
      (λ (t : Turn).
        then_do (t.0, wrote (frame op ws.is_client s) ∷ t.1) (written_times (length ms)))
      (queue_all ms [] ws)
    ∙ ap (λ (t : Turn). (t.0, wrote (frame op ws.is_client s) ∷ t.1)) (drain ms ws)

-- A ping with a text that is not empty and comes alone to an open connection with nothing pending
-- and nothing queued is answered by one pong, with the ping's text behind whatever text the
-- connection held. When the pong was written the connection reads again, and still holds that text:
-- the next message starts with it.
pub ping_answer :
    (on_msg : Handler) (c : Bool) (ping : Bytes) (ws : WsConnection)
    → ping ≢ []
    → All IsByte ping
    → length ping < 18446744073709551616
    → let w = received c 9 ping (ready ws) in
      (arrive on_msg (reads c (length ping)) (frame 9 (not c) ping) (expecting c (ready ws))
        ≡ ([], (record w { pending = true }, wrote (frame 10 c (ws.msg ++ ping)) ∷ [])))
      × (written (record w { pending = true })
          ≡ quiet (record w { reading = some (frame_head, 2); msg = ws.msg ++ ping }))
unfolding written send_msg read_frame start_read on_done send enqueue
ping_answer on_msg c ping ws ne bytes bound = (
  ap (λ (f : Bytes). arrive on_msg (reads c (length ping)) f (expecting c (ready ws)))
        (sym (append-nil (frame 9 (not c) ping)))
      ∙ frame_exchange on_msg c 9 ping [] (ready ws) (omega arith) (omega arith) (omega arith) ne
          bytes bound,
  refl,
)
