-- ===== src/Tests/Sockets.antt =====
-- WebSocket frames at concrete inputs.
use wpp.Prelude.{true, false, some, none, [], ◌∷◌, ◌++◌, ◌≡◌, refl, codes, arith}
use wpp.Frame.{frame}
use wpp.WebSocket.{WsConnection, frame_head, wrote, quiet, then_do, on_done, arrive, written}
use wpp.WebSocket.Exchange.{Handler, expecting, received, frame_exchange}
use wpp.WebSocket.Sending.{send_each, written_times, busy, ready, send_order, ping_answer}
use wpp.Tests.Checks.{are_bytes_sound}

abbrev fresh : WsConnection
fresh = record {
  fin = false;
  mask = false;
  is_client = false;
  opcode = 0;
  size = 0;
  extralenbytes = 0;
  xorkey = 0 ∷ 0 ∷ 0 ∷ 0 ∷ [];
  msg = [];
  con = true;
  pending = false;
  msgs_to_send = [];
  reading = none;
}

-- A handler that leaves the connection alone.
abbrev silent : Handler
silent s ws = quiet ws

frame_exchange_example :
    arrive silent 3 (frame 1 true (codes "hello") ++ codes "xy") (expecting false fresh)
    ≡ (codes "xy", on_done silent (received false 1 (codes "hello") fresh))
frame_exchange_example =
    frame_exchange silent false 1 (codes "hello") (codes "xy") fresh (omega arith) (omega arith)
      (omega arith) (λ e. cc e) (are_bytes_sound (codes "hello") refl) (omega arith)

send_order_example :
    then_do (send_each ((1, codes "a") ∷ (2, codes "b") ∷ []) (ready fresh)) (written_times 1)
    ≡ (busy [] fresh, wrote (frame 1 false (codes "a")) ∷ wrote (frame 2 false (codes "b")) ∷ [])
send_order_example = send_order 1 (codes "a") ((2, codes "b") ∷ []) fresh

ping_answer_example :
    (arrive silent 2 (frame 9 false (codes "p")) (expecting true (ready fresh)) ≡ (
      [],
      (
        record (received true 9 (codes "p") (ready fresh)) { pending = true },
        wrote (frame 10 true (codes "p")) ∷ [],
      ),
    ))
    × (written (record (received true 9 (codes "p") (ready fresh)) { pending = true })
        ≡ quiet (record (received true 9 (codes "p") (ready fresh)) {
          reading = some (frame_head, 2);
          msg = codes "p";
        }))
ping_answer_example =
    ping_answer silent true (codes "p") fresh (λ e. cc e) (are_bytes_sound (codes "p") refl)
      (omega arith)
