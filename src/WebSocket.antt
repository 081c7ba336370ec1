-- ===== src/WebSocket.antt =====
-- libraries/repro-web/src/websocket.cpp: class `WsConnection` behind its handshake. The event loop's
-- part is explicit: `reading` is the read that the connection has outstanding, with the continuation
-- that will get its bytes, and `deliver`, `read_failed` and `written` are what the loop calls back. The
-- application's `onMsg_` is a parameter.
pub mod Heads
pub mod Arrivals
pub mod Exchange
pub mod Sending
pub mod Empty
pub mod Closing
use wpp.Prelude.{
  Bytes, ℕ, zero, suc, ◌+◌, ◌-◌, ◌/◌, ◌%◌, ◌^◌, Bool, true, false, not, ◌&&◌, ◌||◌, Option, none,
  some, List, [], ◌∷◌, ◌++◌, if◌then◌else◌, length, get_or, take, drop, ltb, leb, ◌==◌,
}
use wpp.Frame.{unmask, be_from, frame}

pub data Read : Type 0 where
  frame_head : Read
  frame_len : Read
  frame_mask : Read
  frame_msg : Read

pub data Effect : Type 0 where
  message : Bytes → Effect
  on_close : Effect
  wrote : Bytes → Effect

pub record WsConnection : Type 0 where
  pub fin : Bool
  pub mask : Bool
  pub is_client : Bool
  pub opcode : ℕ
  pub size : ℕ
  pub extralenbytes : ℕ
  pub xorkey : Bytes
  pub msg : Bytes
  pub con : Bool
  pub pending : Bool
  pub msgs_to_send : List (ℕ × Bytes)
  pub reading : Option (Read × ℕ)

abbrev pub Turn : Type 0
Turn = WsConnection × List Effect

abbrev pub quiet : WsConnection → Turn
quiet ws = (ws, [])

-- The effects of one call, then those of the next.
unfoldable pub then_do : Turn → (WsConnection → Turn) → Turn
then_do (ws, es) f = ((f ws).0, es ++ (f ws).1)

unfoldable pub parse_opcode : ℕ → WsConnection → WsConnection
parse_opcode byte1 ws = if byte1 % 16 == 0 then ws else record ws { opcode = byte1 % 16 }

unfoldable pub parse_fin : ℕ → WsConnection → WsConnection
parse_fin byte1 ws = record ws { fin = byte1 / 128 % 2 == 1 }

unfoldable pub parse_mask : ℕ → WsConnection → WsConnection
parse_mask byte2 ws = record ws { mask = byte2 / 128 % 2 == 1 }

-- `l`, an `unsigned int`.
abbrev pub frame_length : Bool → ℕ → ℕ
frame_length true byte2 = byte2
frame_length false byte2 = (byte2 + (4294967296 - 128)) % 4294967296

unfoldable pub set_len : ℕ → WsConnection → WsConnection
set_len l ws =
    if leb l 125
    then record ws { size = l }
    else if l == 126
    then record ws { extralenbytes = 2 }
    else if l == 127
    then record ws { extralenbytes = 8 }
    else ws

unfoldable pub parse_len : ℕ → WsConnection → WsConnection
unfolding set_len
parse_len byte2 ws = set_len (frame_length ws.is_client byte2) ws

-- `con_->read(n)`.
unfoldable pub start_read : Read → ℕ → WsConnection → WsConnection
start_read r n ws = record ws { reading = some (r, n) }

unfoldable pub dispose : WsConnection → WsConnection
dispose ws = record ws { con = false; reading = none }

unfoldable pub close_down : WsConnection → Turn
unfolding dispose
close_down ws = (dispose ws, on_close ∷ [])

unfoldable pub read_frame : WsConnection → WsConnection
unfolding start_read
read_frame ws = start_read frame_head 2 ws

unfoldable pub read_msg : WsConnection → WsConnection
unfolding start_read
read_msg ws = start_read frame_msg ws.size ws

unfoldable pub read_mask : WsConnection → WsConnection
unfolding start_read
read_mask ws = start_read frame_mask 4 ws

unfoldable pub read_mask_or_msg : WsConnection → WsConnection
unfolding read_mask read_msg
read_mask_or_msg ws = if ws.mask then read_mask ws else read_msg ws

unfoldable pub read_len : WsConnection → WsConnection
unfolding read_mask_or_msg start_read
read_len ws =
    if ws.extralenbytes == 0 then read_mask_or_msg ws else start_read frame_len ws.extralenbytes ws

-- The continuation of `read_frame`.
unfoldable pub got_head : ℕ → ℕ → WsConnection → Turn
unfolding parse_fin parse_opcode parse_mask parse_len read_len close_down
got_head byte1 byte2 ws =
    let v : WsConnection =
      parse_opcode byte1 (parse_fin byte1 (record ws { pending = true; extralenbytes = 0 })) in
    if v.opcode == 8 then close_down v else quiet (read_len (parse_len byte2 (parse_mask byte2 v)))

-- The continuation of `read_len`.
unfoldable pub got_len : Bytes → WsConnection → WsConnection
unfolding read_mask_or_msg
got_len data_ ws = read_mask_or_msg (record ws { size = be_from 0 data_ })

abbrev pub take_message : ℕ → Bytes → List (ℕ × Bytes) → WsConnection → Turn
take_message op s rest ws = (
  record ws { pending = true; msgs_to_send = rest; reading = none },
  wrote (frame op ws.is_client s) ∷ [],
)

-- `send_msg()` where nothing is pending and the connection is there: `cancel()` comes first.
abbrev pub next_message : List (ℕ × Bytes) → WsConnection → Turn
next_message [] ws = quiet (read_frame (record ws { reading = none }))
next_message ((op, s) ∷ rest) ws = take_message op s rest ws

unfoldable pub send_msg : WsConnection → Turn
unfolding read_frame frame
send_msg ws = if ws.pending || not ws.con then quiet ws else next_message ws.msgs_to_send ws

unfoldable pub enqueue : ℕ → Bytes → WsConnection → WsConnection
enqueue op s ws = record ws { msgs_to_send = ws.msgs_to_send ++ (op, s) ∷ [] }

-- `send(opcode, s)`, without its result.
unfoldable pub send : ℕ → Bytes → WsConnection → Turn
unfolding send_msg enqueue
send op s ws =
    if not ws.con
    then quiet ws
    else if ws.pending
    then quiet (enqueue op s ws)
    else send_msg (enqueue op s ws)

unfoldable pub close : WsConnection → Turn
unfolding send
close ws = send 8 [] ws

-- The event loop reports that a frame was written, or that this failed.
unfoldable pub written : WsConnection → Turn
unfolding send_msg
written ws = send_msg (record ws { pending = false })

-- A read failed.
unfoldable pub read_failed : Read → WsConnection → Turn
unfolding close_down
read_failed frame_head ws = close_down (record ws { pending = false; reading = none })
read_failed frame_len ws = quiet (record ws { pending = false; reading = none })
read_failed frame_mask ws = quiet (record ws { reading = none })
read_failed frame_msg ws = quiet (record ws { pending = false; reading = none })

module _ (on_msg : Bytes → WsConnection → Turn) where
  unfoldable pub on_done : WsConnection → Turn
  unfolding send then_do send_msg
  on_done ws =
      if ws.opcode == 9
      then send 10 ws.msg ws
      else then_do (ws, message ws.msg ∷ [])
          (λ v. then_do (on_msg v.msg v) (λ w. send_msg (record w { msg = [] })))

  -- The continuation of `read_msg`.
  unfoldable pub got_msg : Bytes → WsConnection → Turn
  unfolding on_done unmask read_frame
  got_msg data_ ws =
      let text : Bytes = if ws.is_client then data_ else unmask ws.xorkey data_ in
      let v : WsConnection = record ws { pending = false; msg = ws.msg ++ text } in
      if v.fin then on_done v else quiet (if v.con then read_frame v else v)

  -- The event loop hands the bytes of a read to its continuation.
  unfoldable pub deliver : Read → Bytes → WsConnection → Turn
  unfolding got_head got_len read_msg got_msg
  deliver frame_head data_ ws =
      got_head (get_or data_ 0 0) (get_or data_ 1 0) (record ws { reading = none })
  deliver frame_len data_ ws = quiet (got_len data_ (record ws { reading = none }))
  deliver frame_mask data_ ws =
      quiet (read_msg (record ws { xorkey = take 4 data_; reading = none }))
  deliver frame_msg data_ ws = got_msg data_ (record ws { reading = none })

  -- The outstanding read, where enough bytes have come in: the bytes that are left, and the turn. The
  -- connection of libraries/prio/ never serves a read of no bytes: it rejects it, or throws at it.
  unfoldable pub serve : Option (Read × ℕ) → Bytes → WsConnection → Option (Bytes × Turn)
  unfolding deliver
  serve none s ws = none
  serve (some (r, k)) s ws =
      if k == 0 || ltb (length s) k then none else some (drop k s, deliver r (take k s) ws)

  -- At most `n` reads, one behind the other, with the bytes that are left.
  unfoldable pub arrive : ℕ → Bytes → WsConnection → Bytes × Turn
  unfolding serve then_do
  arrive zero s ws = (s, quiet ws)
  arrive (suc n) s ws = elim (serve ws.reading s ws) [
    | none ↦ (s, quiet ws)
    | some (rest, t) ↦ let last = arrive n rest t.0 in (last.0, then_do t (λ _. last.1))
  ]
