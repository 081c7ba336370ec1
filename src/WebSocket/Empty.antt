-- ===== src/WebSocket/Empty.antt =====
-- libraries/repro-web/src/websocket.cpp: frames with no message.
use wpp.Prelude.{ℕ, Bool, some, []}
use wpp.WebSocket.{WsConnection, frame_msg}
use wpp.WebSocket.Exchange.{key_behind, sized}

-- `ws` with an empty frame read but for its message.
abbrev pub stalled : Bool → ℕ → WsConnection → WsConnection
stalled c op ws = record (sized c op [] ws) {
  xorkey = key_behind c ws.xorkey;
  reading = some (frame_msg, 0);
}
