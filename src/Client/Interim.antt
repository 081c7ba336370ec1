-- ===== src/Client/Interim.antt =====
-- libraries/prio-http/src/client_conversation.cpp: an interim response.
use mathlib.Core.List.{flatten}
use wpp.Prelude.{Bytes, Option, List, ◌++◌, codes, ◌≡◌}
use wpp.Prelude.Decimal.{pos}
use wpp.Reader
use wpp.Reader.{HeaderReader, BodyReader, Next, more, complete, consume_at}
use wpp.Response.{Response, new_response}
use wpp.Client.{resolved, new_client, hear}

abbrev pub continue_line : Bytes
continue_line = codes "HTTP/1.1 100 Continue"

-- What a client makes of an interim response and of what follows it.
pub record TakenAsFinal (inflate : Bytes → Option Bytes) (chunks : List Bytes) (following : Bytes)
    : Type 0 where
  pub answer : Response
  pub unread : List Bytes
  pub hears : hear inflate chunks new_client ≡ resolved answer
  pub status : answer.status ≡ continue_line
  pub body : answer.body ++ flatten unread ≡ following

abbrev continue_response : Response
continue_response = record new_response {
  status = continue_line;
  proto = codes "HTTP/1.1";
  status_code = pos 100;
}
