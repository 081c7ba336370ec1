-- ===== src/Response.antt =====
-- libraries/prio-http/src/response.cpp: the response behind its conversation. `none` is an access behind
-- the end of a vector, in the cookie parser that `Headers::set` may call.
pub mod Framing
pub mod Payload
use wpp.Prelude.{
  Bytes, ℕ, Bool, true, false, not, ◌&&◌, Option, none, some, List, [], ◌∷◌, ◌++◌, if◌then◌else◌,
  ◌>>=◌, str_eq, is_empty, codes, length,
}
use wpp.Prelude.Decimal.{ℤ, pos, scan_int, skip_space, print_nat, print_int}
use wpp.Text.{split}
use wpp.Cookie
use wpp.Cookie.{Cookie}
use wpp.Headers
use wpp.Headers.{Headers, Header, no_headers}

pub record Response : Type 0 where
  pub headers : Headers
  pub status : Bytes
  pub proto : Bytes
  pub status_code : ℤ
  pub body : Bytes
  pub size : ℕ
  pub headers_sent : Bool
  pub is_chunked : Bool
  pub is_gzipped : Bool

abbrev pub new_response : Response
new_response = record {
  headers = no_headers;
  status = [];
  proto = [];
  status_code = pos 500;
  body = [];
  size = 0;
  headers_sent = false;
  is_chunked = false;
  is_gzipped = false;
}

abbrev pub with_headers : Response → Headers → Option Response
with_headers r h = some (record r { headers = h })

unfoldable pub header : Bytes → Bytes → Response → Option Response
header key val r = Headers.set key val r.headers >>= with_headers r

unfoldable pub content_type : Bytes → Response → Option Response
unfolding header
content_type val r = header (codes "content-type") val r

unfoldable pub set_body : Bytes → Response → Response
set_body b r = if is_empty b then r else record r { body = b }

abbrev pub cookie : Cookie → Response → Response
cookie c r = record r { headers = Headers.add_cookie c r.headers }

-- The words of a status line behind its first assignment.
abbrev pub status_words : List Bytes → Response → Response
status_words (proto ∷ code ∷ more) r = record r {
  proto = proto;
  status_code = if is_empty (skip_space code) then r.status_code else scan_int code;
}
status_words _ r = r

unfoldable pub set_status : Bytes → Response → Response
set_status s r = status_words (split s b' ') (record r { status = s })

unfoldable pub ok : Response → Response
unfolding set_status
ok r = set_status (codes "HTTP/1.1 200 OK") r

unfoldable pub error : Response → Response
unfolding set_status
error r = set_status (codes "HTTP/1.1 500 internal error") r

unfoldable pub bad_request : Response → Response
unfolding set_status
bad_request r = set_status (codes "HTTP/1.1 400 bad request") r

unfoldable pub unauthorized : Response → Response
unfolding set_status
unauthorized r = set_status (codes "HTTP/1.1 401 unauthorized") r

unfoldable pub forbidden : Response → Response
unfolding set_status
forbidden r = set_status (codes "HTTP/1.1 403 forbidden") r

unfoldable pub not_found : Response → Response
unfolding set_status
not_found r = set_status (codes "HTTP/1.1 404 not found") r

unfoldable pub redirect : Bytes → ℤ → Response → Option Response
unfolding header set_status
redirect s code r =
    header (codes "location") s r
    >>= (λ moved. some (set_status (codes "HTTP/1.1 " ++ print_int code) moved))

-- The address that `redirect` makes of a path and the headers of the request; `secure` is the attribute
-- `is_secure`.
unfoldable pub absolute : Headers → Bool → Bytes → Bytes
absolute request secure s =
    let proto =
      if Headers.exists (codes "X-Forwarded-proto") request
      then Headers.get (codes "X-Forwarded-proto") request
      else if secure
      then codes "https"
      else codes "http" in
    let host =
      if Headers.exists (codes "X-Forwarded-Host") request
      then Headers.get (codes "X-Forwarded-Host") request
      else Headers.get (codes "Host") request in
    proto ++ (codes "://" ++ (host ++ s))

unfoldable pub redirect_relative : Headers → Bool → Bytes → ℤ → Response → Option Response
unfolding redirect absolute
redirect_relative request secure s code r = redirect (absolute request secure s) code r

-- The status that `toString` sets where there is none.
unfoldable pub with_status : Response → Response
unfolding set_status
with_status r = if is_empty r.status then set_status (codes "HTTP/1.0 500 Error") r else r

unfoldable pub to_string : Response → Response × Bytes
unfolding with_status
to_string r =
    let r' = with_status r in
    (r', r'.status ++ (codes "\r\n" ++ (Headers.to_string r'.headers ++ r'.body)))

abbrev pub gzip : Response → Response
gzip r = record r { is_gzipped = true }

-- The steps of `flushHeaders`, on the headers.
unfoldable pub announce_length : Bool → Bytes → Headers → Option Headers
announce_length chunked body h =
    if is_empty (Headers.get (codes "Content-Length") h) && not chunked
    then Headers.set (codes "Content-Length") (print_nat (length body)) h
    else some h

unfoldable pub drop_dash : Headers → Headers
drop_dash h =
    if str_eq (Headers.get (codes "Content-Length") h) (codes "-")
    then Headers.remove (codes "Content-Length") h
    else h

unfoldable pub announce_chunks : Bool → Headers → Option Headers
announce_chunks chunked h =
    if chunked then Headers.set (codes "TRANSFER-ENCODING") (codes "chunked") h else some h

unfoldable pub announce_gzip : Bool → Headers → Option Headers
announce_gzip gzipped h =
    if gzipped then Headers.set (codes "CONTENT-ENCODING") (codes "gzip") h else some h

unfoldable pub announce_keep_alive : Bool → Headers → Option Headers
announce_keep_alive keep h =
    if keep && str_eq (Headers.get (codes "Connection") h) []
    then Headers.set (codes "Connection") (codes "Keep-Alive") h
    else some h

unfoldable pub set_cookies : List Cookie → Headers → Option Headers
set_cookies [] h = some h
set_cookies (c ∷ cs) h = Headers.set (codes "Set-Cookie") (Cookie.str c) h >>= set_cookies cs

-- `flushHeaders`, where `keep` is `keepAlive()` of the conversation.
unfoldable pub flush_headers : Bool → Response → Option Response
unfolding announce_length drop_dash announce_chunks announce_gzip announce_keep_alive set_cookies
flush_headers keep r =
    if r.headers_sent
    then some r
    else announce_length r.is_chunked r.body r.headers
      >>= (λ h. announce_chunks r.is_chunked (drop_dash h))
      >>= announce_gzip r.is_gzipped
      >>= announce_keep_alive keep
      >>= (λ h. set_cookies h.cookies h)
      >>= (λ h. some (record r { headers = h; headers_sent = true }))

-- `HttpResponse::reset`, which leaves the protocol, the code and the size.
unfoldable pub reset : Response → Response
reset r = record r {
  status = [];
  body = [];
  headers = Headers.reset r.headers;
  is_chunked = false;
  is_gzipped = false;
  headers_sent = false;
}
