-- ===== src/Request.antt =====
-- libraries/prio-http/src/request.cpp: class `Request` and the parser `HttpRequest::parse`. Of the
-- state the path, headers, size, body and the `detached` flag are modelled; the connection and the
-- attributes are not.
pub mod Parse
pub mod KeepAlive
pub mod Stream
use wpp.Prelude.{
  Bytes, ℕ, Bool, true, false, Option, none, some, List, [], ◌∷◌, ◌++◌, if◌then◌else◌, ◌>>=◌,
  is_empty, codes, length, ◌==◌, ltb, find_char, take, drop, suc, str_eq,
}
use wpp.Prelude.Decimal.{print_nat}
use wpp.Cookie
use wpp.QueryParams
use wpp.Headers
use wpp.Headers.{Headers, no_headers}
use wpp.Path
use wpp.Path.{PathInfo, empty_path}

pub record Request : Type 0 where
  pub path : PathInfo
  pub headers : Headers
  pub size : ℕ
  pub body : Bytes
  pub detached : Bool

-- `Request()`, and what `HttpRequest::reset` leaves of a request: not the `detached` flag.
abbrev pub empty_request : Request
empty_request = record {
  path = empty_path;
  headers = no_headers;
  size = 0;
  body = [];
  detached = false;
}

abbrev pub reset : Request → Request
reset r = record r { size = 0; headers = no_headers; body = []; path = empty_path }

-- A call returns, throws with the object as it is by then, or reads behind the end of a vector or a
-- buffer.
pub data Outcome {ℓ} (A : Type ℓ) : Type ℓ where
  returned : A → Request → Outcome A
  thrown : Request → Outcome A
  fault : Outcome A

-- `operator[]`: a path argument, a query parameter, a cookie or the main value of a header, the first
-- of these that exists. `none` is a read behind the end of a buffer.
abbrev pub header_value : Bytes → Request → Bytes
header_value s r =
    if Headers.exists s r.headers
    then Headers.value_main (Headers.value_at (Headers.header_values (Headers.get s r.headers)) 0)
    else []

abbrev pub cookie_value : Bytes → Request → Bytes
cookie_value s r =
    if Cookie.exists s r.headers.cookies
    then (Cookie.get s r.headers.cookies).value
    else header_value s r

unfoldable pub value : Bytes → Request → Option Bytes
value s r =
    if Path.arg_exists s r.path.args
    then some (Path.arg_get s r.path.args)
    else Path.query_params r.path >>= (λ qp.
      if QueryParams.exists s qp then some (QueryParams.get s qp) else some (cookie_value s r))

unfoldable pub keep_alive : Request → Bool
keep_alive r = Headers.keep_alive r.path.protocol r.headers

-- The first `getline` of a stream: the line, and what is left behind its line feed.
pub first_line : Bytes → Option ℕ → Bytes × Bytes
first_line h none = (h, [])
first_line h (some pos) = (take pos h, drop (suc pos) h)

-- The end of `parse`, at the headers: whether there is a body, and its size.
pub finish : Option Headers → Request → Outcome Bool
finish none r = fault
finish (some headers) r =
    let len = Headers.content_length headers in
    if ltb 0 len
    then returned true (record r { headers = headers; size = len })
    else returned false (record r { headers = headers })

-- `path.parse(line)`, which may throw, and the headers.
pub parse_rest : PathInfo × Bool → Bytes → Request → Outcome Bool
unfolding finish
parse_rest (path, false) rest r = thrown (record r { path = path })
parse_rest (path, true) rest r = finish (Headers.parse rest) (record r { path = path })

-- At what `action(line)` leaves.
pub parse_action : Option PathInfo → Bytes → Bytes → Request → Outcome Bool
unfolding parse_rest
parse_action none line rest r = fault
parse_action (some path) line rest r =
    parse_rest (Path.parse line path) rest (record r { path = path; size = 0 })

pub parse_parts : Bytes × Bytes → Request → Outcome Bool
unfolding parse_action
parse_parts (line, rest) r = parse_action (Path.set_action line r.path) line rest r

-- `HttpRequest::parse(h)`.
unfoldable pub parse : Bytes → Request → Outcome Bool
unfolding parse_parts first_line find_char
parse h r = parse_parts (first_line h (find_char b'\n' h)) r

pub write : Request → Bytes
write r = r.path.action ++ (codes "\r\n" ++ (Headers.to_string r.headers ++ r.body))

-- The request that is written: a length is added to a body that has none.
pub with_length : Request → Option Request
with_length r =
    if is_empty r.body
    then some r
    else if is_empty (Headers.get (codes "CONTENT-LENGTH") r.headers)
    then Headers.set (codes "CONTENT-LENGTH") (print_nat (length r.body)) r.headers
      >>= (λ headers. some (record r { headers = headers }))
    else some r

-- `toString()`.
unfoldable pub to_string : Request → Outcome Bytes
unfolding write with_length
to_string r =
    if is_empty r.path.action
    then thrown r
    else elim (with_length r) [ none ↦ fault | some sized ↦ returned (write sized) sized ]
