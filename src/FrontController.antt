-- ===== src/FrontController.antt =====
-- libraries/repro-web/src/front_controller.cpp and handler_info.cpp: how requests find their handlers,
-- exceptions theirs, and static files their path and type. Regular expressions of the C++ library are a
-- parameter: `regex_match` gives the submatches behind the whole match.
pub mod Routes
pub mod Files
use wpp.Prelude.{
  Bytes, ℕ, suc, Bool, true, false, not, ◌&&◌, Option, none, some, List, [], ◌∷◌, ◌++◌,
  if◌then◌else◌, ◌>>=◌, codes, str_eq, is_empty, ◌==◌, ◌||◌, take, drop, length, find_last,
  find_first,
}
use wpp.Prelude.Maps.{find, put}
use wpp.Text.{trim, split}
use wpp.Path.{PathInfo, PathArgs, add_arg, path_of}
use wpp.Request.{Request}
use wpp.UrlEncode.{decode}

-- What becomes of a request: a handler is called with it, or it is answered with `not_found`. A read
-- behind a vector or a buffer is undefined.
pub data Answer (Handler : Type 0) : Type 0 where
  invoked : Handler → Request → Answer Handler
  not_found : Request → Answer Handler
  undefined : Answer Handler

pub record HandlerInfo (Regex : Type 0) (Handler : Type 0) : Type 0 where
  pub method : Bytes
  pub path_regex : Regex
  pub args : List Bytes
  pub handler : Handler

-- The path arguments that `HttpRequest::match` sets, one for each submatch.
abbrev pub set_args : List Bytes → List Bytes → PathInfo → Option PathInfo
set_args args [] p = some p
set_args [] (m ∷ ms) p = none
set_args (a ∷ args) (m ∷ ms) p = set_args args ms (add_arg (a, m) p)

abbrev pub matched : Option (List Bytes) → List Bytes → Request → Option (Bool × Request)
matched none args r = some (false, r)
matched (some ms) args r = set_args args ms r.path >>= (λ p. some (true, record r { path = p }))

-- The arguments that `HandlerInfo::match` decodes; a submatch that is not there is empty.
abbrev pub decode_args : List Bytes → List Bytes → Option PathArgs
decode_args [] ms = some []
decode_args (a ∷ args) [] =
    decode [] >>= (λ v. decode_args args [] >>= (λ rest. some ((a, v) ∷ rest)))
decode_args (a ∷ args) (m ∷ ms) =
    decode m >>= (λ v. decode_args args ms >>= (λ rest. some ((a, v) ∷ rest)))

abbrev pub static_matched : Option (List Bytes) → List Bytes → Option Bool
static_matched none args = some false
static_matched (some ms) args = decode_args args ms >>= (λ result. some true)

module _ {Regex : Type 0} {Handler : Type 0}
    (regex_match : Regex → Bytes → Option (List Bytes)) where
  -- `HttpRequest::match`.
  unfoldable pub request_match : HandlerInfo Regex Handler → Request → Option (Bool × Request)
  request_match h r =
      if str_eq r.path.method h.method
      then matched (regex_match h.path_regex (path_of r.path)) h.args r
      else some (false, r)

  -- `HandlerInfo::match`.
  unfoldable pub static_match : HandlerInfo Regex Handler → Bytes → Bytes → Option Bool
  static_match h method path =
      if str_eq method h.method
      then static_matched (regex_match h.path_regex path) h.args
      else some false

  unfoldable pub find_static :
      List (HandlerInfo Regex Handler) → Bytes → Bytes → Request → Answer Handler
  unfolding static_match
  find_static [] method path r = not_found r
  find_static (h ∷ hs) method path r = elim (static_match h method path) [
    | none ↦ undefined
    | some true ↦ invoked h.handler r
    | some false ↦ find_static hs method path r
  ]

  -- `find_handler`, and the call of what it finds.
  unfoldable pub find_handler :
      List (HandlerInfo Regex Handler)
      → List (HandlerInfo Regex Handler)
      → Bytes
      → Bytes
      → Request
      → Answer Handler
  unfolding request_match find_static
  find_handler [] statics path method r = find_static statics method path r
  find_handler (h ∷ hs) statics path method r = elim (request_match h r) [
    | none ↦ undefined
    | some (true, r') ↦ invoked h.handler r'
    | some (false, r') ↦ find_handler hs statics path method r'
  ]

  -- `dispatch`.
  unfoldable pub dispatch :
      List (HandlerInfo Regex Handler)
      → List (HandlerInfo Regex Handler)
      → Bytes
      → Request
      → Answer Handler
  unfolding find_handler
  dispatch hs statics path r = find_handler hs statics path r.path.method r

-- `handle_exception`: the first handler of just this type, or else the first of a base of it; `none` is
-- the error response.
module _ {Exception : Type 0} {Handler : Type 0} (match isa : Handler → Exception → Bool) where
  unfoldable pub first_of : (Handler → Exception → Bool) → List Handler → Exception → Option Handler
  first_of test [] ex = none
  first_of test (h ∷ hs) ex = if test h ex then some h else first_of test hs ex

  unfoldable pub handle_exception : List Handler → Exception → Option Handler
  unfolding first_of
  handle_exception hs ex = elim (first_of match hs ex) [
    | some h ↦ some h
    | none ↦ first_of isa hs ex
  ]

-- The extensions of one line, in the map of a static handler.
abbrev pub set_extensions : List Bytes → Bytes → List (Bytes × Bytes) → List (Bytes × Bytes)
set_extensions [] mime m = m
set_extensions (e ∷ es) mime m = set_extensions es mime (put e mime m)

abbrev pub is_blank : ℕ → Bool
is_blank c = c == b' ' || c == b'\t' || c == b'\r' || c == b'\n'

abbrev pub mime_at : Option ℕ → Bytes → List (Bytes × Bytes) → List (Bytes × Bytes)
mime_at none line m = m
mime_at (some pos) line m = set_extensions (split (trim (drop pos line)) b' ') (take pos line) m

-- One line of the file of types, trimmed.
abbrev pub mime_line : Bytes → List (Bytes × Bytes) → List (Bytes × Bytes)
mime_line [] m = m
mime_line (c ∷ s) m = if c == b'#' then m else mime_at (find_first is_blank (c ∷ s)) (c ∷ s) m

unfoldable pub read_mimes : List Bytes → List (Bytes × Bytes) → List (Bytes × Bytes)
read_mimes [] m = m
read_mimes (line ∷ lines) m = read_mimes lines (mime_line (trim line) m)

abbrev pub mime_of : Option Bytes → Bytes
mime_of none = codes "text/plain"
mime_of (some mime) = mime

-- `get_mime`.
unfoldable pub get_mime : List (Bytes × Bytes) → Bytes → Bytes
get_mime mimes fp = elim (find_last (λ c. c == b'.') fp) [
  | none ↦ codes "text/plain"
  | some pos ↦ mime_of (find (drop (suc pos) fp) mimes)
]

-- The answer of the static handler; `real_path` is the system's, and `none` where it throws.
pub data FileAnswer : Type 0 where
  file : Bytes → Bytes → FileAnswer
  missing : FileAnswer
  refused : FileAnswer

abbrev pub serve_path : Bytes → List (Bytes × Bytes) → Option Bytes → FileAnswer
serve_path base mimes none = missing
serve_path base mimes (some path) =
    if str_eq (take (length base) path) base then file path (get_mime mimes path) else refused

unfoldable pub serve_file :
    (Bytes → Option Bytes) → Bytes → List (Bytes × Bytes) → Bytes → FileAnswer
serve_file real_path base mimes path = serve_path base mimes (real_path (base ++ path))
