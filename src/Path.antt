-- ===== src/Path.antt =====
-- libraries/prio-http/src/path.cpp and arg.cpp: the classes `PathInfo` and `Args`.
pub mod Laws
use mathlib.Core.Option
use wpp.Prelude.{
  Bytes, ℕ, suc, ◌+◌, ◌-◌, Bool, true, false, not, Option, none, some, List, [], ◌∷◌, ◌++◌,
  if◌then◌else◌, ◌>>=◌, str_eq, codes, find_char, find_char_from, find_first, take, drop, substr,
  ◌==◌, leb, length,
}
use wpp.Text.{split_str}
use wpp.QueryParams
use wpp.QueryParams.{QueryParams}

-- `patharguments_t`, and the lookups of `Args`.
abbrev pub PathArgs : Type 0
PathArgs = List (Bytes × Bytes)

unfoldable pub arg_exists : Bytes → PathArgs → Bool
arg_exists key [] = false
arg_exists key ((k, v) ∷ args) = if str_eq k key then true else arg_exists key args

unfoldable pub arg_get : Bytes → PathArgs → Bytes
arg_get key [] = []
arg_get key ((k, v) ∷ args) = if str_eq k key then v else arg_get key args

pub record PathInfo : Type 0 where
  pub action : Bytes
  pub method : Bytes
  pub path : Bytes
  pub protocol : Bytes
  pub args : PathArgs

-- `reset()`, which is also the state of a new object.
abbrev pub empty_path : PathInfo
empty_path = record { action = []; method = []; path = []; protocol = []; args = [] }

pub set_parts : List Bytes → PathInfo → PathInfo
set_parts (m ∷ q ∷ more) p = record p { method = m; path = q }
set_parts _ p = p

-- `action(a)`; `none` is a split that runs out of fuel.
unfoldable pub set_action : Bytes → PathInfo → Option PathInfo
unfolding set_parts
set_action a p = split_str a (codes " ") >>= (λ v. some (set_parts v (record p { action = a })))

-- `querystring()` and `path()`, at the position of the first `?`.
pub query_at : Bytes → Option ℕ → Bytes
query_at url none = []
query_at url (some pos) = if leb (length url - 1) pos then [] else drop (pos + 1) url

pub path_at : Bytes → Option ℕ → Bytes
path_at url none = url
path_at url (some pos) = take pos url

unfoldable pub querystring : PathInfo → Bytes
unfolding query_at find_char
querystring p = query_at p.path (find_char b'?' p.path)

unfoldable pub path_of : PathInfo → Bytes
unfolding path_at find_char
path_of p = path_at p.path (find_char b'?' p.path)

unfoldable pub query_params : PathInfo → Option QueryParams
unfolding querystring
query_params p = QueryParams.parse (querystring p)

-- `set(t)`.
abbrev pub add_arg : Bytes × Bytes → PathInfo → PathInfo
add_arg t p = record p { args = p.args ++ t ∷ [] }

-- `line.find_first_not_of(" ", pos)`.
pub not_space_from : Bytes → ℕ → Option ℕ
unfolding find_first
not_space_from line pos =
    Option.map (λ i. pos + i) (find_first (λ c. not (c == 32)) (drop pos line))

-- The object after a call, and whether the call returned. A call that throws leaves the fields that it
-- has set before.
abbrev pub Called : Type 0
Called = PathInfo × Bool

-- The protocol begins at the first byte behind the blanks.
pub parse_protocol : Bytes → Option ℕ → PathInfo → Called
parse_protocol line none p = (p, false)
parse_protocol line (some pos) p = (record p { protocol = drop pos line }, true)

pub parse_path_end : Bytes → ℕ → Option ℕ → PathInfo → Called
unfolding parse_protocol not_space_from
parse_path_end line pos1 none p = (p, false)
parse_path_end line pos1 (some pos2) p =
    parse_protocol line (not_space_from line pos2)
      (record p { path = substr line pos1 (pos2 - pos1) })

pub parse_path : Bytes → Option ℕ → PathInfo → Called
unfolding parse_path_end find_char
parse_path line none p = (p, false)
parse_path line (some pos1) p = parse_path_end line pos1 (find_char_from 32 line pos1) p

pub parse_method : Bytes → Option ℕ → PathInfo → Called
unfolding parse_path not_space_from
parse_method line none p = (p, false)
parse_method line (some pos1) p =
    parse_path line (not_space_from line pos1) (record p { method = take pos1 line })

-- `parse(line)`: false where it throws "invalid http action".
unfoldable pub parse : Bytes → PathInfo → Called
unfolding parse_method find_char
parse line p = parse_method line (find_char 32 line) p
