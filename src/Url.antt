-- ===== src/Url.antt =====
-- libraries/prio/src/url.cpp: class `Url`. `none` is an undefined result of `atoi`, whose text is no
-- `int`, or a loop out of fuel.
pub mod Query
pub mod Ends
pub mod Host
pub mod Steps
pub mod FullPath
pub mod RoundTrip
use mathlib.Core.Option
use wpp.Prelude.{
  Bytes, ℕ, zero, suc, ◌+◌, ◌-◌, Bool, true, false, not, ◌&&◌, ◌||◌, Option, none, some, List, [],
  ◌∷◌, ◌++◌, if◌then◌else◌, ◌>>=◌, is_empty, codes, case_eq, str_eq, find_char, find_char_from,
  find_str, find_first, find_last, take, drop, substr, length, get_or, ◌==◌, ltb,
}
use wpp.Prelude.Decimal.{ℤ, pos, negsuc, print_int, atoi}

pub record Url : Type 0 where
  pub host : Bytes
  pub port : ℤ
  pub proto : Bytes
  pub path : Bytes
  pub anchor : Bytes
  pub user : Bytes
  pub pwd : Bytes
  pub params : List (Bytes × Bytes)

-- `Url()`.
abbrev pub empty_url : Url
empty_url = record {
  host = [];
  port = pos 80;
  proto = [];
  path = [];
  anchor = [];
  user = [];
  pwd = [];
  params = [];
}

-- The loop of `setQuery` from `at`: the parameters that it pushes. `none`: out of fuel.
unfoldable pub query_loop : ℕ → Bytes → ℕ → Option (List (Bytes × Bytes))
unfolding find_char
query_loop zero query at = none
query_loop (suc fuel) query at = elim (find_char_from b'=' query at) [
  | none ↦ some ((drop at query, []) ∷ [])
  | some p ↦ elim (find_char_from b'&' query (p + 1)) [
    | none ↦ some ((substr query at (p - at), drop (p + 1) query) ∷ [])
    | some a ↦
        Option.map (λ params. (substr query at (p - at), substr query (p + 1) (a - p - 1)) ∷ params)
          (query_loop fuel query (a + 1))
  ]
]

-- The parameters that `setQuery(query)` leaves.
unfoldable pub parse_query : Bytes → Option (List (Bytes × Bytes))
unfolding query_loop
parse_query [] = some []
parse_query (c ∷ query) =
    query_loop (suc (length (c ∷ query))) (c ∷ query) (if c == b'?' then 1 else 0)

unfoldable pub set_query : Bytes → Url → Option Url
unfolding parse_query
set_query query u = parse_query query >>= (λ params. some (record u { params = params }))

-- The anchor that `setAnchor(anchor)` leaves.
unfoldable pub anchor_of : Bytes → Bytes
anchor_of [] = []
anchor_of (c ∷ s) = if c == b'#' then s else []

unfoldable pub set_anchor : Bytes → Url → Url
unfolding anchor_of
set_anchor anchor u = record u { anchor = anchor_of anchor }

pub set_path_query : Option ℕ → Url → Option Url
unfolding set_query
set_path_query none u = some u
set_path_query (some at) u =
    set_query (drop at u.path) u >>= (λ v. some (record v { path = take at v.path }))

pub set_path_anchor : Bytes → Option ℕ → Url → Url
unfolding set_anchor
set_path_anchor p none u = record u { path = p }
set_path_anchor p (some at) u = record (set_anchor (drop at p) u) { path = take at p }

-- `setFullPath(p)`.
unfoldable pub set_full_path : Bytes → Url → Option Url
unfolding set_path_anchor set_path_query find_char
set_full_path p u =
    let v = set_path_anchor p (find_char b'#' p) u in set_path_query (find_char b'?' v.path) v

abbrev pub default_port : Bytes → ℤ
default_port proto =
    if case_eq proto (codes "ssh") || case_eq proto (codes "scp")
    then pos 22
    else if case_eq proto (codes "https")
    then pos 443
    else pos 80

-- The steps of `set(url)`, each at the position of the separator that it looks for.
pub set_scheme : Bytes → Option ℕ → Url → Url
set_scheme url none u = record u { proto = codes "http"; port = pos 80; host = url }
set_scheme url (some at) u = record u {
  proto = take at url;
  port = default_port (take at url);
  host = drop (at + 3) url;
}

-- The path behind the host, `/` if there is none, and the host, without a colon at its end if it has a
-- path behind it.
pub cut_path : Option ℕ → Url → Bytes × Url
cut_path none u = (codes "/", u)
cut_path (some at) u =
    let host = take at u.host in
    (
      drop at u.host,
      record u {
        host =
            if ltb 0 at && get_or host (at - 1) 0 == b':'
            then take (length host - 1) host
            else host;
      },
    )

pub set_user_pwd : Bytes → Option ℕ → Url → Url
set_user_pwd tmp none u = record u { user = tmp }
set_user_pwd tmp (some at) u = record u { user = take at tmp; pwd = drop (at + 1) tmp }

pub cut_user : Option ℕ → Url → Url
unfolding set_user_pwd find_char
cut_user none u = u
cut_user (some at) u =
    let tmp = take at u.host in
    set_user_pwd tmp (find_char b':' tmp) (record u { host = drop (at + 1) u.host })

pub cut_port : Option ℕ → Url → Option Url
unfolding atoi
cut_port none u = some u
cut_port (some at) u =
    atoi (drop (at + 1) u.host) >>= (λ port. some (record u { port = port; host = take at u.host }))

pub set_authority : Bytes × Url → Option Url
unfolding cut_user cut_port set_full_path find_char
set_authority (path, u) =
    let v = cut_user (find_char b'@' u.host) u in
    cut_port (find_char b':' v.host) v >>= set_full_path path

-- `set(url)`.
unfoldable pub set : Bytes → Url → Option Url
unfolding set_scheme cut_path set_authority find_char find_str
set url u =
    let v = set_scheme url (find_str (codes "://") url) u in
    set_authority (cut_path (find_char b'/' v.host) v)

-- One parameter as `getQuery` writes it.
pub write_param : Bytes × Bytes → Bytes
write_param (key, val) = key ++ (if is_empty val then [] else b'=' ∷ val)

pub write_params : List (Bytes × Bytes) → Bytes
unfolding write_param
write_params [] = []
write_params (p ∷ []) = write_param p
write_params (p ∷ q ∷ ps) = write_param p ++ b'&' ∷ write_params (q ∷ ps)

-- `getQuery()`, of the parameters.
unfoldable pub query_of : List (Bytes × Bytes) → Bytes
unfolding write_params
query_of [] = []
query_of (p ∷ ps) = b'?' ∷ write_params (p ∷ ps)

abbrev pub anchor_text : Bytes → Bytes
anchor_text anchor = if is_empty anchor then [] else b'#' ∷ anchor

-- `getFullPath()`.
unfoldable pub full_path : Url → Bytes
unfolding query_of
full_path u = u.path ++ (query_of u.params ++ anchor_text u.anchor)

abbrev pub user_text : Bytes → Bytes → Bytes
user_text user pwd =
    if is_empty user then [] else user ++ ((if is_empty pwd then [] else b':' ∷ pwd) ++ b'@' ∷ [])

abbrev pub is_shown : ℤ → Bool
is_shown (pos n) = not (n == 80 || n == 443 || n == 22)
is_shown (negsuc n) = true

abbrev pub port_text : ℤ → Bytes
port_text port = if is_shown port then b':' ∷ print_int port else []

-- `toString()`.
unfoldable pub to_string : Url → Bytes
unfolding full_path
to_string u =
    u.proto
    ++ (codes "://" ++ (user_text u.user u.pwd ++ (u.host ++ (port_text u.port ++ full_path u))))

abbrev pub is_slash : ℕ → Bool
is_slash c = c == b'/' || c == b'\\'

-- `setHost(host)`: the second cut is at a position in the argument, not in what the first cut left.
unfoldable pub host_of : Bytes → Bytes
unfolding find_first find_last
host_of host =
    let first : Bytes = elim (find_first (λ c. not (is_slash c)) host) [
      | none ↦ host
      | some at ↦ drop at host
    ] in
    elim (find_last (λ c. not (is_slash c)) host) [ none ↦ first | some at ↦ take (at + 1) first ]

-- `setProto(proto)`, `setPath(path)`.
unfoldable pub proto_of : Bytes → Bytes
unfolding find_str
proto_of proto = elim (find_str (codes "://") proto) [ none ↦ proto | some at ↦ take at proto ]

unfoldable pub path_of : Bytes → Bytes
path_of [] = codes "/"
path_of (c ∷ path) = if c == b'/' then c ∷ path else b'/' ∷ c ∷ path

abbrev pub drop_last_slash : Bytes → Bytes
drop_last_slash s =
    if not (is_empty s) && get_or s (length s - 1) 0 == b'/' then take (length s - 1) s else s

-- `getParentDir()`.
unfoldable pub parent_dir : Url → Bytes
unfolding find_last
parent_dir u =
    let dir = drop_last_slash u.path in
    elim (find_last (λ c. c == b'/') dir) [
      | none ↦ dir
      | some at ↦ if at == 0 then dir else take at dir
    ]

unfoldable pub add_param : Bytes → Bytes → Url → Url
add_param key val u = record u { params = u.params ++ (key, val) ∷ [] }

pub first_param : Bytes → List (Bytes × Bytes) → Bytes
first_param key [] = []
first_param key ((k, v) ∷ ps) = if str_eq k key then v else first_param key ps

pub all_params : Bytes → List (Bytes × Bytes) → List Bytes
all_params key [] = []
all_params key ((k, v) ∷ ps) = (if str_eq k key then v ∷ [] else []) ++ all_params key ps

-- `getParam(key)` and `getParams(key)`.
unfoldable pub get_param : Bytes → Url → Bytes
unfolding first_param
get_param key u = first_param key u.params

unfoldable pub get_params : Bytes → Url → List Bytes
unfolding all_params
get_params key u = all_params key u.params
