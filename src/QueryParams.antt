-- ===== src/QueryParams.antt =====
-- libraries/prio-http/src/queryparams.cpp: class `QueryParams`, whose state is the vector `params_`
-- of pairs. `none` is a read behind the end of a buffer, in `Urlencode::decode`.
pub mod Laws
pub mod RoundTrip
use mathlib.Core.List.{filter_map}
use wpp.Prelude.{
  Bytes, ℕ, suc, zero, ◌+◌, Bool, true, false, Option, none, some, List, [], ◌∷◌, ◌++◌,
  if◌then◌else◌, case_eq, ◌>>=◌, str_eq, ltb, ◌==◌, ◌&&◌, ◌||◌, is_empty, length,
}
use wpp.Text.{split}
use wpp.UrlEncode.{decode, encode}

abbrev pub Param : Type 0
Param = Bytes × Bytes

abbrev pub QueryParams : Type 0
QueryParams = List Param

-- What one item adds, cut at `=`: the first two pieces, or nothing.
pub add_pieces : List Bytes → QueryParams → Option QueryParams
add_pieces (name ∷ value ∷ more) params = do
  k ← decode name
  v ← decode value
  some (params ++ (k, v) ∷ [])
add_pieces _ params = some params

pub parse_items : List Bytes → QueryParams → Option QueryParams
unfolding add_pieces
parse_items [] params = some params
parse_items (item ∷ items) params = do
  next ← if is_empty item then some params else add_pieces (split item b'=') params
  parse_items items next

-- The constructor from a query string.
unfoldable pub parse : Bytes → Option QueryParams
unfolding parse_items
parse s = parse_items (split s b'&') []

unfoldable pub exists : Bytes → QueryParams → Bool
exists key [] = false
exists key ((k, v) ∷ q) = if case_eq k key then true else exists key q

unfoldable pub get : Bytes → QueryParams → Bytes
get key [] = []
get key ((k, v) ∷ q) = if case_eq k key then v else get key q

unfoldable pub array : Bytes → QueryParams → List Bytes
array key [] = []
array key ((k, v) ∷ q) = (if case_eq k key then v ∷ [] else []) ++ array key q

unfoldable pub remove : Bytes → QueryParams → QueryParams
remove key [] = []
remove key ((k, v) ∷ q) = if case_eq k key then remove key q else (k, v) ∷ remove key q

-- `operator<` on strings, and `std::set<std::string>::insert`.
pub str_lt : Bytes → Bytes → Bool
str_lt [] [] = false
str_lt [] (y ∷ ys) = true
str_lt (x ∷ xs) [] = false
str_lt (x ∷ xs) (y ∷ ys) = ltb x y || (x == y && str_lt xs ys)

pub set_insert : Bytes → List Bytes → List Bytes
unfolding str_lt str_eq
set_insert k [] = k ∷ []
set_insert k (j ∷ js) =
    if str_eq k j then j ∷ js else if str_lt k j then k ∷ j ∷ js else j ∷ set_insert k js

pub insert_keys : QueryParams → List Bytes → List Bytes
insert_keys [] v = v
insert_keys ((k, w) ∷ q) v = insert_keys q (set_insert k v)

unfoldable pub keys : QueryParams → List Bytes
unfolding insert_keys set_insert
keys q = insert_keys q []

unfoldable pub add : Bytes → Bytes → QueryParams → QueryParams
add key value q = q ++ (key, value) ∷ []

unfoldable pub set : Bytes → Bytes → QueryParams → QueryParams
unfolding remove add
set key value q = add key value (remove key q)

-- `operator[]`: the position of the parameter whose value the reference stands for, and the
-- parameters, to which one is added if none has the key.
pub index_from : Bytes → QueryParams → ℕ × QueryParams
index_from key [] = (0, (key, []) ∷ [])
index_from key ((k, v) ∷ q) =
    let rest = index_from key q in
    if case_eq k key then (0, (k, v) ∷ q) else (suc rest.0, (k, v) ∷ rest.1)

-- A write through the reference.
pub assign : ℕ → Bytes → QueryParams → QueryParams
assign i value [] = []
assign zero value ((k, v) ∷ q) = (k, value) ∷ q
assign (suc i) value ((k, v) ∷ q) = (k, v) ∷ assign i value q

-- `params[key] = value`.
unfoldable pub assign_at : Bytes → Bytes → QueryParams → QueryParams
unfolding index_from assign
assign_at key value q = let r = index_from key q in assign r.0 value r.1

pub write_params : QueryParams → Bytes
write_params [] = []
write_params ((k, v) ∷ q) = k ++ (b'=' ∷ (encode v ++ (b'&' ∷ write_params q)))

-- `pop_back`, of a string that is not empty.
pub pop_back : Bytes → Bytes
pop_back [] = []
pop_back (c ∷ []) = []
pop_back (c ∷ d ∷ s) = c ∷ pop_back (d ∷ s)

unfoldable pub to_string : QueryParams → Bytes
unfolding write_params pop_back
to_string [] = []
to_string (p ∷ q) = pop_back (write_params (p ∷ q))
