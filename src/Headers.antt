-- ===== src/Headers.antt =====
-- libraries/prio-http/src/header.cpp: the classes `HeaderValue`, `HeaderValues` and `Headers`. `none`
-- is an access behind the end of a vector, in the cookie parser.
pub mod Laws
pub mod RoundTrip
use wpp.Prelude.{
  Bytes, ℕ, zero, suc, Bool, true, false, not, Option, none, some, List, [], ◌∷◌, ◌++◌,
  if◌then◌else◌, case_eq, ◌>>=◌, str_eq, is_empty, codes, find_char, take, drop, ◌==◌, map, length,
  get_or, ltb,
}
use wpp.Prelude.Decimal.{scan_size}
use wpp.Text.{split, trim, unquote}
use wpp.Cookie
use wpp.Cookie.{Cookie, Cookies}

-- `main()` of a `HeaderValue`.
abbrev pub first_or_empty : List Bytes → Bytes
first_or_empty [] = []
first_or_empty (s ∷ more) = s

unfoldable pub value_main : Bytes → Bytes
value_main value = first_or_empty (split (trim value) b';')

-- `std::map<std::string, std::string>` as an association list, with `result[key] = value` and lookup.
abbrev pub Params : Type 0
Params = List (Bytes × Bytes)

unfoldable pub assign : Bytes → Bytes → Params → Params
assign key value [] = (key, value) ∷ []
assign key value ((k, v) ∷ m) = if str_eq k key then (k, value) ∷ m else (k, v) ∷ assign key value m

unfoldable pub lookup : Bytes → Params → Option Bytes
lookup key [] = none
lookup key ((k, v) ∷ m) = if str_eq k key then some v else lookup key m

pub add_pieces : List Bytes → Params → Params
unfolding assign
add_pieces (k ∷ v ∷ more) result = assign (trim k) (unquote (trim v)) result
add_pieces _ result = result

pub add_items : List Bytes → Params → Params
unfolding add_pieces
add_items [] result = result
add_items (item ∷ items) result = add_items items (add_pieces (split (trim item) b'=') result)

-- The items behind the first.
abbrev pub rest_of : List Bytes → List Bytes
rest_of [] = []
rest_of (s ∷ more) = more

-- `params()` of a `HeaderValue`.
unfoldable pub value_params : Bytes → Params
unfolding add_items
value_params value = add_items (rest_of (split (trim value) b';')) []

-- `HeaderValues`: the items between commas, and `operator[]`, which gives the empty value where there
-- is no item.
unfoldable pub header_values : Bytes → List Bytes
header_values val = split val b','

unfoldable pub value_at : List Bytes → ℕ → Bytes
value_at values index = get_or values index []

abbrev pub Header : Type 0
Header = Bytes × Bytes

pub record Headers : Type 0 where
  pub headers : List Header
  pub cookies : Cookies

abbrev pub no_headers : Headers
no_headers = record { headers = []; cookies = [] }

unfoldable pub get_in : Bytes → List Header → Bytes
get_in key [] = []
get_in key ((k, v) ∷ hs) = if case_eq k key then v else get_in key hs

unfoldable pub exists_in : Bytes → List Header → Bool
exists_in key [] = false
exists_in key ((k, v) ∷ hs) = if case_eq k key then true else exists_in key hs

unfoldable pub remove_in : Bytes → List Header → List Header
remove_in key [] = []
remove_in key ((k, v) ∷ hs) = if case_eq k key then hs else (k, v) ∷ remove_in key hs

abbrev pub get : Bytes → Headers → Bytes
get key h = get_in key h.headers

abbrev pub exists : Bytes → Headers → Bool
exists key h = exists_in key h.headers

abbrev pub remove : Bytes → Headers → Headers
remove key h = record h { headers = remove_in key h.headers }

-- `set`: appends, and reads the cookies anew from the first `Cookie` header.
unfoldable pub set : Bytes → Bytes → Headers → Option Headers
set key val h =
    let appended = record h { headers = h.headers ++ (key, val) ∷ [] } in
    if case_eq key (codes "COOKIE")
    then Cookie.parse (get (codes "COOKIE") appended)
      >>= (λ jar. some (record appended { cookies = jar }))
    else some appended

-- `cookie(c)`.
abbrev pub add_cookie : Cookie → Headers → Headers
add_cookie c h = record h { cookies = Cookie.add c h.cookies }

abbrev pub reset : Headers → Headers
reset h = no_headers

unfoldable pub keep_alive : Bytes → Headers → Bool
keep_alive proto h =
    let conn = get (codes "Connection") h in
    if is_empty conn
    then case_eq proto (codes "HTTP/1.1")
    else if case_eq conn (codes "Close")
    then false
    else case_eq conn (codes "Keep-Alive")

unfoldable pub content_length : Headers → ℕ
content_length h = let s = get (codes "CONTENT-LENGTH") h in if is_empty s then 0 else scan_size s

unfoldable pub content_type : Headers → Bytes
content_type h = get (codes "CONTENT-TYPE") h

unfoldable pub accept : Headers → Bytes
accept h = get (codes "ACCEPT") h

pub write_headers : List Header → Bytes
write_headers [] = []
write_headers ((k, v) ∷ hs) = k ++ (b':' ∷ (v ++ (b'\r' ∷ b'\n' ∷ write_headers hs)))

unfoldable pub to_string : Headers → Bytes
unfolding write_headers
to_string h = write_headers h.headers ++ codes "\r\n"

-- The lines that `getline` returns; the last is empty where the text ends in a line feed.
unfoldable pub lines_from : Bytes → Bytes → List Bytes
lines_from [] line = line ∷ []
lines_from (c ∷ s) line = elim (c == b'\n') [
  | true ↦ line ∷ lines_from s []
  | false ↦ lines_from s (line ++ c ∷ [])
]

-- One line that is not empty, cut at its first colon.
unfoldable pub set_line : Bytes → Option ℕ → Headers → Option Headers
unfolding set
set_line line none h = set line [] h
set_line line (some pos) h = set (trim (take pos line)) (trim (drop (suc pos) line)) h

-- The loop ends at an empty line, or where the stream does.
unfoldable pub parse_lines : List Bytes → Headers → Option Headers
unfolding set_line find_char
parse_lines [] h = some h
parse_lines (line ∷ lines) h =
    if is_empty line
    then some h
    else set_line line (find_char b':' line) h >>= (λ h'. parse_lines lines h')

-- `parse(istringstream&)`, which resets the headers first.
unfoldable pub parse : Bytes → Option Headers
unfolding parse_lines lines_from
parse text = parse_lines (lines_from text []) no_headers
