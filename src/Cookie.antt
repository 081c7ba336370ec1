-- ===== src/Cookie.antt =====
-- libraries/prio-http/src/cookie.cpp: class `Cookie` and the cookie jar `Cookies`, whose state is the
-- vector `cookies_`. `none` is an access behind the end of a vector (`n[1]`).
pub mod Attributes
pub mod RoundTrip
pub mod Bare
pub mod Jar
use wpp.Prelude.{
  Bytes, ℕ, Bool, true, false, Option, none, some, List, [], ◌∷◌, ◌++◌, if◌then◌else◌, case_eq,
  ◌>>=◌, str_eq, is_empty, codes,
}
use wpp.Prelude.Decimal.{ℤ, print_int, scan_int}
use wpp.Text.{split}

pub record Cookie : Type 0 where
  pub name : Bytes
  pub value : Bytes
  pub expires : Bytes
  pub max_age : Bytes
  pub domain : Bytes
  pub path : Bytes
  pub secure : Bool

-- `Cookie()`.
abbrev pub empty_cookie : Cookie
empty_cookie = record {
  name = [];
  value = [];
  expires = [];
  max_age = [];
  domain = [];
  path = [];
  secure = false;
}

-- `Cookie(name, value)`.
abbrev pub cookie_of : Bytes → Bytes → Cookie
cookie_of name value = record empty_cookie { name = name; value = value }

-- `maxAge(int)` and `maxAge()`.
unfoldable pub set_max_age : ℤ → Cookie → Cookie
set_max_age seconds c = record c { max_age = print_int seconds }

unfoldable pub get_max_age : Cookie → ℤ
get_max_age c = scan_int c.max_age

abbrev pub when_some : Bytes → Bytes → Bytes
when_some key s = if is_empty s then [] else key ++ s

-- `str()`.
unfoldable pub str : Cookie → Bytes
str c =
    c.name
    ++ (b'=' ∷ c.value)
    ++ when_some (codes ";expires=") c.expires
    ++ when_some (codes ";max-Age=") c.max_age
    ++ when_some (codes ";domain=") c.domain
    ++ when_some (codes ";path=") c.path
    ++ (if c.secure then codes ";secure" else [])

-- `n[1]` of the pieces behind the first.
abbrev pub second : List Bytes → Option Bytes
second [] = none
second (s ∷ more) = some s

-- One round of the loop over the attributes, at the pieces that `=` cuts.
pub set_attribute : List Bytes → Cookie → Option Cookie
unfolding set_max_age
set_attribute [] c = some c
set_attribute (n ∷ more) c =
    if case_eq n (codes "expires")
    then second more >>= (λ v. some (record c { expires = v }))
    else if case_eq n (codes "max-age")
    then second more >>= (λ v. some (set_max_age (scan_int v) c))
    else if case_eq n (codes "domain")
    then second more >>= (λ v. some (record c { domain = v }))
    else if case_eq n (codes "path")
    then second more >>= (λ v. some (record c { path = v }))
    else some c

pub parse_attributes : List Bytes → Cookie → Option Cookie
unfolding set_attribute
parse_attributes [] c = some c
parse_attributes (s ∷ v) c =
    (if case_eq s (codes "secure")
      then some (record c { secure = true })
      else set_attribute (split s b'=') c)
    >>= (λ c'. parse_attributes v c')

-- The first item, at the pieces that `=` cuts, then the attributes.
pub parse_items : List Bytes → List Bytes → Option Cookie
unfolding parse_attributes
parse_items [] v = some empty_cookie
parse_items (n ∷ []) v = parse_attributes v (record empty_cookie { name = n })
parse_items (n ∷ m ∷ more) v = parse_attributes v (cookie_of n m)

-- `split(txt, ';')`, then the items.
pub parse_split : List Bytes → Option Cookie
unfolding parse_items
parse_split [] = some empty_cookie
parse_split (first ∷ v) = parse_items (split first b'=') v

-- `Cookies::parseCookie`.
unfoldable pub parse_cookie : Bytes → Option Cookie
unfolding parse_split
parse_cookie txt = parse_split (split txt b';')

abbrev pub Cookies : Type 0
Cookies = List Cookie

pub parse_each : List Bytes → Cookies → Option Cookies
unfolding parse_cookie
parse_each [] jar = some jar
parse_each (s ∷ v) jar = parse_cookie s >>= (λ c. parse_each v (jar ++ c ∷ []))

-- `Cookies::parse`, which clears the jar first.
unfoldable pub parse : Bytes → Option Cookies
unfolding parse_each
parse txt = parse_each (split txt b' ') []

unfoldable pub exists : Bytes → Cookies → Bool
exists name [] = false
exists name (c ∷ jar) = if str_eq c.name name then true else exists name jar

unfoldable pub get : Bytes → Cookies → Cookie
get name [] = empty_cookie
get name (c ∷ jar) = if str_eq c.name name then c else get name jar

-- Erases the first cookie of the name, and no other.
unfoldable pub remove : Bytes → Cookies → Cookies
remove name [] = []
remove name (c ∷ jar) = if str_eq c.name name then jar else c ∷ remove name jar

unfoldable pub add : Cookie → Cookies → Cookies
unfolding remove
add c jar = remove c.name jar ++ c ∷ []
