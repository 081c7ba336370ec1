-- ===== src/Tests/Params.antt =====
-- Query parameters, cookies and urls at concrete inputs.
use wpp.Prelude.{Bytes, true, some, List, [], ◌∷◌, ◌++◌, ◌≡◌, refl, All, codes, arith}
use wpp.Prelude.Decimal.{pos, print_int}
use wpp.QueryParams
use wpp.QueryParams.RoundTrip
use wpp.QueryParams.RoundTrip.{parse-to_string}
use wpp.UrlEncode.RoundTrip.{blank_as_space}
use wpp.Cookie
use wpp.Cookie.{Cookie, Cookies, cookie_of, empty_cookie}
use wpp.Cookie.Attributes.{IsField, age, IsWritable}
use wpp.Cookie.RoundTrip.{parse_cookie-str}
use wpp.Cookie.Jar.{Distinct}
use wpp.Url
use wpp.Url.{Url, empty_url, set, parse_query, query_of}
use wpp.Url.Query.{IsEntry}
use wpp.Url.RoundTrip.{IsClean, set-to_string}
use wpp.Tests.Checks.{lacks_sound}

abbrev two_params : QueryParams.QueryParams
two_params = (codes "a", codes "1") ∷ (codes "b", codes "2 3") ∷ []

two_params-IsWritable : All QueryParams.RoundTrip.IsWritable two_params
unfolding blank_as_space
two_params-IsWritable = (
  (
    (λ e. cc),
    ((omega arith, omega arith, omega arith, omega arith, omega arith), tt),
    (λ e. cc),
    ((omega arith, omega arith, refl), tt),
  ),
  (
    (
      (λ e. cc),
      ((omega arith, omega arith, omega arith, omega arith, omega arith), tt),
      (λ e. cc),
      (
        (omega arith, omega arith, refl),
        ((omega arith, omega arith, refl), ((omega arith, omega arith, refl), tt)),
      ),
    ),
    tt,
  ),
)

params_round_trip_example : QueryParams.parse (QueryParams.to_string two_params) ≡ some two_params
params_round_trip_example = parse-to_string two_params two_params-IsWritable

abbrev session : Cookie
session = record (cookie_of (codes "sid") (codes "42")) { max_age = codes "60"; secure = true }

abbrev other : Cookie
other = cookie_of (codes "lang") (codes "de")

empty-IsField : IsField []
empty-IsField = (tt, tt)

sixty : codes "60" ≡ print_int (pos 60)
unfolding print_int
sixty = refl

session-IsWritable : IsWritable session
session-IsWritable = record {
  name_ne_nil = λ e. cc;
  name_field = (lacks_sound b';' (codes "sid") refl, lacks_sound b'=' (codes "sid") refl);
  value_field = (lacks_sound b';' (codes "42") refl, lacks_sound b'=' (codes "42") refl);
  expires_field = empty-IsField;
  age_valid = age (pos 60) (omega arith) sixty;
  domain_field = empty-IsField;
  path_field = empty-IsField;
}

parse_cookie-str_example : Cookie.parse_cookie (Cookie.str session) ≡ some session
parse_cookie-str_example = parse_cookie-str session session-IsWritable

jar-Distinct : Distinct (other ∷ [])
jar-Distinct = (unfold Cookie.exists in refl, tt)

abbrev entries : List (Bytes × Bytes)
entries = (codes "k", codes "v") ∷ (codes "l", codes "w=") ∷ []

entries-IsEntry : All IsEntry entries
entries-IsEntry = (
  record {
    key_free = lacks_sound b'=' (codes "k") refl;
    value_free = lacks_sound b'&' (codes "v") refl;
    has_value = λ e. cc;
  },
  (
    record {
      key_free = lacks_sound b'=' (codes "l") refl;
      value_free = lacks_sound b'&' (codes "w=") refl;
      has_value = λ e. cc;
    },
    tt,
  ),
)

abbrev site : Url
site = record {
  host = codes "example.org";
  port = pos 8080;
  proto = codes "https";
  path = codes "/a/b";
  anchor = codes "top";
  user = codes "me";
  pwd = codes "pw";
  params = entries;
}

site-IsClean : IsClean site
unfolding Url.query_of
site-IsClean = record {
  proto_colon = lacks_sound b':' (codes "https") refl;
  user_at = lacks_sound b'@' (codes "me") refl;
  user_colon = lacks_sound b':' (codes "me") refl;
  user_slash = lacks_sound b'/' (codes "me") refl;
  pwd_at = lacks_sound b'@' (codes "pw") refl;
  pwd_slash = lacks_sound b'/' (codes "pw") refl;
  pwd_user = λ e. cc;
  host_nonempty = λ e. cc;
  host_at = lacks_sound b'@' (codes "example.org") refl;
  host_colon = lacks_sound b':' (codes "example.org") refl;
  host_slash = lacks_sound b'/' (codes "example.org") refl;
  port_int = omega arith;
  port_default = λ e. cc;
  rest = codes "a/b";
  path_slash = refl;
  path_query = lacks_sound b'?' (codes "/a/b") refl;
  path_anchor = lacks_sound b'#' (codes "/a/b" ++ query_of entries) refl;
  params_entries = entries-IsEntry;
}

set-to_string_example : set (Url.to_string site) empty_url ≡ some site
set-to_string_example = set-to_string site site-IsClean
