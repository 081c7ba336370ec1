-- ===== src/Cookie/Bare.antt =====
-- libraries/prio-http/src/cookie.cpp: attributes with no value.
use wpp.Prelude.{
  Bytes, true, false, none, [], ◌∷◌, ◌++◌, ◌≡◌, ◌≢◌, refl, ap, ◌∙◌, case_eq, case_eq_subst, codes,
}
use wpp.Text.Split.{split-append, split_one}
use wpp.Cookie.{
  Cookie, empty_cookie, cookie_of, set_attribute, parse_attributes, parse_split, parse_cookie,
}
use wpp.Cookie.Attributes.{IsField}
use wpp.Cookie.RoundTrip.{parse_first, first-IsPart}

-- The attributes whose value the loop reads as `n[1]`.
pub data IsValued (key : Bytes) : Type 0 where
  is_expires : case_eq key (codes "expires") ≡ true → IsValued key
  is_max_age : case_eq key (codes "max-age") ≡ true → IsValued key
  is_domain : case_eq key (codes "domain") ≡ true → IsValued key
  is_path : case_eq key (codes "path") ≡ true → IsValued key

other_key : (key a b : Bytes) → case_eq key a ≡ true → case_eq a b ≡ false → case_eq key b ≡ false
other_key key a b e f = case_eq_subst key a b e ∙ f

bare_attribute :
    (key : Bytes) (c : Cookie)
    → IsValued key
    → (case_eq key (codes "secure") ≡ false) × (set_attribute (key ∷ []) c ≡ none)
unfolding set_attribute
bare_attribute key c (is_expires e) = (other_key key _ _ e (unfold case_eq in refl), rw e)
bare_attribute key c (is_max_age e) = (
  other_key key _ _ e (unfold case_eq in refl),
  rw (other_key key _ (codes "expires") e (unfold case_eq in refl), e),
)
bare_attribute key c (is_domain e) = (
  other_key key _ _ e (unfold case_eq in refl),
  rw (
    other_key key _ (codes "expires") e (unfold case_eq in refl),
    other_key key _ (codes "max-age") e (unfold case_eq in refl),
    e,
  ),
)
bare_attribute key c (is_path e) = (
  other_key key _ _ e (unfold case_eq in refl),
  rw (
    other_key key _ (codes "expires") e (unfold case_eq in refl),
    other_key key _ (codes "max-age") e (unfold case_eq in refl),
    other_key key _ (codes "domain") e (unfold case_eq in refl),
    e,
  ),
)

-- Behind a name that is not empty and a value, both with no `;` and no `=`, one of the attributes
-- expires, max-age, domain and path with no `=` makes `parseCookie` read behind the end of its
-- pieces.
pub parse_cookie_bare :
    (name value key : Bytes)
    → name ≢ []
    → IsField name
    → IsField value
    → key ≢ []
    → IsField key
    → IsValued key
    → parse_cookie ((name ++ b'=' ∷ value) ++ b';' ∷ key) ≡ none
unfolding parse_cookie parse_split
parse_cookie_bare name value key ne h k nk hk valued =
    ap parse_split (
      split-append b';' (name ++ b'=' ∷ value) key (first-IsPart name value ne h k)
      ∙ ap (◌∷◌ (name ++ b'=' ∷ value)) (split_one b';' key (nk, hk.0)))
    ∙ parse_first name value (key ∷ []) ne h k
    ∙ unfold parse_attributes in
      rw (
        (bare_attribute key empty_cookie valued).0,
        split_one b'=' key (nk, hk.1),
        (bare_attribute key (cookie_of name value) valued).1,
      )
