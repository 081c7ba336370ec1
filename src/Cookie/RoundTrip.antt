-- ===== src/Cookie/RoundTrip.antt =====
-- libraries/prio-http/src/cookie.cpp: `Cookies::parseCookie` on what `Cookie::str` writes.
use wpp.Prelude.{
  Bytes, Bool, true, false, some, List, [], ◌∷◌, ◌++◌, ◌≡◌, ◌≢◌, refl, ap, ◌∙◌, arith, inl, inr,
  codes, All, All-append, Lacks, ◌⊎◌,
}
use wpp.Prelude.Decimal.{print_int, scan_int, scan_int-print_int, print_int-Lacks}
use wpp.Text.{split}
use wpp.Text.Split.{IsPart, split-append}
use wpp.Cookie.{Cookie, cookie_of, str, parse_attributes, parse_items, parse_split, parse_cookie}
use wpp.Cookie.Attributes.{
  IsField, IsAge, no_age, age, IsWritable, attribute, secure_item, attributes, split-behind,
  str-behind, attribute_pieces, cons-IsPart, expires_step, domain_step, path_step, max_age_step,
  secure_step,
}

age-scan : {s : Bytes} → IsAge s → (print_int (scan_int s) ≡ s) ⊎ (s ≡ [])
age-scan no_age = inr refl
age-scan (age z h e) = inl (rw e (ap print_int (scan_int-print_int z h)))

age-IsField : {s : Bytes} → IsAge s → IsField s
age-IsField no_age = (tt, tt)
age-IsField (age z h e) =
    rw e (print_int-Lacks b';' z refl (omega arith), print_int-Lacks b'=' z refl (omega arith))

parse_attributes-attributes :
    (c : Cookie)
    → IsWritable c
    → parse_attributes (attributes c) (cookie_of c.name c.value) ≡ some c
parse_attributes-attributes c w =
    expires_step _ _ c.expires w.expires_field refl
    ∙ max_age_step _ _ c.max_age (age-IsField w.age_valid).1 (age-scan w.age_valid) refl
    ∙ domain_step _ _ c.domain w.domain_field refl
    ∙ path_step _ _ c.path w.path_field refl
    ∙ secure_step _ c.secure refl

pub parse_first :
    (name value : Bytes) (v : List Bytes)
    → name ≢ []
    → IsField name
    → IsField value
    → parse_items (split (name ++ b'=' ∷ value) b'=') v ≡ parse_attributes v (cookie_of name value)
unfolding parse_items
parse_first name [] v ne h k = rw (split-append b'=' name [] (ne, h.1)) (unfold split in refl)
parse_first name (x ∷ value) v ne h k =
    rw (attribute_pieces name (x ∷ value) (ne, h.1) (cons-IsPart b'=' x value k.1))

attribute-IsPart :
    (key v : Bytes) → Lacks b';' key → Lacks b';' v → key ≢ [] → All (IsPart b';') (attribute key v)
attribute-IsPart key [] h k ne = tt
attribute-IsPart [] (x ∷ v) h k ne = absurd (ne refl)
attribute-IsPart (y ∷ key) (x ∷ v) h k ne = (
  cons-IsPart b';' y _ (All-append (λ c. c ≢ b';') (y ∷ key) (b'=' ∷ x ∷ v) h (omega arith, k)),
  tt,
)

secure-IsPart : (b : Bool) → All (IsPart b';') (secure_item b)
secure-IsPart true = (cons-IsPart b';' _ _ (omega arith), tt)
secure-IsPart false = tt

attributes-IsPart : (c : Cookie) → IsWritable c → All (IsPart b';') (attributes c)
attributes-IsPart c w =
    let e = attribute-IsPart (codes "expires") c.expires (omega arith) w.expires_field.0 (cc) in
    let m =
      attribute-IsPart (codes "max-Age") c.max_age (omega arith) (age-IsField w.age_valid).0 (cc) in
    let d = attribute-IsPart (codes "domain") c.domain (omega arith) w.domain_field.0 (cc) in
    let p = attribute-IsPart (codes "path") c.path (omega arith) w.path_field.0 (cc) in
    All-append _ _ _ e
      (All-append _ _ _ m (All-append _ _ _ d (All-append _ _ _ p (secure-IsPart c.secure))))

pub first-IsPart :
    (name value : Bytes)
    → name ≢ []
    → IsField name
    → IsField value
    → IsPart b';' (name ++ b'=' ∷ value)
first-IsPart [] value ne h k = absurd (ne refl)
first-IsPart (x ∷ name) value ne h k =
    cons-IsPart b';' x _
      (All-append (λ c. c ≢ b';') (x ∷ name) (b'=' ∷ value) h.0 (omega arith, k.0))

-- A cookie whose texts hold no `;` and no `=`, whose name is not empty and whose age was set by
-- `maxAge(int)` comes back from its text with every field.
pub parse_cookie-str : (c : Cookie) → IsWritable c → parse_cookie (str c) ≡ some c
unfolding parse_cookie parse_split
parse_cookie-str c w =
    ap (λ (s : Bytes). parse_split (split s b';')) (str-behind c)
    ∙ ap parse_split (
        split-behind (c.name ++ b'=' ∷ c.value) (attributes c)
          (first-IsPart c.name c.value w.name_ne_nil w.name_field w.value_field)
          (attributes-IsPart c w))
    ∙ parse_first c.name c.value (attributes c) w.name_ne_nil w.name_field w.value_field
    ∙ parse_attributes-attributes c w
