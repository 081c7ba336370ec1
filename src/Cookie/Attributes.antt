-- ===== src/Cookie/Attributes.antt =====
-- libraries/prio-http/src/cookie.cpp: the text of a cookie as items, and the
-- loop of `parseCookie` over one attribute.
use wpp.Prelude.{
  Bytes, ℕ, Bool, true, false, some, List, [], ◌∷◌, ◌++◌, ◌≡◌, ◌≢◌, refl, sym, ap, ◌∙◌, arith,
  if◌then◌else◌, case_eq, inl, inr, codes, All, append_assoc, append-nil, Lacks, ◌⊎◌,
}
use wpp.Prelude.Decimal.{ℤ, IsInt, print_int, scan_int}
use wpp.Text.{split}
use wpp.Text.Split.{IsPart, split-append, split_one}
use wpp.Cookie.{Cookie, when_some, str, parse_attributes}

-- Text that is cut neither at `;` nor at `=`.
abbrev pub IsField : Bytes → Type 0
IsField s = Lacks b';' s × Lacks b'=' s

-- What `max_age` holds: nothing, or what the setter printed.
pub data IsAge : Bytes → Type 0 where
  no_age : IsAge []
  age : (seconds : ℤ) {s : Bytes} → IsInt seconds → s ≡ print_int seconds → IsAge s

pub record IsWritable (c : Cookie) : Type 0 where
  pub name_ne_nil : c.name ≢ []
  pub name_field : IsField c.name
  pub value_field : IsField c.value
  pub expires_field : IsField c.expires
  pub age_valid : IsAge c.max_age
  pub domain_field : IsField c.domain
  pub path_field : IsField c.path

-- Items, each behind its `;`.
abbrev pub behind : List Bytes → Bytes
behind [] = []
behind (p ∷ ps) = b';' ∷ (p ++ behind ps)

pub behind-append : (ps qs : List Bytes) → behind (ps ++ qs) ≡ behind ps ++ behind qs
behind-append [] qs = refl
behind-append (p ∷ ps) qs = ap (◌∷◌ b';') (rw (behind-append ps qs) (sym (append_assoc p _ _)))

pub split-behind :
    (p : Bytes) (ps : List Bytes)
    → IsPart b';' p
    → All (IsPart b';') ps
    → split (p ++ behind ps) b';' ≡ p ∷ ps
split-behind p [] hp h = rw append-nil (split_one b';' p hp)
split-behind p (q ∷ ps) hp (hq, h) =
    split-append b';' p (q ++ behind ps) hp ∙ ap (◌∷◌ p) (split-behind q ps hq h)

-- The item of an attribute, if it has a value.
abbrev pub attribute : Bytes → Bytes → List Bytes
attribute key [] = []
attribute key (c ∷ v) = (key ++ b'=' ∷ c ∷ v) ∷ []

when_some-attribute :
    (key v : Bytes) → when_some (b';' ∷ (key ++ b'=' ∷ [])) v ≡ behind (attribute key v)
when_some-attribute key [] = refl
when_some-attribute key (c ∷ v) = simp (append_assoc, append-nil)

abbrev pub secure_item : Bool → List Bytes
secure_item true = codes "secure" ∷ []
secure_item false = []

abbrev pub attributes : Cookie → List Bytes
attributes c =
    attribute (codes "expires") c.expires
    ++ (attribute (codes "max-Age") c.max_age
        ++ (attribute (codes "domain") c.domain
            ++ (attribute (codes "path") c.path ++ secure_item c.secure)))

secure-behind : (b : Bool) → (if b then codes ";secure" else []) ≡ behind (secure_item b)
secure-behind true = refl
secure-behind false = refl

pub str-behind : (c : Cookie) → str c ≡ (c.name ++ b'=' ∷ c.value) ++ behind (attributes c)
unfolding str
str-behind c =
    (λ i.
      c.name
      ++ (b'=' ∷ c.value)
      ++ when_some-attribute (codes "expires") c.expires i
      ++ when_some-attribute (codes "max-Age") c.max_age i
      ++ when_some-attribute (codes "domain") c.domain i
      ++ when_some-attribute (codes "path") c.path i
      ++ secure-behind c.secure i)
    ∙ simp (behind-append, append_assoc)

-- The value of an attribute, cut at `=` behind its key.
pub attribute_pieces :
    (key v : Bytes) → IsPart b'=' key → IsPart b'=' v → split (key ++ b'=' ∷ v) b'=' ≡ key ∷ v ∷ []
attribute_pieces key v hk hv = split-append b'=' key v hk ∙ ap (◌∷◌ key) (split_one b'=' v hv)

pub cons-IsPart : (d x : ℕ) (v : Bytes) → Lacks d (x ∷ v) → IsPart d (x ∷ v)
cons-IsPart d x v h = ((cc), h)

-- The loop over one attribute and the rest. The field is empty before.
module _ (rest : List Bytes) (c : Cookie) where
  pub expires_step :
      (v : Bytes)
      → IsField v
      → c.expires ≡ []
      → parse_attributes (attribute (codes "expires") v ++ rest) c
        ≡ parse_attributes rest (record c { expires = v })
  unfolding parse_attributes case_eq
  expires_step [] h e = ap (λ (x : Bytes). parse_attributes rest (record c { expires = x })) e
  expires_step (x ∷ v) h e = rw (
      attribute_pieces (codes "expires") (x ∷ v) (cons-IsPart b'=' _ _ (omega arith))
        (cons-IsPart b'=' x v h.1))

  pub domain_step :
      (v : Bytes)
      → IsField v
      → c.domain ≡ []
      → parse_attributes (attribute (codes "domain") v ++ rest) c
        ≡ parse_attributes rest (record c { domain = v })
  unfolding parse_attributes case_eq
  domain_step [] h e = ap (λ (x : Bytes). parse_attributes rest (record c { domain = x })) e
  domain_step (x ∷ v) h e = rw (
      attribute_pieces (codes "domain") (x ∷ v) (cons-IsPart b'=' _ _ (omega arith))
        (cons-IsPart b'=' x v h.1))

  pub path_step :
      (v : Bytes)
      → IsField v
      → c.path ≡ []
      → parse_attributes (attribute (codes "path") v ++ rest) c
        ≡ parse_attributes rest (record c { path = v })
  unfolding parse_attributes case_eq
  path_step [] h e = ap (λ (x : Bytes). parse_attributes rest (record c { path = x })) e
  path_step (x ∷ v) h e = rw (
      attribute_pieces (codes "path") (x ∷ v) (cons-IsPart b'=' _ _ (omega arith))
        (cons-IsPart b'=' x v h.1))

  pub max_age_step :
      (v : Bytes)
      → Lacks b'=' v
      → (print_int (scan_int v) ≡ v) ⊎ (v ≡ [])
      → c.max_age ≡ []
      → parse_attributes (attribute (codes "max-Age") v ++ rest) c
        ≡ parse_attributes rest (record c { max_age = v })
  unfolding parse_attributes case_eq
  max_age_step [] h r e = ap (λ (x : Bytes). parse_attributes rest (record c { max_age = x })) e
  max_age_step (x ∷ v) h (inr r) e = cc
  max_age_step (x ∷ v) h (inl r) e =
      rw
        (attribute_pieces (codes "max-Age") (x ∷ v) (cons-IsPart b'=' _ _ (omega arith))
          (cons-IsPart b'=' x v h))
        (ap (λ (x : Bytes). parse_attributes rest (record c { max_age = x })) r)

pub secure_step :
    (c : Cookie) (b : Bool)
    → c.secure ≡ false
    → parse_attributes (secure_item b) c ≡ some (record c { secure = b })
unfolding parse_attributes case_eq
secure_step c true e = refl
secure_step c false e = ap (λ (x : Bool). some (record c { secure = x })) e
