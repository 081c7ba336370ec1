-- ===== src/Headers/Laws.antt =====
-- libraries/prio-http/src/header.cpp: lookups after updates, and the decisions made from headers.
use wpp.Prelude.{
  Bytes, ℕ, ◌<◌, ◌^◌, Bool, true, false, Option, none, some, List, [], ◌∷◌, ◌++◌, ◌≡◌, ◌↔◌, ◌⊎◌,
  refl, sym, ap, ◌∙◌, if◌then◌else◌, case_eq, case_eq_subst, case_eq_refl, Bool-cases, inl, inr,
  codes, ◌>>=◌, is_empty, is_empty_ne, str_eq, str_eq_sym, str_eq_iff,
}
use mathlib.Core.Option.{some-injective}
use wpp.Prelude.Decimal.{print_nat, scan_size-print_nat, print_nat-cons}
use wpp.Cookie
use wpp.Headers.{
  Header, Headers, get_in, exists_in, remove_in, set, keep_alive, content_length, get, exists,
  remove, assign, lookup, Params,
}

made_headers : {g h' : Headers} → some g ≡ some h' → h'.headers ≡ g.headers
made_headers e = sym (ap (λ (x : Headers). x.headers) (some-injective _ _ e))

parsed_headers :
    (jars : Option Cookie.Cookies) (g : Headers) {h' : Headers}
    → (jars >>= λ jar. some (record g { cookies = jar })) ≡ some h'
    → h'.headers ≡ g.headers
parsed_headers none g e = cc
parsed_headers (some jar) g e = made_headers e

-- What a successful `set` leaves: the header at the end, and the others as they were.
pub set-headers :
    (key val : Bytes) (h : Headers) {h' : Headers}
    → set key val h ≡ some h'
    → h'.headers ≡ h.headers ++ (key, val) ∷ []
unfolding set
set-headers key val h e = elim (Bool-cases (case_eq key (codes "COOKIE"))) [
  | inl t ↦ parsed_headers _ (record h { headers = h.headers ++ (key, val) ∷ [] }) (rw t at e)
  | inr t ↦ made_headers (rw t at e)
]

get_in-append :
    (j key val : Bytes) (hs : List Header)
    → get_in j (hs ++ (key, val) ∷ [])
      ≡ (if exists_in j hs then get_in j hs else if case_eq key j then val else [])
unfolding get_in exists_in
get_in-append j key val [] = refl
get_in-append j key val ((k, v) ∷ hs) = elim (Bool-cases (case_eq k j)) [
  | inl e ↦ rw e
  | inr e ↦ rw e (get_in-append j key val hs)
]

-- After a successful `set`, `get` still gives the first header of a name: the value that was set is
-- seen only where the name had none.
pub get-set :
    (key val j : Bytes) (h : Headers) {h' : Headers}
    → set key val h ≡ some h'
    → get j h' ≡ (if exists j h then get j h else if case_eq key j then val else [])
get-set key val j h e = ap (get_in j) (set-headers key val h e) ∙ get_in-append j key val h.headers

-- `set` of a name other than `Cookie` succeeds.
pub set_other :
    (key val : Bytes) (h : Headers)
    → case_eq key (codes "COOKIE") ≡ false
    → set key val h ≡ some (record h { headers = h.headers ++ (key, val) ∷ [] })
unfolding set
set_other key val h e = rw e

remove_in-append :
    (key val : Bytes) (hs : List Header)
    → exists_in key hs ≡ false
    → remove_in key (hs ++ (key, val) ∷ []) ≡ hs
unfolding exists_in remove_in
remove_in-append key val [] e = rw (case_eq_refl key)
remove_in-append key val ((k, v) ∷ hs) e = elim (Bool-cases (case_eq k key)) [
  | inl t ↦ cc (rw t at e)
  | inr t ↦ rw t (ap (◌∷◌ (k, v)) (remove_in-append key val hs (rw t at e)))
]

-- `remove` of a name that was new when it was set takes exactly that header away.
pub remove-set :
    (key val : Bytes) (h : Headers) {h' : Headers}
    → exists key h ≡ false
    → set key val h ≡ some h'
    → (remove key h').headers ≡ h.headers
remove-set key val h new e =
    ap (remove_in key) (set-headers key val h e) ∙ remove_in-append key val h.headers new

decision :
    (conn : Bytes) (current : Bool)
    → ((if is_empty conn
          then current
          else if case_eq conn (codes "Close")
          then false
          else case_eq conn (codes "Keep-Alive"))
        ≡ true)
      ↔ (((conn ≡ []) × (current ≡ true)) ⊎ (case_eq conn (codes "Keep-Alive") ≡ true))
decision [] current = (
  (λ h. inl (refl, h)),
  λ h. elim h [
    | inl both ↦ both.1
    | inr kept ↦ let wrong : false ≡ true = unfold case_eq in kept in cc
  ],
)
decision (c ∷ s) current = (
  (λ h. elim (Bool-cases (case_eq (c ∷ s) (codes "Close"))) [
    | inl t ↦ cc (rw t at h)
    | inr t ↦ inr (rw t at h)
  ]),
  λ h. elim h [
    | inl both ↦ cc (both.0)
    | inr kept ↦ rw (case_eq_subst (c ∷ s) _ (codes "Close") kept) (unfold case_eq in kept)
  ],
)

-- A connection is kept exactly when the `Connection` header says so, or there is none and the protocol
-- is HTTP/1.1, all without regard to case.
pub keep_alive_iff :
    (proto : Bytes) (h : Headers)
    → (keep_alive proto h ≡ true) ↔ (
        ((get (codes "Connection") h ≡ []) × (case_eq proto (codes "HTTP/1.1") ≡ true))
        ⊎ (case_eq (get (codes "Connection") h) (codes "Keep-Alive") ≡ true))
unfolding keep_alive
keep_alive_iff proto h = decision (get (codes "Connection") h) (case_eq proto (codes "HTTP/1.1"))

-- The length that was set as a number below 2 ^ 64 is the content length, if there was none before.
pub content_length-set :
    (n : ℕ) (h : Headers) {h' : Headers}
    → n < 2 ^ 64
    → exists (codes "CONTENT-LENGTH") h ≡ false
    → set (codes "CONTENT-LENGTH") (print_nat n) h ≡ some h'
    → content_length h' ≡ n
unfolding content_length
content_length-set n h {h'} lt new e =
    let got : get (codes "CONTENT-LENGTH") h' ≡ print_nat n =
      get-set _ _ (codes "CONTENT-LENGTH") h e ∙ rw (new, case_eq_refl (codes "CONTENT-LENGTH")) in
    rw (got, is_empty_ne _ (print_nat-cons n)) (scan_size-print_nat n lt)

-- A map after an assignment: the assigned key has the new value, and the others have theirs.
pub lookup-assign :
    (key value j : Bytes) (m : Params)
    → lookup j (assign key value m) ≡ (if str_eq key j then some value else lookup j m)
unfolding lookup assign
lookup-assign key value j [] = refl
lookup-assign key value j ((k, v) ∷ m) = elim (Bool-cases (str_eq k key)) [
  | inl e ↦
      rw (e, (str_eq_iff k key).0 e)
        (elim (Bool-cases (str_eq key j)) [ inl t ↦ rw t | inr t ↦ rw t ])
  | inr e ↦ rw e (elim (Bool-cases (str_eq k j)) [
    | inl t ↦
        let apart : str_eq key j ≡ false =
          ap (str_eq key) (sym ((str_eq_iff k j).0 t)) ∙ str_eq_sym key k ∙ e in
        rw (t, apart)
    | inr t ↦ rw t (lookup-assign key value j m)
  ])
]
