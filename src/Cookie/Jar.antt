-- ===== src/Cookie/Jar.antt =====
-- libraries/prio-http/src/cookie.cpp: the names in a jar, and lookups after updates.
use wpp.Prelude.{
  Bytes, Bool, true, false, [], ◌∷◌, ◌++◌, ◌≡◌, refl, sym, ap, ◌∙◌, arith, if◌then◌else◌, str_eq,
  str_eq_iff, str_eq_sym, Bool-cases, inl, inr,
}
use wpp.Cookie.{Cookie, Cookies, empty_cookie, exists, get, remove, add}

-- No two cookies have one name.
abbrev pub Distinct : Cookies → Type 0
Distinct [] = Unit
Distinct (c ∷ jar) = (exists c.name jar ≡ false) × Distinct jar

module _ (name : Bytes) where
  exists-append :
      (jar : Cookies) (c : Cookie)
      → exists name (jar ++ c ∷ []) ≡ (if exists name jar then true else str_eq c.name name)
  unfolding exists
  exists-append [] c = ground arith
  exists-append (d ∷ jar) c = ground (arith, exists-append jar c)

  get-append :
      (jar : Cookies) (c : Cookie)
      → get name (jar ++ c ∷ [])
        ≡ (if exists name jar then get name jar else if str_eq c.name name then c else empty_cookie)
  unfolding exists get
  get-append [] c = ground arith
  get-append (d ∷ jar) c = elim (Bool-cases (str_eq d.name name)) [
    | inl e ↦ rw e
    | inr e ↦ rw e (get-append jar c)
  ]

  get_missing : (jar : Cookies) → exists name jar ≡ false → get name jar ≡ empty_cookie
  unfolding exists get
  get_missing [] h = refl
  get_missing (d ∷ jar) h = elim (Bool-cases (str_eq d.name name)) [
    | inl e ↦ cc (rw e at h)
    | inr e ↦ rw e (get_missing jar (rw e at h))
  ]

  -- In a jar with one cookie of each name `remove` leaves none of its name.
  exists-remove : (jar : Cookies) → Distinct jar → exists name (remove name jar) ≡ false
  unfolding exists remove
  exists-remove [] h = refl
  exists-remove (d ∷ jar) (new, h) = elim (Bool-cases (str_eq d.name name)) [
    | inl e ↦ rw e (ap (λ (n : Bytes). exists n jar) (sym ((str_eq_iff d.name name).0 e)) ∙ new)
    | inr e ↦ rw (e, exists, e) (exists-remove jar h)
  ]

module _ (name j : Bytes) (other : str_eq name j ≡ false) where
  differs : (d : Bytes) → str_eq d name ≡ true → str_eq d j ≡ false
  differs d e = ap (λ (n : Bytes). str_eq n j) ((str_eq_iff d name).0 e) ∙ other

  exists-remove_other : (jar : Cookies) → exists j (remove name jar) ≡ exists j jar
  unfolding exists remove
  exists-remove_other [] = refl
  exists-remove_other (d ∷ jar) = elim (Bool-cases (str_eq d.name name)) [
    | inl e ↦ rw (e, differs d.name e)
    | inr e ↦
        rw (e, exists)
          (ap (λ (b : Bool). if str_eq d.name j then true else b) (exists-remove_other jar))
  ]

  get-remove_other : (jar : Cookies) → get j (remove name jar) ≡ get j jar
  unfolding get remove
  get-remove_other [] = refl
  get-remove_other (d ∷ jar) = elim (Bool-cases (str_eq d.name name)) [
    | inl e ↦ rw (e, differs d.name e)
    | inr e ↦
        rw (e, get) (ap (λ (c : Cookie). if str_eq d.name j then d else c) (get-remove_other jar))
  ]

exists-remove-false :
    (name n : Bytes) (jar : Cookies) → exists n jar ≡ false → exists n (remove name jar) ≡ false
unfolding exists remove
exists-remove-false name n [] h = refl
exists-remove-false name n (d ∷ jar) h = elim (Bool-cases (str_eq d.name n)) [
  | inl e ↦ cc (rw e at h)
  | inr e ↦ elim (Bool-cases (str_eq d.name name)) [
    | inl t ↦ rw t (rw e at h)
    | inr t ↦ rw (t, exists, e) (exists-remove-false name n jar (rw e at h))
  ]
]

-- `remove` keeps the names of a jar distinct.
pub remove-Distinct : (name : Bytes) (jar : Cookies) → Distinct jar → Distinct (remove name jar)
unfolding remove
remove-Distinct name [] h = tt
remove-Distinct name (d ∷ jar) (new, h) = elim (Bool-cases (str_eq d.name name)) [
  | inl e ↦ rw (e, Distinct) h
  | inr e ↦ rw (e, Distinct) (exists-remove-false name d.name jar new, remove-Distinct name jar h)
]

Distinct-append :
    (jar : Cookies) (c : Cookie)
    → Distinct jar
    → exists c.name jar ≡ false
    → Distinct (jar ++ c ∷ [])
unfolding exists
Distinct-append [] c h e = (refl, tt)
Distinct-append (d ∷ jar) c (new, h) e = elim (Bool-cases (str_eq d.name c.name)) [
  | inl t ↦ cc (rw t at e)
  | inr t ↦ (
    exists-append d.name jar c ∙ rw (new, str_eq_sym c.name d.name, t),
    Distinct-append jar c h (rw t at e),
  )
]

-- `add` keeps the names of a jar distinct.
pub add-Distinct : (c : Cookie) (jar : Cookies) → Distinct jar → Distinct (add c jar)
unfolding add
add-Distinct c jar h =
    Distinct-append (remove c.name jar) c (remove-Distinct c.name jar h)
      (exists-remove c.name jar h)

-- In a jar with distinct names `add` replaces the cookie of the same name, and every other name still
-- has the cookie that it had.
pub get-add :
    (c : Cookie) (jar : Cookies) (j : Bytes)
    → Distinct jar
    → get j (add c jar) ≡ (if str_eq c.name j then c else get j jar)
unfolding add
get-add c jar j h = elim (Bool-cases (str_eq c.name j)) [
  | inl e ↦
      let same : c.name ≡ j = (str_eq_iff c.name j).0 e in
      rw e (get-append j (remove c.name jar) c ∙ rw (e, ← same, exists-remove c.name jar h))
  | inr e ↦ rw e (
      get-append j (remove c.name jar) c
      ∙ rw (e, exists-remove_other c.name j e jar, get-remove_other c.name j e jar)
          (elim (Bool-cases (exists j jar)) [ inl t ↦ rw t | inr t ↦ rw (t, get_missing j jar t) ]))
]

-- `remove` takes the cookie of the name away from a jar with distinct names, and no other.
pub get-remove :
    (name : Bytes) (jar : Cookies) (j : Bytes)
    → Distinct jar
    → get j (remove name jar) ≡ (if str_eq name j then empty_cookie else get j jar)
get-remove name jar j h = elim (Bool-cases (str_eq name j)) [
  | inl e ↦
      let same : name ≡ j = (str_eq_iff name j).0 e in
      rw e (get_missing j _ (rw (← same) (exists-remove name jar h)))
  | inr e ↦ rw e (get-remove_other name j e jar)
]
