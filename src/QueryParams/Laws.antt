-- ===== src/QueryParams/Laws.antt =====
-- libraries/prio-http/src/queryparams.cpp: lookups after updates. Keys are compared without regard to
-- case; `array` is the specification of what a key maps to.
use wpp.Prelude.{
  Bytes, false, not, List, [], ◌∷◌, ◌++◌, ◌≡◌, refl, ap, ◌∙◌, arith, if◌then◌else◌, case_eq,
  case_eq_subst, case_eq_subst_right, case_eq_apart, Bool-cases, inl, inr, is_empty, append-nil,
}
use wpp.QueryParams.{QueryParams, exists, get, array, remove, add, set, assign_at}

abbrev head_or_empty : List Bytes → Bytes
head_or_empty [] = []
head_or_empty (v ∷ vs) = v

-- `exists` and `get` look at what `array` returns: whether it is empty, and its first value.
pub exists_get-array :
    (key : Bytes) (q : QueryParams)
    → (exists key q ≡ not (is_empty (array key q))) × (get key q ≡ head_or_empty (array key q))
unfolding exists get array
exists_get-array key [] = (refl, refl)
exists_get-array key ((k, v) ∷ q) = elim (Bool-cases (case_eq k key)) [
  | inl e ↦ (rw e, rw e)
  | inr e ↦ (rw e ((exists_get-array key q).0), rw e ((exists_get-array key q).1))
]

array-append : (key : Bytes) (p q : QueryParams) → array key (p ++ q) ≡ array key p ++ array key q
unfolding array
array-append key [] q = refl
array-append key ((k, v) ∷ p) q = elim (Bool-cases (case_eq k key)) [
  | inl e ↦ rw e (ap (◌∷◌ v) (array-append key p q))
  | inr e ↦ rw e (array-append key p q)
]

-- `remove` takes away every value of the key, and leaves those of other keys as they were.
pub array-remove :
    (key j : Bytes) (q : QueryParams)
    → array j (remove key q) ≡ (if case_eq key j then [] else array j q)
unfolding array remove
array-remove key j [] = ground arith
array-remove key j ((k, v) ∷ q) = elim (Bool-cases (case_eq k key)) [
  | inl e ↦ rw (e, case_eq_subst k key j e) (array-remove key j q ∙ ground arith)
  | inr e ↦ rw e (
      ap (λ (vs : List Bytes). (if case_eq k j then v ∷ [] else []) ++ vs) (array-remove key j q)
      ∙ keep key k j e (array j q) (v ∷ []))
]
  where
    keep :
        (key k j : Bytes)
        → case_eq k key ≡ false
        → (rest here : List Bytes)
        → (if case_eq k j then here else []) ++ (if case_eq key j then [] else rest)
          ≡ (if case_eq key j then [] else (if case_eq k j then here else []) ++ rest)
    keep key k j e rest here = elim (Bool-cases (case_eq key j)) [
      | inl t ↦ rw (t, ← case_eq_subst_right key j k t, e)
      | inr t ↦ rw t
    ]

-- After `set` a key has the one value that was set, and other keys have what they had.
pub array-set :
    (key value j : Bytes) (q : QueryParams)
    → array j (set key value q) ≡ (if case_eq key j then value ∷ [] else array j q)
unfolding set add array
array-set key value j q =
    array-append j (remove key q) ((key, value) ∷ [])
    ∙ rw (array-remove key j q)
        (elim (Bool-cases (case_eq key j)) [ inl e ↦ rw e | inr e ↦ rw e (append-nil (array j q)) ])

-- After `params[key] = value` a lookup of the key gives the value, also where `operator[]` had to add
-- the parameter, and lookups of other keys give what they gave.
pub get-assign_at :
    (key value j : Bytes) (q : QueryParams)
    → get j (assign_at key value q) ≡ (if case_eq key j then value else get j q)
unfolding assign_at get
get-assign_at key value j [] = refl
get-assign_at key value j ((k, v) ∷ q) = elim (Bool-cases (case_eq k key)) [
  | inl e ↦
      rw (e, case_eq_subst k key j e)
        (elim (Bool-cases (case_eq key j)) [ inl t ↦ rw t | inr t ↦ rw t ])
  | inr e ↦ rw e (elim (Bool-cases (case_eq k j)) [
    | inl t ↦ rw (t, case_eq_apart k key j e t)
    | inr t ↦ rw t (get-assign_at key value j q)
  ])
]
