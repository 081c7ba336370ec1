-- ===== src/Prelude/Maps.antt =====
-- `std::map` from texts, as association lists whose keys are distinct.
use mathlib.Core.Path.{◌≡◌, refl, sym, ◌∙◌, ap}
use mathlib.Core.Logic.{inl, inr}
use mathlib.Core.Bool.{Bool, true, false}
use mathlib.Core.List.{List, [], ◌∷◌}
use mathlib.Core.Option.{Option, none, some}
use wpp.Prelude.Tests.{if◌then◌else◌, Bool-cases}
use wpp.Prelude.ByteStrings.{Bytes, str_eq, str_eq_iff, str_eq_sym}

abbrev pub is_some {ℓ} : {A : Type ℓ} → Option A → Bool
is_some none = false
is_some (some a) = true

pub same_key : (a b c : Bytes) → str_eq a b ≡ true → str_eq a c ≡ str_eq b c
same_key a b c e = ap (λ (x : Bytes). str_eq x c) ((str_eq_iff a b).0 e)

-- A key that is another one's is not a third one's too.
apart_key : (k key j : Bytes) → str_eq k key ≡ false → str_eq k j ≡ true → str_eq key j ≡ false
apart_key k key j e f = elim (Bool-cases (str_eq key j)) [
  | inl g ↦
      let same : k ≡ key = (str_eq_iff k j).0 f ∙ sym ((str_eq_iff key j).0 g) in
      let t : str_eq k key ≡ true = (str_eq_iff k key).1 same in
      let clash : true ≡ false = sym t ∙ e in absurd cc
  | inr g ↦ g
]

if_same {ℓ} :
    {B : Type ℓ} (b : Bool) (x v y : B)
    → (if b then x else y) ≡ (if b then x else if b then v else y)
if_same true x v y = refl
if_same false x v y = refl

if_swap {ℓ} :
    {B : Type ℓ} (a b : Bool) (x v y : B)
    → (a ≡ true → b ≡ false)
    → (if a then v else if b then x else y) ≡ (if b then x else if a then v else y)
if_swap true true x v y h = let clash : true ≡ false = h refl in absurd cc
if_swap true false x v y h = refl
if_swap false b x v y h = refl

module _ {ℓ} {A : Type ℓ} where
  -- The value of a key.
  unfoldable pub find : Bytes → List (Bytes × A) → Option A
  find key [] = none
  find key ((k, v) ∷ m) = if str_eq k key then some v else find key m

  -- `m[key] = value`.
  unfoldable pub put : Bytes → A → List (Bytes × A) → List (Bytes × A)
  put key value [] = (key, value) ∷ []
  put key value ((k, v) ∷ m) = if str_eq k key then (k, value) ∷ m else (k, v) ∷ put key value m

  -- `m.erase(key)`.
  unfoldable pub erase : Bytes → List (Bytes × A) → List (Bytes × A)
  erase key [] = []
  erase key ((k, v) ∷ m) = if str_eq k key then erase key m else (k, v) ∷ erase key m

  pub find-put :
      (key : Bytes) (value : A) (j : Bytes) (m : List (Bytes × A))
      → find j (put key value m) ≡ (if str_eq key j then some value else find j m)
  unfolding find put
  find-put key value j [] = refl
  find-put key value j ((k, v) ∷ m) = elim (Bool-cases (str_eq k key)) [
    | inl e ↦ rw (e, same_key k key j e) (if_same (str_eq key j) (some value) (some v) (find j m))
    | inr e ↦
        rw (e, find-put key value j m)
          (if_swap (str_eq k j) (str_eq key j) (some value) (some v) (find j m)
            (apart_key k key j e))
  ]

  pub find-erase :
      (key j : Bytes) (m : List (Bytes × A))
      → find j (erase key m) ≡ (if str_eq key j then none else find j m)
  unfolding find erase
  find-erase key j [] = elim (Bool-cases (str_eq key j)) [ inl e ↦ rw e refl | inr e ↦ rw e refl ]
  find-erase key j ((k, v) ∷ m) = elim (Bool-cases (str_eq k key)) [
    | inl e ↦
        rw (e, same_key k key j e)
          (find-erase key j m ∙ if_same (str_eq key j) none (some v) (find j m))
    | inr e ↦
        rw (e, find-erase key j m)
          (if_swap (str_eq k j) (str_eq key j) none (some v) (find j m) (apart_key k key j e))
  ]

  -- No key twice.
  abbrev pub Distinct : List (Bytes × A) → Type 0
  Distinct [] = Unit
  Distinct ((k, v) ∷ m) = (is_some (find k m) ≡ false) × Distinct m

  pub put-Distinct :
      (key : Bytes) (value : A) (m : List (Bytes × A)) → Distinct m → Distinct (put key value m)
  unfolding put find
  put-Distinct key value [] d = (refl, tt)
  put-Distinct key value ((k, v) ∷ m) (new, d) = elim (Bool-cases (str_eq k key)) [
    | inl e ↦ rw (e, Distinct) (new, d)
    | inr e ↦
        rw (e, Distinct)
          (
            ap is_some (find-put key value k m) ∙ rw (str_eq_sym key k, e) new,
            put-Distinct key value m d,
          )
  ]

  pub erase-Distinct : (key : Bytes) (m : List (Bytes × A)) → Distinct m → Distinct (erase key m)
  unfolding erase
  erase-Distinct key [] d = tt
  erase-Distinct key ((k, v) ∷ m) (new, d) = elim (Bool-cases (str_eq k key)) [
    | inl e ↦ rw e (erase-Distinct key m d)
    | inr e ↦
        rw (e, Distinct)
          (ap is_some (find-erase key k m) ∙ rw (str_eq_sym key k, e) new, erase-Distinct key m d)
  ]
