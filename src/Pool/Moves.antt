-- ===== src/Pool/Moves.antt =====
-- libraries/prio/include/priocpp/res.h: how the moves of resources keep what holds of a pool.
use wpp.Prelude.{
  Bytes, ℕ, suc, ◌+◌, Bool, true, false, List, [], ◌∷◌, ◌++◌, if◌then◌else◌, length, ◌||◌, ◌==◌,
  All, str_eq, Bool-cases, ◌≡◌, refl, sym, ap, ◌∙◌, inl, inr, arith,
}
use wpp.Pool.Sets.{has}
use wpp.Pool.Places.{Contents, at_place, at_place_cases}
use wpp.Pool.System.{gives, Sole, openings, InUse}

-- Lists with an entry taken out.
pub gives-split :
    (x : ℕ) (before after : List (Bytes × ℕ)) (u : Bytes) (r : ℕ)
    → gives x (before ++ (u, r) ∷ after) ≡ false
    → (gives x (before ++ after) ≡ false) × ((r == x) ≡ false)
gives-split x [] after u r h = ground (arith)
gives-split x ((v, y) ∷ before) after u r h = ground (arith, gives-split x before after u r)

pub Sole-split :
    (before after : List (Bytes × ℕ)) (u : Bytes) (r : ℕ)
    → Sole (before ++ (u, r) ∷ after)
    → (gives r (before ++ after) ≡ false) × Sole (before ++ after)
Sole-split [] after u r h = h
Sole-split ((v, x) ∷ before) after u r (fresh, sole) =
    let (f, ne) = gives-split x before after u r fresh in
    let (g, sole') = Sole-split before after u r sole in (ground (arith), (f, sole'))

pub All-split {ℓ κ} :
    {A : Type ℓ} (P : A → Type κ) (before after : List A) (x : A)
    → All P (before ++ x ∷ after)
    → P x × All P (before ++ after)
All-split P [] after x h = h
All-split P (y ∷ before) after x (hy, h) =
    let (hx, hs) = All-split P before after x h in (hx, (hy, hs))

pub openings-split :
    (u : Bytes) (before after : List (ℕ × Bytes)) (p : ℕ) (url : Bytes)
    → openings u (before ++ (p, url) ∷ after)
      ≡ (if str_eq url u then 1 else 0) + openings u (before ++ after)
openings-split u [] after p url = refl
openings-split u ((q, v) ∷ before) after p url = omega (arith, openings-split u before after p url)

pub length-split {ℓ} :
    {A : Type ℓ} (before after : List A) (x : A)
    → length (before ++ x ∷ after) ≡ suc (length (before ++ after))
length-split [] after x = refl
length-split (y ∷ before) after x = ap suc (length-split before after x)

-- Who holds a resource that is not used.
pub unheld :
    (c : Contents) (r : ℕ) (held : List (Bytes × ℕ))
    → ((u : Bytes) → has r (c true u) ≡ false)
    → All (InUse c) held
    → gives r held ≡ false
unheld c r [] away h = refl
unheld c r ((u, x) ∷ held) away (hx, h) = elim (Bool-cases (x == r)) [
  | inl e ↦
      let same : has x (c true u) ≡ has r (c true u) =
        ap (λ (y : ℕ). has y (c true u)) (ground arith) in
      let t : true ≡ false = sym hx ∙ same ∙ away u in absurd cc
  | inr e ↦ rw (e, unheld c r held away h) refl
]

-- The resources of a list that lacks `r`.
pub All-lacking :
    (P Q : Bytes × ℕ → Type 0) (r : ℕ) (held : List (Bytes × ℕ))
    → ((u : Bytes) (x : ℕ) → (x == r) ≡ false → P (u, x) → Q (u, x))
    → gives r held ≡ false
    → All P held
    → All Q held
All-lacking P Q r [] f g h = tt
All-lacking P Q r ((u, x) ∷ held) f g (hx, h) = elim (Bool-cases (x == r)) [
  | inl e ↦ let t : true ≡ false = sym (ap (λ (b : Bool). b || gives r held) e) ∙ g in absurd cc
  | inr e ↦
      (f u x e hx, All-lacking P Q r held f (sym (ap (λ (b : Bool). b || gives r held) e) ∙ g) h)
]

-- A used set that keeps its resources but for `r`.
pub InUse-kept :
    (c : Contents) (r : ℕ) (w : Bytes) (rs : List ℕ) (held : List (Bytes × ℕ))
    → ((x : ℕ) → (x == r) ≡ false → has x (c true w) ≡ true → has x rs ≡ true)
    → gives r held ≡ false
    → All (InUse c) held
    → All (InUse (at_place c true w rs)) held
InUse-kept c r w rs held keep g h =
    All-lacking (InUse c) (InUse (at_place c true w rs)) r held
      (λ u x ne here. elim (at_place_cases c true w rs true u) [
        | inl (p, q, e) ↦
            ap (has x) e ∙ keep x ne (sym (ap (λ (v : Bytes). has x (c true v)) q) ∙ here)
        | inr (apart, e) ↦ ap (has x) e ∙ here
      ])
      g h
