-- ===== src/Pool/Places.antt =====
-- libraries/prio/include/priocpp/res.h: a resource lies in one set of the pool at most, whatever the
-- calls of `insert` and `erase` that move it.
use wpp.Prelude.{
  Bytes, ℕ, Bool, true, false, List, if◌then◌else◌, Bool-cases, ◌==◌, ==_iff, ◌||◌, str_eq,
  str_eq_iff, ◌≡◌, ◌≢◌, refl, sym, ap, ◌∙◌, ◌⊎◌, inl, inr,
}
use wpp.Pool.Sets.{has, insert, has-insert}

-- The used resources of an url, for `true`, and the unused ones.
abbrev pub Contents : Type 0
Contents = Bool → Bytes → List ℕ

abbrev pub OnePlace : Contents → Type 0
OnePlace c =
    (x : ℕ) (k l : Bool) (u v : Bytes)
    → has x (c k u) ≡ true
    → has x (c l v) ≡ true
    → (k ≡ l) × (u ≡ v)

-- What is new in `d` is `r` in one place, and `r` is nowhere else.
pub moved-OnePlace :
    (c d : Contents) (r : ℕ) (m : Bool) (w : Bytes)
    → OnePlace c
    → ((x : ℕ) (k : Bool) (u : Bytes)
        → has x (d k u) ≡ true
        → ((x ≡ r) × (k ≡ m) × (u ≡ w)) ⊎ ((x ≢ r) × (has x (c k u) ≡ true)))
    → OnePlace d
moved-OnePlace c d r m w one h x k l u v a b = elim (h x k u a) [
  | inl (e, p, q) ↦ elim (h x l v b) [
    | inl (e', p', q') ↦ (p ∙ sym p', q ∙ sym q')
    | inr (ne, _) ↦ absurd (ne e)
  ]
  | inr (ne, old) ↦ elim (h x l v b) [
    | inl (e', p', q') ↦ absurd (ne e')
    | inr (_, old') ↦ one x k l u v old old'
  ]
]

-- Nothing is new in `d`.
pub fewer-OnePlace :
    (c d : Contents)
    → OnePlace c
    → ((x : ℕ) (k : Bool) (u : Bytes) → has x (d k u) ≡ true → has x (c k u) ≡ true)
    → OnePlace d
fewer-OnePlace c d one h x k l u v a b = one x k l u v (h x k u a) (h x l v b)

-- One set replaced.
abbrev pub at_place : Contents → Bool → Bytes → List ℕ → Contents
at_place c true w rs true u = if str_eq w u then rs else c true u
at_place c true w rs false u = c false u
at_place c false w rs true u = c true u
at_place c false w rs false u = if str_eq w u then rs else c false u

pub at_place_cases :
    (c : Contents) (m : Bool) (w : Bytes) (rs : List ℕ) (k : Bool) (u : Bytes)
    → ((k ≡ m) × (u ≡ w) × (at_place c m w rs k u ≡ rs))
      ⊎ (((k ≡ m) → (u ≡ w) → ⊥) × (at_place c m w rs k u ≡ c k u))
at_place_cases c true w rs true u = elim (Bool-cases (str_eq w u)) [
  | inl e ↦ inl (refl, sym ((str_eq_iff w u).0 e), rw e refl)
  | inr e ↦
      inr (λ _ q. let t : true ≡ false = sym ((str_eq_iff w u).1 (sym q)) ∙ e in cc, rw e refl)
]
at_place_cases c true w rs false u = inr (λ p _. cc, refl)
at_place_cases c false w rs true u = inr (λ p _. cc, refl)
at_place_cases c false w rs false u = elim (Bool-cases (str_eq w u)) [
  | inl e ↦ inl (refl, sym ((str_eq_iff w u).0 e), rw e refl)
  | inr e ↦
      inr (λ _ q. let t : true ≡ false = sym ((str_eq_iff w u).1 (sym q)) ∙ e in cc, rw e refl)
]

-- A resource that is nowhere is put in a place.
pub insert-OnePlace :
    (c : Contents) (r : ℕ) (m : Bool) (w : Bytes)
    → OnePlace c
    → ((k : Bool) (u : Bytes) → has r (c k u) ≡ false)
    → OnePlace (at_place c m w (insert r (c m w)))
insert-OnePlace c r m w one nowhere =
    moved-OnePlace c (at_place c m w (insert r (c m w))) r m w one λ x k u h.
      elim (at_place_cases c m w (insert r (c m w)) k u) [
        | inl (p, q, e) ↦ elim (Bool-cases (r == x)) [
          | inl same ↦ inl (sym ((==_iff r x).0 same), p, q)
          | inr other ↦ inr (
            λ same. let t : (r == x) ≡ true = (==_iff r x).1 (sym same) in cc,
            (ap (λ (b : Bool). has x (c b u)) p ∙ ap (λ (y : Bytes). has x (c m y)) q)
                ∙ sym (has-insert x r (c m w) ∙ ap (λ (b : Bool). b || has x (c m w)) other)
                ∙ sym (ap (has x) e)
                ∙ h,
          )
        ]
        | inr (apart, e) ↦ inr (
          λ same.
              let t : true ≡ false =
                sym (sym (ap (has x) e) ∙ h) ∙ ap (λ (y : ℕ). has y (c k u)) same ∙ nowhere k u in
              cc,
          sym (ap (has x) e) ∙ h,
        )
      ]

-- A place loses resources.
pub shrink-OnePlace :
    (c : Contents) (m : Bool) (w : Bytes) (rs : List ℕ)
    → OnePlace c
    → ((x : ℕ) → has x rs ≡ true → has x (c m w) ≡ true)
    → OnePlace (at_place c m w rs)
shrink-OnePlace c m w rs one sub = fewer-OnePlace c (at_place c m w rs) one λ x k u h.
    elim (at_place_cases c m w rs k u) [
      | inl (p, q, e) ↦
          ap (λ (b : Bool). has x (c b u)) p
          ∙ ap (λ (y : Bytes). has x (c m y)) q
          ∙ sub x (sym (ap (has x) e) ∙ h)
      | inr (apart, e) ↦ sym (ap (has x) e) ∙ h
    ]

-- A resource that its place has lost is nowhere.
pub lost :
    (c : Contents) (r : ℕ) (m : Bool) (w : Bytes) (rs : List ℕ)
    → OnePlace c
    → has r (c m w) ≡ true
    → has r rs ≡ false
    → (k : Bool) (u : Bytes) → has r (at_place c m w rs k u) ≡ false
lost c r m w rs one here gone k u = elim (at_place_cases c m w rs k u) [
  | inl (p, q, e) ↦ ap (has r) e ∙ gone
  | inr (apart, e) ↦ elim (Bool-cases (has r (c k u))) [
    | inl there ↦ let (p, q) = one r k m u w there here in absurd (apart p q)
    | inr away ↦ ap (has r) e ∙ away
  ]
]
