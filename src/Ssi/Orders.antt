-- ===== src/Ssi/Orders.antt =====
-- libraries/repro-web/src/ssi.cpp: includes that end in any order.
use wpp.Prelude.{
  Bytes, ℕ, zero, suc, ◌<◌, Bool, true, false, List, [], ◌∷◌, if◌then◌else◌, length, ◌==◌, ◌||◌,
  get_or, Bool-cases, inl, inr, ◌≡◌, refl, sym, ap, ◌∙◌, arith,
}
use wpp.Ssi.{Resolver, Event, fetched, Effect, resolve, combine, set_at, step, run, repeat, started}

-- The list of the values at the first numbers.
abbrev pub tabulate : ℕ → (ℕ → Bytes) → List Bytes
tabulate zero f = []
tabulate (suc k) f = f 0 ∷ tabulate k (λ i. f (suc i))

abbrev pub among : ℕ → List ℕ → Bool
among i [] = false
among i (n ∷ ns) = n == i || among i ns

tabulate-same :
    (k : ℕ) (f g : ℕ → Bytes) → ((i : ℕ) → i < k → f i ≡ g i) → tabulate k f ≡ tabulate k g
tabulate-same zero f g h = refl
tabulate-same (suc k) f g h =
    ap (λ x. x ∷ tabulate k (λ i. f (suc i))) (h 0 (omega arith))
    ∙ ap (λ xs. g 0 ∷ xs)
        (tabulate-same k (λ i. f (suc i)) (λ i. g (suc i)) (λ i l. h (suc i) (omega arith)))

same_test : (n i : ℕ) → (n == i) ≡ (suc n == suc i)
same_test n i = elim (Bool-cases (n == i)) [ inl e ↦ ground arith | inr e ↦ ground arith ]

set_at-tabulate :
    (k n : ℕ) (s : Bytes) (f : ℕ → Bytes)
    → set_at n s (tabulate k f) ≡ tabulate k (λ i. if n == i then s else f i)
set_at-tabulate zero n s f = refl
set_at-tabulate (suc k) zero s f =
    ap (λ xs. s ∷ xs)
      (tabulate-same k (λ i. f (suc i)) (λ i. if 0 == suc i then s else f (suc i))
        (λ i l. let z : (0 == suc i) ≡ false = ground arith in rw z refl))
set_at-tabulate (suc k) (suc n) s f =
    let z : (suc n == 0) ≡ false = ground arith in
    rw z (
      ap (λ xs. f 0 ∷ xs)
        (set_at-tabulate k n s (λ i. f (suc i))
          ∙ tabulate-same k (λ i. if n == i then s else f (suc i))
              (λ i. if suc n == suc i then s else f (suc i))
              (λ i l. ap (λ (b : Bool). if b then s else f (suc i)) (same_test n i))))

repeat-tabulate : (k : ℕ) → repeat k [] ≡ tabulate k (λ i. [])
repeat-tabulate zero = refl
repeat-tabulate (suc k) = ap (λ xs. [] ∷ xs) (repeat-tabulate k)

get_or-repeat : (k n : ℕ) → get_or (repeat k false) n false ≡ false
get_or-repeat zero n = refl
get_or-repeat (suc k) zero = refl
get_or-repeat (suc k) (suc n) = get_or-repeat k n

-- The pages of the includes `n`, ..., in the order in which they come.
abbrev pub arrivals : (ℕ → Bytes) → List ℕ → List Event
arrivals page [] = []
arrivals page (n ∷ ns) = fetched n (page n) ∷ arrivals page ns

module _ (parts : List Bytes) (k : ℕ) (page : ℕ → Bytes) where
  -- Some pages are there, and `cnt` are missing.
  abbrev waiting : (ℕ → Bytes) → ℕ → Resolver
  waiting f cnt = record {
    parts = parts;
    resolves = tabulate k f;
    cnt = cnt;
    rejected = repeat k false;
  }

  abbrev done : List Effect
  done = resolve (combine parts (tabulate k page)) ∷ []

  missing_later :
      (n : ℕ) (ns : List ℕ) (f : ℕ → Bytes)
      → ((i : ℕ) → i < k → (if among i (n ∷ ns) then page i else f i) ≡ page i)
      → (i : ℕ) → i < k
      → (if among i ns then page i else if n == i then page n else f i) ≡ page i
  missing_later n ns f h i l = elim (Bool-cases (among i ns)) [
    | inl a ↦ rw a refl
    | inr a ↦ elim (Bool-cases (n == i)) [
      | inl e ↦ rw (a, e) (ap page (ground arith))
      | inr e ↦ rw (a, e) (rw (e, a) at (h i l))
    ]
  ]

  run-waiting :
      (n : ℕ) (ns : List ℕ) (f : ℕ → Bytes)
      → ((i : ℕ) → i < k → (if among i (n ∷ ns) then page i else f i) ≡ page i)
      → run (arrivals page (n ∷ ns)) (waiting f (suc (length ns))) ≡ done
  unfolding run step
  run-waiting n [] f h =
      rw (get_or-repeat k n, set_at-tabulate k n (page n) f)
        (ap (λ xs. resolve (combine parts xs) ∷ [])
          (tabulate-same k (λ i. if n == i then page n else f i) page (missing_later n [] f h)))
  run-waiting n (m ∷ ns) f h =
      let more : (suc (suc (length ns)) == 1) ≡ false = ground arith in
      rw (more, set_at-tabulate k n (page n) f)
        (ap (λ c. run (arrivals page (m ∷ ns)) (waiting (λ i. if n == i then page n else f i) c))
            {y = suc (length ns)} (omega arith)
          ∙ run-waiting m ns (λ i. if n == i then page n else f i) (missing_later n (m ∷ ns) f h))

  -- When every include is fetched, in any order, the promise of the page is resolved once, with the
  -- page in which each include stands in its place.
  pub run-arrivals :
      (n : ℕ) (ns : List ℕ)
      → suc (length ns) ≡ k
      → ((i : ℕ) → i < k → among i (n ∷ ns) ≡ true)
      → run (arrivals page (n ∷ ns)) (started parts k)
        ≡ resolve (combine parts (tabulate k page)) ∷ []
  run-arrivals n ns size all =
      ap (λ xs. run (arrivals page (n ∷ ns)) (record (started parts k) { resolves = xs }))
        (repeat-tabulate k)
      ∙ ap (λ c. run (arrivals page (n ∷ ns)) (waiting (λ i. []) c)) (sym size)
      ∙ run-waiting n ns (λ i. []) (λ i l. rw (all i l) refl)
