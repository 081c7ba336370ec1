-- ===== src/Pool/Sets.antt =====
-- libraries/prio/include/priocpp/res.h: `std::set` of pointers, as ascending lists.
use wpp.Prelude.{
  ℕ, suc, ◌≤◌, Bool, true, false, List, [], ◌∷◌, if◌then◌else◌, ltb, ◌==◌, ◌||◌, length, ◌≡◌, refl,
  arith,
}

unfoldable pub has : ℕ → List ℕ → Bool
has r [] = false
has r (x ∷ xs) = x == r || has r xs

unfoldable pub insert : ℕ → List ℕ → List ℕ
insert r [] = r ∷ []
insert r (x ∷ xs) = if ltb r x then r ∷ x ∷ xs else if r == x then x ∷ xs else x ∷ insert r xs

unfoldable pub erase : ℕ → List ℕ → List ℕ
erase r [] = []
erase r (x ∷ xs) = if x == r then erase r xs else x ∷ erase r xs

abbrev pub Nodup : List ℕ → Type 0
Nodup [] = Unit
Nodup (x ∷ xs) = (has x xs ≡ false) × Nodup xs

pub has-insert : (j r : ℕ) (xs : List ℕ) → has j (insert r xs) ≡ (r == j || has j xs)
unfolding has insert
has-insert j r [] = refl
has-insert j r (x ∷ xs) = ground (arith, has-insert j r xs)

pub length-insert : (r : ℕ) (xs : List ℕ) → length (insert r xs) ≤ suc (length xs)
unfolding insert
length-insert r [] = omega arith
length-insert r (x ∷ xs) = ground (arith, length-insert r xs)

pub has-erase : (j r : ℕ) (xs : List ℕ) → has j (erase r xs) ≡ (if r == j then false else has j xs)
unfolding has erase
has-erase j r [] = ground arith
has-erase j r (x ∷ xs) = ground (arith, has-erase j r xs)

pub length-erase_le : (r : ℕ) (xs : List ℕ) → length (erase r xs) ≤ length xs
unfolding erase
length-erase_le r [] = omega arith
length-erase_le r (x ∷ xs) = ground (arith, length-erase_le r xs)

pub length-erase : (r : ℕ) (xs : List ℕ) → has r xs ≡ true → suc (length (erase r xs)) ≤ length xs
unfolding has erase
length-erase r [] h = absurd cc
length-erase r (x ∷ xs) h = ground (arith, length-erase r xs, length-erase_le r xs)

pub insert-Nodup : (r : ℕ) (xs : List ℕ) → has r xs ≡ false → Nodup xs → Nodup (insert r xs)
unfolding has insert
insert-Nodup r [] h d = (refl, tt)
insert-Nodup r (x ∷ xs) h (hx, d) = ground (arith, insert-Nodup r xs, has-insert x r xs)
