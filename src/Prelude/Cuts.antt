-- ===== src/Prelude/Cuts.antt =====
-- Searches and cuts behind a known front of a text.
use Prim.Native.Nat.{zero, suc, ◌-◌, ℕ, ◌+◌}
use mathlib.Core.Path.{◌≡◌, refl, ap, ◌∙◌}
use mathlib.Core.Option.{none, some}
use mathlib.Core.List.{List, [], ◌∷◌, ◌++◌}
use native.Mathlib.Omega.{arith}
use wpp.Prelude.Lists.{length, take, drop, take-length, drop-length}
use wpp.Prelude.ByteStrings.{
  Bytes, Lacks, find_char_from, find_char-append, find_char-Lacks, substr,
}

pub drop-front : (front r : Bytes) (n : ℕ) → n ≡ length front → drop n (front ++ r) ≡ r
drop-front front r n e = ap (λ (k : ℕ). drop k (front ++ r)) e ∙ drop-length front r

pub take-front : (front r : Bytes) (n : ℕ) → n ≡ length front → take n (front ++ r) ≡ front
take-front front r n e = ap (λ (k : ℕ). take k (front ++ r)) e ∙ take-length front r

pub find_char_from-front :
    (c : ℕ) (front q r : Bytes) (n : ℕ)
    → n ≡ length front
    → Lacks c q
    → find_char_from c (front ++ (q ++ c ∷ r)) n ≡ some (n + length q)
find_char_from-front c front q r n e h =
    rw (drop-front front (q ++ c ∷ r) n e, find_char-append c q r h) refl

pub find_char_from-missing :
    (c : ℕ) (front q : Bytes) (n : ℕ)
    → n ≡ length front
    → Lacks c q
    → find_char_from c (front ++ q) n ≡ none
find_char_from-missing c front q n e h = rw (drop-front front q n e, find_char-Lacks c q h) refl

pub substr-front :
    (front q r : Bytes) (n m : ℕ)
    → n ≡ length front
    → m ≡ length q
    → substr (front ++ (q ++ r)) n m ≡ q
substr-front front q r n m e f = rw (drop-front front (q ++ r) n e) (take-front q r m f)

pub drop-drop {ℓ} : {A : Type ℓ} (n m : ℕ) (s : List A) → drop (n + m) s ≡ drop m (drop n s)
drop-drop zero m s = ap (λ (k : ℕ). drop k s) {y = m} (omega arith)
drop-drop (suc n) zero [] = ap (λ (k : ℕ). drop k []) {y = suc n} (omega arith)
drop-drop (suc n) (suc m) [] = ap (λ (k : ℕ). drop k []) {y = suc (n + suc m)} (omega arith)
drop-drop (suc n) m (x ∷ s) =
    ap (λ (k : ℕ). drop k (x ∷ s)) {y = suc (n + m)} (omega arith) ∙ drop-drop n m s

pub length-drop {ℓ} : {A : Type ℓ} (n : ℕ) (s : List A) → length (drop n s) ≡ length s - n
length-drop zero s = omega arith
length-drop (suc n) [] = omega arith
length-drop (suc n) (x ∷ s) = omega (arith, length-drop n s)
