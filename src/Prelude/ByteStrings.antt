-- ===== src/Prelude/ByteStrings.antt =====
-- Byte strings, as `std::string` holds them, with the searches and cuts of `std::string` and the
-- `<cctype>` tests (C locale) that the sources use. `none` stands for `npos`.
use Prim.Native.Nat.{ℕ, suc, ◌+◌, ◌<◌, ◌≤◌}
use Prim.Native.Char.{code}
use Prim.Native.String.{String}
use mathlib.Core.Path.{◌≡◌, refl, ap}
use mathlib.Core.Logic.{◌↔◌, ◌≢◌, inl, inr}
use mathlib.Core.Bool.{Bool, true, false, ◌&&◌, ◌||◌}
use mathlib.Core.List.{List, [], ◌∷◌, ◌++◌}
use mathlib.Core.Option
use mathlib.Core.Option.{Option, none, some}
use native.Mathlib.Omega.{arith}
use wpp.Prelude.Tests.{Bool-cases, leb, ◌==◌, if◌then◌else◌}
use wpp.Prelude.Lists.{take, drop, All, length}

abbrev pub Bytes : Type 0
Bytes = List ℕ

-- The code points of a literal: its bytes, where the text is ASCII.
abbrev pub codes : String → Bytes
codes String.[] = []
codes (String.◌∷◌ c s) = code c ∷ codes s

abbrev pub Lacks : ℕ → Bytes → Type 0
Lacks b = All (λ c. c ≢ b)

abbrev pub IsByte : ℕ → Type 0
IsByte c = c < 256

abbrev pub is_digit : ℕ → Bool
is_digit c = leb b'0' c && leb c b'9'

abbrev pub is_upper : ℕ → Bool
is_upper c = leb b'A' c && leb c b'Z'

abbrev pub is_lower : ℕ → Bool
is_lower c = leb b'a' c && leb c b'z'

abbrev pub is_alnum : ℕ → Bool
is_alnum c = is_digit c || is_upper c || is_lower c

-- Space, \t, \n, \v, \f, \r.
abbrev pub is_space : ℕ → Bool
is_space c = c == 32 || (leb 9 c && leb c 13)

abbrev pub to_lower : ℕ → ℕ
to_lower c = if is_upper c then c + 32 else c

-- `operator==` on strings.
unfoldable pub str_eq : Bytes → Bytes → Bool
str_eq [] [] = true
str_eq (x ∷ xs) (y ∷ ys) = x == y && str_eq xs ys
str_eq _ _ = false

pub str_eq_iff : (a b : Bytes) → (str_eq a b ≡ true) ↔ (a ≡ b)
unfolding str_eq
str_eq_iff (x ∷ a) (y ∷ b) = ground (arith, str_eq_iff a b)
str_eq_iff _ _ = ground arith

-- What `c_str()` shows to a function that stops at the first NUL.
unfoldable pub c_str : Bytes → Bytes
c_str [] = []
c_str (c ∷ s) = if c == 0 then [] else c ∷ c_str s

unfoldable pub lower : Bytes → Bytes
lower [] = []
lower (c ∷ s) = to_lower c ∷ lower s

-- `strcasecmp(a.c_str(), b.c_str()) == 0`.
unfoldable pub case_eq : Bytes → Bytes → Bool
unfolding str_eq c_str lower
case_eq a b = str_eq (lower (c_str a)) (lower (c_str b))

pub str_eq_sym : (a b : Bytes) → str_eq a b ≡ str_eq b a
unfolding str_eq
str_eq_sym (x ∷ a) (y ∷ b) = ground (arith, str_eq_sym a b)
str_eq_sym [] [] = refl
str_eq_sym [] (y ∷ b) = refl
str_eq_sym (x ∷ a) [] = refl

pub str_eq_refl : (a : Bytes) → str_eq a a ≡ true
str_eq_refl a = (str_eq_iff a a).1 refl

pub case_eq_iff : (a b : Bytes) → (case_eq a b ≡ true) ↔ (lower (c_str a) ≡ lower (c_str b))
unfolding case_eq
case_eq_iff a b = str_eq_iff _ _

pub case_eq_refl : (a : Bytes) → case_eq a a ≡ true
case_eq_refl a = (case_eq_iff a a).1 refl

-- Keys that are equal up to case are compared alike with every other key.
pub case_eq_subst : (a b c : Bytes) → case_eq a b ≡ true → case_eq a c ≡ case_eq b c
unfolding case_eq
case_eq_subst a b c h = ap (λ (x : Bytes). str_eq x (lower (c_str c))) ((case_eq_iff a b).0 h)

pub case_eq_subst_right : (a b c : Bytes) → case_eq a b ≡ true → case_eq c a ≡ case_eq c b
unfolding case_eq
case_eq_subst_right a b c h = ap (str_eq (lower (c_str c))) ((case_eq_iff a b).0 h)

pub case_eq_apart : (k a b : Bytes) → case_eq k a ≡ false → case_eq k b ≡ true → case_eq a b ≡ false
case_eq_apart k a b e t = elim (Bool-cases (case_eq a b)) [
  | inl same ↦ cc (case_eq_subst_right a b k same)
  | inr apart ↦ apart
]

-- `s.find(c)` and `s.find(c, pos)`.
unfoldable pub find_char : ℕ → Bytes → Option ℕ
find_char c [] = none
find_char c (x ∷ s) = if x == c then some 0 else Option.map suc (find_char c s)

abbrev pub find_char_from : ℕ → Bytes → ℕ → Option ℕ
find_char_from c s pos = Option.map (λ i. pos + i) (find_char c (drop pos s))

unfoldable pub starts_with : Bytes → Bytes → Bool
starts_with [] s = true
starts_with (p ∷ ps) [] = false
starts_with (p ∷ ps) (c ∷ s) = p == c && starts_with ps s

-- `s.find(needle)`, for a needle that is not empty.
unfoldable pub find_str : Bytes → Bytes → Option ℕ
unfolding starts_with
find_str needle [] = none
find_str needle (c ∷ s) =
    if starts_with needle (c ∷ s) then some 0 else Option.map suc (find_str needle s)

-- The first and the last position where `p` holds.
unfoldable pub find_first : (ℕ → Bool) → Bytes → Option ℕ
find_first p [] = none
find_first p (c ∷ s) = if p c then some 0 else Option.map suc (find_first p s)

unfoldable pub find_last : (ℕ → Bool) → Bytes → Option ℕ
find_last p [] = none
find_last p (c ∷ s) = elim (find_last p s) [
  | some i ↦ some (suc i)
  | none ↦ if p c then some 0 else none
]

-- `s.substr(pos, n)` for `pos` within the string.
abbrev pub substr : Bytes → ℕ → ℕ → Bytes
substr s pos n = take n (drop pos s)

-- The first occurrence of a byte, and a text that lacks it.
pub find_char-append :
    (c : ℕ) (p r : Bytes) → Lacks c p → find_char c (p ++ c ∷ r) ≡ some (length p)
unfolding find_char
find_char-append c [] r h = ground arith
find_char-append c (x ∷ p) r (hx, h) =
    let e : (x == c) ≡ false = ground arith in rw e (ap (Option.map suc) (find_char-append c p r h))

pub find_char-Lacks : (c : ℕ) (p : Bytes) → Lacks c p → find_char c p ≡ none
unfolding find_char
find_char-Lacks c [] h = refl
find_char-Lacks c (x ∷ p) (hx, h) =
    let e : (x == c) ≡ false = ground arith in rw e (ap (Option.map suc) (find_char-Lacks c p h))

-- Where a byte was found, the text is cut there; where not, the text lacks it.
pub record FoundAt (c : ℕ) (s : Bytes) (i : ℕ) : Type 0 where
  pub front : Bytes
  pub back : Bytes
  pub splits : s ≡ front ++ c ∷ back
  pub front_lacks : Lacks c front
  pub front_length : length front ≡ i

pub data Search (c : ℕ) (s : Bytes) : Type 0 where
  found : (i : ℕ) → find_char c s ≡ some i → FoundAt c s i → Search c s
  missing : find_char c s ≡ none → Lacks c s → Search c s

cons-Search : (c x : ℕ) (s : Bytes) → Search c s → Search c (x ∷ s)
unfolding find_char
cons-Search c x s r = elim (Bool-cases (x == c)) [
  | inl e ↦ found 0 (rw e) (record {
    front = [];
    back = s;
    splits = ap (λ (y : ℕ). y ∷ s) (ground arith);
    front_lacks = tt;
    front_length = refl;
  })
  | inr e ↦ elim r [
    | found i at f ↦ found (suc i) (rw (e, at)) (record {
      front = x ∷ f.front;
      back = f.back;
      splits = ap (◌∷◌ x) f.splits;
      front_lacks = (ground arith, f.front_lacks);
      front_length = ap suc f.front_length;
    })
    | missing at h ↦ missing (rw (e, at)) (ground arith, h)
  ]
]

pub find_char-cases : (c : ℕ) (s : Bytes) → Search c s
find_char-cases c [] = missing (unfold find_char in refl) tt
find_char-cases c (x ∷ s) = cons-Search c x s (find_char-cases c s)

starts_with-append :
    (p s t : Bytes) → length p ≤ length s → starts_with p (s ++ t) ≡ starts_with p s
unfolding starts_with
starts_with-append [] s t h = refl
starts_with-append (x ∷ p) [] t h = absurd (omega arith)
starts_with-append (x ∷ p) (c ∷ s) t h = rw (starts_with-append p s t (omega arith))

starts_with-length : (p s : Bytes) → starts_with p s ≡ true → length p ≤ length s
unfolding starts_with
starts_with-length [] s h = omega arith
starts_with-length (x ∷ p) [] h = cc
starts_with-length (x ∷ p) (c ∷ s) h = ground (arith, starts_with-length p s)

-- A needle that was found lies within the text.
pub find_str-bound : (p s : Bytes) (i : ℕ) → find_str p s ≡ some i → i + length p ≤ length s
unfolding find_str
find_str-bound p [] i h = cc
find_str-bound p (c ∷ s) i h = elim (Bool-cases (starts_with p (c ∷ s))) [
  | inl e ↦ ground (arith, starts_with-length p (c ∷ s))
  | inr e ↦ bound (find_str p s) (λ j. find_str-bound p s j) (rw e at h)
]
  where
    bound :
        (o : Option ℕ)
        → ((j : ℕ) → o ≡ some j → j + length p ≤ length s)
        → Option.map suc o ≡ some i
        → i + length p ≤ suc (length s)
    bound none f h = cc
    bound (some j) f h = let k = f j refl in ground arith

-- Text behind it does not change where a needle is found.
pub find_str-append : (p s t : Bytes) (i : ℕ) → find_str p s ≡ some i → find_str p (s ++ t) ≡ some i
unfolding find_str
find_str-append p [] t i h = cc
find_str-append p (c ∷ s) t i h = elim (Bool-cases (starts_with p (c ∷ s))) [
  | inl e ↦ rw (starts_with-append p (c ∷ s) t (starts_with-length p (c ∷ s) e), e) (rw e at h)
  | inr e ↦
      later (find_str p s) (λ j. find_str-bound p s j) (λ j. find_str-append p s t j) e (rw e at h)
]
  where
    later :
        (o : Option ℕ)
        → ((j : ℕ) → o ≡ some j → j + length p ≤ length s)
        → ((j : ℕ) → o ≡ some j → find_str p (s ++ t) ≡ some j)
        → starts_with p (c ∷ s) ≡ false
        → Option.map suc o ≡ some i
        → (if starts_with p (c ∷ (s ++ t)) then some 0 else Option.map suc (find_str p (s ++ t)))
          ≡ some i
    later none f g e h = cc
    later (some j) f g e h =
        let k = f j refl in rw (starts_with-append p (c ∷ s) t (omega arith), e, g j refl) h
