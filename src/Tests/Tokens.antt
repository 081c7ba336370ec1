-- ===== src/Tests/Tokens.antt =====
-- Tokens at concrete inputs, with small functions for Base64Url, JSON and the HMAC.
use wpp.Prelude.{
  Bytes, ℕ, ◌+◌, ◌-◌, Option, none, true, some, [], ◌∷◌, ◌++◌, codes, map, ◌≡◌, ◌≢◌, ◌↔◌, refl,
  arith, All,
}
use wpp.Text.Split.{IsPart}
use wpp.Jwt.{Outside, Jwt, parse, verify, sign, dot}
use wpp.Jwt.Tokens.{Lawful, parse-sign, verify_forged}

-- A value is the number that was put last; its text has one byte.
abbrev shift : Bytes → Bytes
shift = map (λ c. c + 100)

abbrev unshift : Bytes → Bytes
unshift [] = []
unshift (c ∷ s) = (c - 100) ∷ unshift s

abbrev first_byte : Bytes → Option ℕ
first_byte [] = none
first_byte (c ∷ s) = some c

abbrev toy : Outside ℕ ℕ
toy = record {
  encode = shift;
  decode = unshift;
  hmac = λ secret t. secret ++ t;
  key_sign = λ key t. key ∷ t;
  key_verify = λ key t s. true;
  stringify = λ v. v ∷ [];
  parse_json = first_byte;
  object = 0;
  text = λ t. 1;
  number = λ n. n;
  put = λ key v w. v;
  int_at = λ key v. some v;
}

unshift-shift : (x : Bytes) → unshift (shift x) ≡ x
unshift-shift [] = refl
unshift-shift (c ∷ x) = λ i. at_byte i ∷ unshift-shift x i
  where
    at_byte : c + 100 - 100 ≡ c
    at_byte = omega arith

shift-All : (x : Bytes) → All (λ c. c ≢ dot) (shift x)
shift-All [] = tt
shift-All (c ∷ x) = (λ e. omega arith, shift-All x)

shift-IsPart : (x : Bytes) → x ≢ [] → IsPart dot (shift x)
shift-IsPart [] ne = absurd (ne refl)
shift-IsPart (c ∷ x) ne = (λ e. cc, shift-All (c ∷ x))

toy-Lawful : Lawful toy
toy-Lawful = record {
  decode-encode = unshift-shift;
  encode-IsPart = shift-IsPart;
  parse-stringify = λ v. refl;
  stringify-ne = λ v e. cc;
  int_at-put = λ n v small. refl;
}

abbrev blank : Jwt ℕ
blank = record { header = 5; claim = 6; signature = []; payload = [] }

parse-sign_example :
    ((parse toy (sign toy (codes "k") 1000 60 blank).1 1030 blank).0 ≡ true)
    × ((parse toy (sign toy (codes "k") 1000 60 blank).1 1030 blank).1.header ≡ 1)
    × ((parse toy (sign toy (codes "k") 1000 60 blank).1 1030 blank).1.claim ≡ 1060)
    × (verify toy (codes "k") (parse toy (sign toy (codes "k") 1000 60 blank).1 1030 blank).1
        ≡ true)
parse-sign_example =
    parse-sign toy toy-Lawful (codes "k") 1000 60 1030 blank blank (λ t e. cc) (omega arith)
      (omega arith)

-- The claim is changed behind a signature of another text.
verify_forged_example :
    ((parse toy ((codes "a" ++ dot ∷ 9000 ∷ []) ++ dot ∷ shift (codes "kx")) 1030 blank).0 ≡ true)
    × ((verify toy
            (codes "k")
            (parse toy ((codes "a" ++ dot ∷ 9000 ∷ []) ++ dot ∷ shift (codes "kx")) 1030 blank).1
          ≡ true)
        ↔ (codes "k" ++ (codes "a" ++ dot ∷ 9000 ∷ []) ≡ codes "k" ++ codes "x"))
verify_forged_example =
    verify_forged toy toy-Lawful (codes "k") (codes "x") (codes "a") (9000 ∷ []) 0 8900 8900 1030
      blank ((λ e. cc), ((λ e. cc), tt)) ((λ e. cc), ((λ e. cc), tt)) (λ e. cc) refl refl refl
      (omega arith) (omega arith)
