-- ===== src/Ssi.antt =====
-- libraries/repro-web/src/ssi.cpp: `SSIResolver`, which cuts a template at its includes, fetches these and
-- puts the pages in their places. The regular expression of an include is a parameter: `regex_search`
-- gives the submatches behind the whole match.
pub mod Orders
pub mod Parts
use wpp.Prelude.{
  Bytes, ℕ, zero, suc, ◌+◌, ◌-◌, Bool, true, false, not, Option, none, some, List, [], ◌∷◌, ◌++◌,
  if◌then◌else◌, ◌>>=◌, codes, find_str, take, drop, length, ◌==◌, get_or,
}

abbrev pub opening : Bytes
opening = codes "<!--#include"

-- The first submatch of an include.
abbrev pub first_match : Option (List Bytes) → Option Bytes
first_match none = none
first_match (some []) = none
first_match (some (u ∷ ms)) = some u

-- A part in front of what is cut behind it.
abbrev pub with_part : Bytes → Bytes → List Bytes × List Bytes → Option (List Bytes × List Bytes)
with_part part url (parts, includes) = some (part ∷ parts, url ∷ includes)

module _ (regex_search : Bytes → Option (List Bytes)) where
  -- The loop of `match` on the text from `start` on; `none` is `false`.
  unfoldable pub match_loop : ℕ → Bytes → Option (List Bytes × List Bytes)
  unfolding find_str
  match_loop zero rest = none
  match_loop (suc fuel) rest = elim (find_str opening rest) [
    | none ↦ some (rest ∷ [], [])
    | some i ↦ elim (find_str (codes "-->") (drop (i + 12) rest)) [
      | none ↦ none
      | some e ↦
          first_match (regex_search (take (12 + e + 3) (drop i rest)))
          >>= (λ url. match_loop fuel (drop (i + 12 + e + 3) rest) >>= with_part (take i rest) url)
    ]
  ]

  unfoldable pub match : Bytes → Option (List Bytes × List Bytes)
  unfolding match_loop
  match tmpl = match_loop (suc (length tmpl)) tmpl

-- `parts_`, `resolves_` and `cnt_`, and the flag `rejected` of each include.
pub record Resolver : Type 0 where
  pub parts : List Bytes
  pub resolves : List Bytes
  pub cnt : ℕ
  pub rejected : List Bool

-- `combine`.
abbrev pub combine : List Bytes → List Bytes → Bytes
combine (p ∷ parts) (r ∷ resolves) = p ++ (r ++ combine parts resolves)
combine (p ∷ parts) [] = p
combine [] _ = []

-- The end of an include, with its number: the page, or an error.
pub data Event : Type 0 where
  fetched : ℕ → Bytes → Event
  failed : ℕ → Event

-- What becomes of the promise of `fetch`.
pub data Effect : Type 0 where
  resolve : Bytes → Effect
  reject : Effect

abbrev pub set_at {ℓ} : {A : Type ℓ} → ℕ → A → List A → List A
set_at n a [] = []
set_at zero a (x ∷ xs) = a ∷ xs
set_at (suc n) a (x ∷ xs) = x ∷ set_at n a xs

-- The last include resolves the promise, if its own flag is not set.
unfoldable pub step : Event → Resolver → Resolver × List Effect
step (fetched n s) r =
    let resolves = set_at n s r.resolves in
    (
      record r { resolves = resolves; cnt = r.cnt - 1 },
      if r.cnt == 1
          then if get_or r.rejected n false then [] else resolve (combine r.parts resolves) ∷ []
          else [],
    )
step (failed n) r = (
  record r { cnt = r.cnt - 1; rejected = set_at n true r.rejected },
  if get_or r.rejected n false then [] else reject ∷ [],
)

unfoldable pub run : List Event → Resolver → List Effect
unfolding step
run [] r = []
run (e ∷ es) r = (step e r).1 ++ run es (step e r).0

abbrev pub repeat {ℓ} : {A : Type ℓ} → ℕ → A → List A
repeat zero a = []
repeat (suc n) a = a ∷ repeat n a

-- The resolver when all `count` includes are on their way.
abbrev pub started : List Bytes → ℕ → Resolver
started parts count = record {
  parts = parts;
  resolves = repeat count [];
  cnt = count;
  rejected = repeat count false;
}
