-- ===== src/Ssi/Parts.antt =====
-- libraries/repro-web/src/ssi.cpp: templates that are cut at their includes.
use wpp.Prelude.{
  Bytes, ℕ, zero, suc, ◌≤◌, ◌<◌, Option, some, List, [], ◌∷◌, ◌++◌, codes, find_str, starts_with,
  length, length-append, take-length, Lacks, All, ◌≡◌, refl, arith,
}
use wpp.Prelude.Marks.{find_behind, find_missing, behind_opening, tag_at, behind_tag}
use wpp.Ssi.{opening, first_match, match_loop, match}

-- An include: what stands between `<!--#include` and `-->`, its url, and the text behind it.
abbrev pub Include : Type 0
Include = Bytes × (Bytes × Bytes)

abbrev pub closing : Bytes
closing = codes "-->"

abbrev pub tag : Bytes → Bytes
tag mid = opening ++ (mid ++ closing)

-- The template, and its parts and urls.
abbrev pub weave : Bytes → List Include → Bytes
weave p [] = p
weave p ((mid, (url, q)) ∷ more) = p ++ (opening ++ (mid ++ (closing ++ weave q more)))

abbrev pub parts_of : Bytes → List Include → List Bytes
parts_of p [] = p ∷ []
parts_of p ((mid, (url, q)) ∷ more) = p ∷ parts_of q more

abbrev pub urls_of : List Include → List Bytes
urls_of [] = []
urls_of ((mid, (url, q)) ∷ more) = url ∷ urls_of more

length-weave : (p : Bytes) (is : List Include) → length is ≤ length (weave p is)
length-weave p [] = omega arith
length-weave p ((mid, (url, q)) ∷ more) = omega (
  arith,
  length-append {0} p (opening ++ (mid ++ (closing ++ weave q more))),
  length-append {0} mid (closing ++ weave q more),
  length-weave q more,
)

module _ (regex_search : Bytes → Option (List Bytes)) where
  -- An include whose tag is found by the expression, with its url as the first submatch.
  abbrev pub IsInclude : Include → Type 0
  IsInclude (mid, (url, q)) =
      Lacks b'-' mid × (Lacks b'<' q × (first_match (regex_search (tag mid)) ≡ some url))

  pub match_loop-weave :
      (fuel : ℕ) (p : Bytes) (is : List Include)
      → length is < fuel
      → Lacks b'<' p
      → All IsInclude is
      → match_loop regex_search fuel (weave p is) ≡ some (parts_of p is, urls_of is)
  unfolding match_loop
  match_loop-weave zero p is enough hp h = absurd (omega arith)
  match_loop-weave (suc fuel) p [] enough hp h =
      rw (match_loop, find_missing b'<' (codes "!--#include") p hp) refl
  match_loop-weave (suc fuel) p ((mid, (url, q)) ∷ more) enough hp ((hm, (hq, found)), h) =
      rw
        (
          match_loop,
          opens,
          behind_opening opening closing p mid (weave q more),
          closes,
          tag_at opening closing p mid (weave q more),
          found,
          behind_tag opening closing p mid (weave q more),
          match_loop-weave fuel q more (omega arith) hq h,
          take-length p (opening ++ (mid ++ (closing ++ weave q more))),
        )
        refl
    where
      opens : find_str opening (weave p ((mid, (url, q)) ∷ more)) ≡ some (length p)
      opens =
          find_behind b'<' (codes "!--#include") p (mid ++ (closing ++ weave q more)) hp
            (unfold starts_with in refl)

      closes : find_str closing (mid ++ (closing ++ weave q more)) ≡ some (length mid)
      closes = find_behind b'-' (codes "->") mid (weave q more) hm (unfold starts_with in refl)

  -- A template whose parts hold no `<` and whose includes hold no `-` and are found by the
  -- expression is cut at its includes: `match` gives the parts and the urls in order.
  pub match-weave :
      (p : Bytes) (is : List Include)
      → Lacks b'<' p
      → All IsInclude is
      → match regex_search (weave p is) ≡ some (parts_of p is, urls_of is)
  unfolding match
  match-weave p is hp h =
      match_loop-weave (suc (length (weave p is))) p is (omega (arith, length-weave p is)) hp h
