-- ===== src/Pool/Scans.antt =====
-- libraries/prio/include/priocpp/res.h: the loops of `get` and `collect`, and the maps behind their
-- writes.
use wpp.Prelude.{
  Bytes, ℕ, suc, ◌≤◌, Bool, true, false, Option, none, some, List, [], ◌∷◌, ◌++◌, map,
  if◌then◌else◌, length, ltb, str_eq, Bool-cases, ◌≡◌, refl, sym, ap, ◌∙◌, inl, inr, arith,
}
use wpp.Prelude.Maps.{find, put, find-put}
use wpp.Pool.{Effect, freed, Stamps, erase_stamp, Shelf, items, at_url, scan, is_old, trim}
use wpp.Pool.Sets.{has, Nodup}
use wpp.Pool.Places.{at_place}
use wpp.Pool.System.{System, note, contents}

items-if :
    (b : Bool) (rs : List ℕ) (o : Option (List ℕ))
    → items (if b then some rs else o) ≡ (if b then rs else items o)
items-if true rs o = refl
items-if false rs o = refl

pub at_url-put :
    (w u : Bytes) (rs : List ℕ) (m : Shelf)
    → at_url u (put w rs m) ≡ (if str_eq w u then rs else at_url u m)
at_url-put w u rs m = ap items (find-put w rs u m) ∙ items-if (str_eq w u) rs (find u m)

pub contents-used :
    (used unused : Shelf) (w : Bytes) (rs : List ℕ)
    → contents (put w rs used) unused ≡ at_place (contents used unused) true w rs
contents-used used unused w rs = λ i k u. pointwise k u i
  where
    pointwise :
        (k : Bool) (u : Bytes)
        → contents (put w rs used) unused k u ≡ at_place (contents used unused) true w rs k u
    pointwise true u = at_url-put w u rs used
    pointwise false u = refl

pub contents-unused :
    (used unused : Shelf) (w : Bytes) (rs : List ℕ)
    → contents used (put w rs unused) ≡ at_place (contents used unused) false w rs
contents-unused used unused w rs = λ i k u. pointwise k u i
  where
    pointwise :
        (k : Bool) (u : Bytes)
        → contents used (put w rs unused) k u ≡ at_place (contents used unused) false w rs k u
    pointwise true u = refl
    pointwise false u = at_url-put w u rs unused

-- Resources that are freed change nothing else.
pub note-freed :
    (rs : List ℕ) (es : List Effect) (s : System) → note (map freed rs ++ es) s ≡ note es s
note-freed [] es s = refl
note-freed (r ∷ rs) es s = note-freed rs es s

-- Below the capacity the loop of `collect` stops at once.
pub trim_fits :
    (cap : ℕ) (rs : List ℕ) (ts : Stamps)
    → length rs ≤ cap
    → trim cap rs ts ≡ record { taken = none; rest = rs; stamps = ts; dropped = [] }
unfolding trim
trim_fits cap [] ts h = refl
trim_fits cap (r ∷ rs) ts h =
    let small : ltb cap (suc (length rs)) ≡ false = ground arith in rw small refl

-- What the loop of `get` takes and leaves of the unused resources.
pub record Takes (all : List ℕ) (taken : Option ℕ) (rest : List ℕ) : Type 0 where
  pub sub : (x : ℕ) → has x rest ≡ true → has x all ≡ true
  pub nodup : Nodup rest
  pub fewer : length rest ≤ length all
  pub found : (r : ℕ) → taken ≡ some r → has r all ≡ true
  pub alone : (r : ℕ) → taken ≡ some r → has r rest ≡ false
  pub left : (r : ℕ) → taken ≡ some r → suc (length rest) ≤ length all
  pub emptied : taken ≡ none → rest ≡ []

pub scan-Takes :
    (now max_age : ℕ) (all : List ℕ) (ts : Stamps)
    → Nodup all
    → Takes all (scan now max_age all ts).taken (scan now max_age all ts).rest
unfolding scan has
scan-Takes now max_age [] ts d = record {
  sub = λ x h. h;
  nodup = tt;
  fewer = omega arith;
  found = λ r h. cc;
  alone = λ r h. cc;
  left = λ r h. cc;
  emptied = λ h. refl;
}
scan-Takes now max_age (r ∷ rs) ts (fresh, d) = elim (Bool-cases (is_old now max_age ts r)) [
  | inl e ↦
      let later : Takes rs (scan now max_age rs (erase_stamp r ts)).taken
          (scan now max_age rs (erase_stamp r ts)).rest =
        scan-Takes now max_age rs (erase_stamp r ts) d in
      rw e (record {
        sub = λ x h. ground (arith, later.sub x h);
        nodup = later.nodup;
        fewer = omega (arith, later.fewer);
        found = λ x h. ground (arith, later.found x h);
        alone = later.alone;
        left = λ x h. omega (arith, later.left x h);
        emptied = later.emptied;
      })
  | inr e ↦ rw e (record {
    sub = λ x h. ground (arith);
    nodup = d;
    fewer = omega arith;
    found = λ x h. ground arith;
    alone = λ x h. let same : r ≡ x = cc in ap (λ (y : ℕ). has y rs) (sym same) ∙ fresh;
    left = λ x h. omega arith;
    emptied = λ h. cc;
  })
]
