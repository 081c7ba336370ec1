-- ===== src/Pool/Waiting.antt =====
-- libraries/prio/include/priocpp/res.h: promises that wait for a resource.
use wpp.Prelude.{
  Bytes, ℕ, ◌+◌, ◌≤◌, Bool, true, false, List, [], ◌∷◌, ◌++◌, map, if◌then◌else◌, length, ltb,
  str_eq_refl, ==_refl, ◌≡◌, refl, ap, ◌∙◌, arith,
}
use wpp.Prelude.Maps.{put}
use wpp.Pool.{
  Pool, Effect, resolved, retrieves, freed, erase_stamp, at_url, get, get_taken, scanned, collect,
  collect_for, release, scan,
}
use wpp.Pool.Sets.{has, erase}
use wpp.Pool.Scans.{at_url-put}

module _ (p : ℕ) (url : Bytes) (now : ℕ) (s : Pool) (quiet : s.waiting ≡ [])
    (none_left : at_url url s.unused ≡ [])
    (full : s.min_capacity ≤ length (at_url url s.used) + s.pending) where
  -- The pool behind a `get` that finds its url exhausted.
  queued : Pool
  queued = record s { unused = put url [] s.unused; waiting = p ∷ [] }

  get-queued : get p url now s ≡ (queued, [])
  unfolding get scan queued
  get-queued =
      let no_room : ltb (length (at_url url s.used) + s.pending) s.min_capacity ≡ false =
        ground arith in
      ap
        (λ rs.
          let c = scan now s.max_age rs s.timestamps in
          let (s', effects) = get_taken c.taken p url now (scanned url c s) in
          (s', map freed c.dropped ++ effects))
        none_left
      ∙ ap {A = Bool} {B = Pool × List Effect}
          (λ b.
            if b
            then (
              record s { unused = put url [] s.unused; pending = s.pending + 1 },
              retrieves p url ∷ [],
            )
            else (record s { unused = put url [] s.unused; waiting = s.waiting ++ p ∷ [] }, []))
          no_room
      ∙ ap (λ ps. (record s { unused = put url [] s.unused; waiting = ps ++ p ∷ [] }, [])) quiet

-- A promise that finds its url exhausted gets the next resource that comes back, with the url of
-- that: at one url a promise may get a connection to another one. Nothing must wait before, and the
-- resource must not be invalid.
pub get-collect :
    (p : ℕ) (other url : Bytes) (r now later : ℕ) (s : Pool)
    → s.shut ≡ false
    → s.waiting ≡ []
    → at_url other s.unused ≡ []
    → s.min_capacity ≤ length (at_url other s.used) + s.pending
    → has r s.invalid ≡ false
    → (collect url r later (get p other now s).0).1 ≡ resolved p url r ∷ []
unfolding collect queued
get-collect p other url r now later s alive quiet none_left full valid =
    ap (λ o. (collect url r later o.0).1) (get-queued p other now s quiet none_left full)
    ∙ ap
        (λ (b : Bool).
          (if b
            then (queued p other now s quiet none_left full, [])
            else if has r s.invalid
            then release url r
                (record (queued p other now s quiet none_left full) { invalid = erase r s.invalid })
            else collect_for (p ∷ []) url r later (queued p other now s quiet none_left full)).1)
        alive
    ∙ rw valid refl

-- The pool without a resource that is the only used one of its url, and was invalid.
without : Bytes → ℕ → Pool → Pool
without url r s = record s {
  invalid = erase r s.invalid;
  used = put url [] s.used;
  timestamps = erase_stamp r s.timestamps;
}

collect-invalid :
    (url : Bytes) (r later : ℕ) (s : Pool)
    → s.shut ≡ false
    → at_url url s.used ≡ r ∷ []
    → has r s.invalid ≡ true
    → collect url r later s ≡ (without url r s, freed r ∷ [])
unfolding collect release without has erase
collect-invalid url r later s alive last invalid =
    ap {A = Bool} {B = Pool × List Effect}
      (λ b.
        if b
        then (s, [])
        else if has r s.invalid
        then (if b then (record s { invalid = erase r s.invalid }, []) else (
          record s {
            invalid = erase r s.invalid;
            used =
                if has r (at_url url s.used)
                then put url (erase r (at_url url s.used)) s.used
                else s.used;
            timestamps = erase_stamp r s.timestamps;
          },
          freed r ∷ [],
        ))
        else collect_for s.waiting url r later s)
      alive
    ∙ ap {A = Bool} {B = Pool × List Effect}
        (λ b.
          if b
          then (
            record s {
              invalid = erase r s.invalid;
              used =
                  if has r (at_url url s.used)
                  then put url (erase r (at_url url s.used)) s.used
                  else s.used;
              timestamps = erase_stamp r s.timestamps;
            },
            freed r ∷ [],
          )
          else collect_for s.waiting url r later s)
        invalid
    ∙ ap {A = List ℕ} {B = Pool × List Effect}
        (λ rs. (
          record s {
            invalid = erase r s.invalid;
            used = if has r rs then put url (erase r rs) s.used else s.used;
            timestamps = erase_stamp r s.timestamps;
          },
          freed r ∷ [],
        ))
        last
    ∙ rw (==_refl r) refl

-- In a pool with a `min_capacity_` of 0 or 1 and nothing waiting, a promise that waits for the only
-- resource of its url is left waiting where that is found invalid, although its url then has no
-- resource and the pool opens none.
pub get-collect_invalid :
    (p : ℕ) (url : Bytes) (r now later : ℕ) (s : Pool)
    → s.shut ≡ false
    → s.waiting ≡ []
    → at_url url s.unused ≡ []
    → at_url url s.used ≡ r ∷ []
    → s.min_capacity ≤ 1
    → has r s.invalid ≡ true
    → let after = collect url r later (get p url now s).0 in
      (after.1 ≡ freed r ∷ []) × (after.0.waiting ≡ p ∷ []) × (at_url url after.0.used ≡ [])
unfolding without queued
get-collect_invalid p url r now later s alive quiet none_left last few invalid =
    let full : s.min_capacity ≤ length (at_url url s.used) + s.pending =
      omega (arith, ap length last) in
    let after : collect url r later (get p url now s).0
        ≡ (without url r (queued p url now s quiet none_left full), freed r ∷ []) =
      ap (λ o. collect url r later o.0) (get-queued p url now s quiet none_left full)
      ∙ collect-invalid url r later (queued p url now s quiet none_left full) alive last invalid in
    (
      ap (λ o. o.1) after,
      ap (λ o. o.0.waiting) after,
      ap (λ o. at_url url o.0.used) after
          ∙ at_url-put url url [] s.used
          ∙ ap {A = Bool} {B = List ℕ} (λ b. if b then [] else at_url url s.used) (str_eq_refl url),
    )
