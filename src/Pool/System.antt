-- ===== src/Pool/System.antt =====
-- libraries/prio/include/priocpp/res.h: a pool, with the resources that its shared pointers hold and the
-- openings that have not ended, and what may happen to these.
use wpp.Prelude.{
  Bytes, ℕ, suc, ◌+◌, ◌≤◌, Bool, true, false, List, [], ◌∷◌, ◌++◌, if◌then◌else◌, length, ◌||◌,
  ◌==◌, All, str_eq, ◌≡◌,
}
use wpp.Pool
use wpp.Pool.{Pool, Effect, resolved, rejected, retrieves, freed, Shelf, at_url}
use wpp.Pool.Sets.{has, Nodup}
use wpp.Pool.Places.{Contents, OnePlace}

pub record System : Type 0 where
  pub pool : Pool
  -- the urls and resources of the shared pointers that are alive
  pub held : List (Bytes × ℕ)
  -- the promises and urls of the calls of `L::retrieve` that have not ended
  pub opening : List (ℕ × Bytes)
  -- the callbacks that are before their `pending_--`
  pub settling : ℕ

-- What the effects of a call make of the rest.
abbrev pub note : List Effect → System → System
note [] s = s
note (resolved p url r ∷ es) s = note es (record s { held = (url, r) ∷ s.held })
note (retrieves p url ∷ es) s = note es (record s { opening = (p, url) ∷ s.opening })
note (rejected p ∷ es) s = note es s
note (freed r ∷ es) s = note es s

abbrev pub outcome : System → Pool × List Effect → System
outcome s (pool, es) = note es (record s { pool = pool })

abbrev pub contents : Shelf → Shelf → Contents
contents used unused true u = at_url u used
contents used unused false u = at_url u unused

abbrev pub inside : Pool → Contents
inside s = contents s.used s.unused

-- `L::retrieve` gives a resource that is not alive yet.
pub data Step (s : System) : System → Type 0 where
  got : (p : ℕ) (url : Bytes) (now : ℕ) → Step s (outcome s (Pool.get p url now s.pool))
  retrieved :
      (p : ℕ) (url : Bytes) (r now : ℕ) (before after : List (ℕ × Bytes))
      → s.opening ≡ before ++ (p, url) ∷ after
      → ((k : Bool) (u : Bytes) → has r (inside s.pool k u) ≡ false)
      → Step s (
          outcome
            (record s { opening = before ++ after; settling = suc s.settling })
            (Pool.retrieved p url r now s.pool))
  failed :
      (p : ℕ) (url : Bytes) (before after : List (ℕ × Bytes))
      → s.opening ≡ before ++ (p, url) ∷ after
      → Step s (
          outcome
            (record s { opening = before ++ after; settling = suc s.settling })
            (Pool.retrieve_failed p s.pool))
  settled :
      (n : ℕ)
      → s.settling ≡ suc n
      → Step s (outcome (record s { settling = n }) (Pool.settled s.pool))
  collected :
      (url : Bytes) (r now : ℕ) (before after : List (Bytes × ℕ))
      → s.held ≡ before ++ (url, r) ∷ after
      → Step s (outcome (record s { held = before ++ after }) (Pool.collect url r now s.pool))
  invalidated : (r : ℕ) → Step s (outcome s (Pool.invalidate r s.pool))
  shut : Step s (outcome s (Pool.shutdown s.pool))

pub data Reach (s : System) : System → Type 0 where
  here : Reach s s
  next : {t u : System} → Reach s t → Step t u → Reach s u

abbrev pub start : ℕ → System
start c = record { pool = Pool.new_pool c; held = []; opening = []; settling = 0 }

-- Whether a shared pointer has the resource.
abbrev pub gives : ℕ → List (Bytes × ℕ) → Bool
gives r [] = false
gives r ((u, x) ∷ hs) = x == r || gives r hs

-- No resource has two shared pointers.
abbrev pub Sole : List (Bytes × ℕ) → Type 0
Sole [] = Unit
Sole ((u, r) ∷ hs) = (gives r hs ≡ false) × Sole hs

abbrev pub openings : Bytes → List (ℕ × Bytes) → ℕ
openings u [] = 0
openings u ((p, url) ∷ os) = (if str_eq url u then 1 else 0) + openings u os

abbrev pub InUse : Contents → Bytes × ℕ → Type 0
InUse c (u, r) = has r (c true u) ≡ true

-- What holds of a pool before `shutdown`.
pub record IsSound (c : Contents) (cap pending : ℕ) (held : List (Bytes × ℕ))
    (opening : List (ℕ × Bytes)) (settling : ℕ) : Type 0 where
  pub one : OnePlace c
  pub nodup : (u : Bytes) → Nodup (c false u)
  pub in_use : All (InUse c) held
  pub sole : Sole held
  pub quota : (u : Bytes) → length (c true u) + length (c false u) + openings u opening ≤ cap
  pub counted : pending ≡ length opening + settling

abbrev pub SystemIsSound : System → Type 0
SystemIsSound s =
    IsSound (inside s.pool) s.pool.min_capacity s.pool.pending s.held s.opening s.settling
