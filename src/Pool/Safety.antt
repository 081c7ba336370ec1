-- ===== src/Pool/Safety.antt =====
-- libraries/prio/include/priocpp/res.h: what holds in every state that a pool can reach.
use mathlib.Core.Path.{subst}
use wpp.Prelude.{
  Bytes, ℕ, ◌+◌, Bool, true, false, Option, none, some, List, [], ◌∷◌, ◌++◌, length, ltb,
  Bool-cases, ◌≡◌, refl, sym, ap, ◌∙◌, inl, inr, arith,
}
use wpp.Prelude.Maps.{find}
use wpp.Pool
use wpp.Pool.{
  Pool, Effect, resolved, rejected, retrieves, freed, at_url, Scan, scan, get_taken, scanned,
}
use wpp.Pool.Sets.{has, Nodup}
use wpp.Pool.System.{
  System, note, outcome, inside, Step, got, retrieved, failed, settled, collected, invalidated,
  shut, Reach, here, next, start, SystemIsSound,
}
use wpp.Pool.Steps.{Live, get-IsSound}
use wpp.Pool.Runs.{ended-IsSound, retrieved-IsSound, settled-IsSound, collect-IsSound}

pool-note : (es : List Effect) (s : System) → (note es s).pool ≡ s.pool
pool-note [] s = refl
pool-note (resolved p url r ∷ es) s = pool-note es (record s { held = (url, r) ∷ s.held })
pool-note (retrieves p url ∷ es) s = pool-note es (record s { opening = (p, url) ∷ s.opening })
pool-note (rejected p ∷ es) s = pool-note es s
pool-note (freed r ∷ es) s = pool-note es s

still_shut :
    (s : System) (t : Pool) (es : List Effect)
    → t.shut ≡ true
    → (outcome s (t, es)).pool.shut ≡ true
still_shut s t es e = ap (λ (x : Pool). x.shut) (pool-note es (record s { pool = t })) ∙ e

get-shut : (p : ℕ) (url : Bytes) (now : ℕ) (s : Pool) → (Pool.get p url now s).0.shut ≡ s.shut
unfolding Pool.get
get-shut p url now s =
    taken_shut (scan now s.max_age (at_url url s.unused) s.timestamps)
      (scan now s.max_age (at_url url s.unused) s.timestamps).taken
  where
    taken_shut :
        (c : Scan) (taken : Option ℕ)
        → (get_taken taken p url now (scanned url c s)).0.shut ≡ s.shut
    taken_shut c (some r) = refl
    taken_shut c none =
        elim (Bool-cases (ltb (length (at_url url s.used) + s.pending) s.min_capacity)) [
          | inl e ↦ rw e refl
          | inr e ↦ rw e refl
        ]

collect-shut :
    (url : Bytes) (r now : ℕ) (s : Pool) → s.shut ≡ true → (Pool.collect url r now s).0.shut ≡ true
unfolding Pool.collect
collect-shut url r now s e = ground (arith)

Step-Live : {s t : System} → Step s t → Live s → Live t
unfolding Pool.retrieved Pool.settled Pool.invalidate Pool.shutdown
Step-Live {s} (got p url now) (inl e) = inl (
    still_shut s (Pool.get p url now s.pool).0 (Pool.get p url now s.pool).1
      (get-shut p url now s.pool ∙ e))
Step-Live {s} (got p url now) (inr sound) = inr (get-IsSound p url now s sound)
Step-Live {s} (retrieved p url r now before after split fresh) (inl e) = inl e
Step-Live {s} (retrieved p url r now before after split fresh) (inr sound) =
    inr (retrieved-IsSound s sound p url before after split r now fresh)
Step-Live {s} (failed p url before after split) (inl e) = inl e
Step-Live {s} (failed p url before after split) (inr sound) =
    inr (ended-IsSound s sound p url before after split)
Step-Live {s} (settled n e) (inl shut_already) = inl shut_already
Step-Live {s} (settled n e) (inr sound) = inr (settled-IsSound s n sound e)
Step-Live {s} (collected url r now before after split) live = elim (Bool-cases s.pool.shut) [
  | inl e ↦ inl (
      still_shut (record s { held = before ++ after }) (Pool.collect url r now s.pool).0
        (Pool.collect url r now s.pool).1 (collect-shut url r now s.pool e))
  | inr alive ↦ elim live [
    | inl e ↦ let t : true ≡ false = sym e ∙ alive in absurd cc
    | inr sound ↦ inr (collect-IsSound s sound url r now before after split alive)
  ]
]
Step-Live {s} (invalidated r) (inl e) = inl e
Step-Live {s} (invalidated r) (inr sound) = inr sound
Step-Live {s} shut live = inl (still_shut s (Pool.shutdown s.pool).0 (Pool.shutdown s.pool).1 refl)

inside-start : (c : ℕ) (k : Bool) (u : Bytes) → inside (start c).pool k u ≡ []
unfolding find
inside-start c true u = refl
inside-start c false u = refl

start-IsSound : (c : ℕ) → SystemIsSound (start c)
unfolding has
start-IsSound c = record {
  one = λ x k l u v h g.
      let t : false ≡ true = sym (ap (has x) (inside-start c k u)) ∙ h in absurd cc;
  nodup = λ u. subst Nodup (sym (inside-start c false u)) tt;
  in_use = tt;
  sole = tt;
  quota = λ u. omega (arith, ap length (inside-start c true u), ap length (inside-start c false u));
  counted = omega arith;
}

Reach-Live : {c : ℕ} {t : System} → Reach (start c) t → Live t
Reach-Live {c} here = inr (start-IsSound c)
Reach-Live (next r st) = Step-Live st (Reach-Live r)

-- Whatever is called on a pool, in any order with the ends of its openings, while it is not shut
-- down: no resource has two shared pointers, each one that has is among the used ones of its url, no
-- resource lies in two sets, and no url has more than `min_capacity_` resources, unused ones and
-- openings counted. An opening must give a resource that is not in the pool.
pub Reach-IsSound : {c : ℕ} {t : System} → Reach (start c) t → t.pool.shut ≡ false → SystemIsSound t
Reach-IsSound r alive = elim (Reach-Live r) [
  | inl e ↦ let t : true ≡ false = sym e ∙ alive in absurd cc
  | inr sound ↦ sound
]
