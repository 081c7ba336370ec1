-- ===== src/Tests/Pools.antt =====
-- A pool at concrete inputs.
use wpp.Prelude.{
  Bytes, Bool, true, false, [], ◌∷◌, codes, str_eq, Bool-cases, inl, inr, ◌≡◌, refl, arith,
}
use wpp.Prelude.Maps.{find, put}
use wpp.Pool
use wpp.Pool.{Pool, new_pool, resolved, freed, at_url, get, collect, scan}
use wpp.Pool.Sets.{has, insert, erase}
use wpp.Pool.System.{
  System, outcome, inside, here, next, got, retrieved, collected, start, SystemIsSound,
}
use wpp.Pool.Safety.{Reach-IsSound}
use wpp.Pool.Waiting.{get-collect, get-collect_invalid}

abbrev db : Bytes
db = codes "db"

-- One call opens a connection, which comes and goes.
abbrev opened : System
opened = outcome (start 2) (Pool.get 0 db 5 (new_pool 2))

abbrev lent : System
lent = outcome (record opened { opening = []; settling = 1 }) (Pool.retrieved 0 db 7 6 opened.pool)

abbrev returned : System
returned = outcome (record lent { held = [] }) (Pool.collect db 7 8 lent.pool)

nowhere_yet : (k : Bool) (u : Bytes) → has 7 (inside opened.pool k u) ≡ false
unfolding get scan find put has
nowhere_yet true u = refl
nowhere_yet false u = elim (Bool-cases (str_eq db u)) [ inl e ↦ rw e refl | inr e ↦ rw e refl ]

Reach-IsSound_example : SystemIsSound returned
unfolding get scan find put Pool.retrieved Pool.collect has str_eq Pool.put_back insert erase
    Pool.trim
Reach-IsSound_example =
    Reach-IsSound {c = 2} {t = returned}
      (next (next (next here (got 0 db 5)) (retrieved 0 db 7 6 [] [] refl nowhere_yet))
        (collected db 7 8 [] [] refl))
      refl

-- A pool of one connection, 7 to the url `db`, which is lent.
abbrev exhausted : Pool
exhausted = record (new_pool 1) { used = (db, 7 ∷ []) ∷ [] }

get-collect_example :
    (collect (codes "log") 9 4 (get 1 db 3 exhausted).0).1 ≡ resolved 1 (codes "log") 9 ∷ []
unfolding find str_eq has
get-collect_example =
    get-collect 1 db (codes "log") 9 3 4 exhausted refl refl refl (omega arith) refl

abbrev broken : Pool
broken = record exhausted { invalid = 7 ∷ [] }

get-collect_invalid_example :
    ((collect db 7 4 (get 1 db 3 broken).0).1 ≡ freed 7 ∷ [])
    × ((collect db 7 4 (get 1 db 3 broken).0).0.waiting ≡ 1 ∷ [])
    × (at_url db (collect db 7 4 (get 1 db 3 broken).0).0.used ≡ [])
unfolding find str_eq has
get-collect_invalid_example =
    get-collect_invalid 1 db 7 3 4 broken refl refl refl refl (omega arith) refl
