-- ===== src/Pool.antt =====
-- libraries/prio/include/priocpp/res.h: `Resource::Pool`, which keeps connections open for reuse, and
-- `InvalidResources`. A resource is a pointer and a promise a number. A set is an ascending list, a map
-- an association list. A call gives the new pool and what it does, in order. Where `p.resolve` is not
-- the last thing that a callback does, what follows is a step of its own (`settled`), since the calls of
-- whoever waits for the promise come between.
pub mod Sets
pub mod Places
pub mod System
pub mod Moves
pub mod Soundness
pub mod Scans
pub mod Steps
pub mod Runs
pub mod Safety
pub mod Waiting
use wpp.Prelude.{
  Bytes, ℕ, zero, suc, ◌+◌, ◌-◌, ◌*◌, ◌%◌, ◌^◌, ◌<◌, Bool, true, false, Option, none, some, List,
  [], ◌∷◌, ◌++◌, map, if◌then◌else◌, ltb, leb, ◌==◌, length,
}
use wpp.Prelude.Maps.{find, put}
unfoldable pub use Sets.{has, insert, erase}

pub data Effect : Type 0 where
  resolved : ℕ → Bytes → ℕ → Effect
  rejected : ℕ → Effect
  retrieves : ℕ → Bytes → Effect
  freed : ℕ → Effect

abbrev pub Stamps : Type 0
Stamps = ℕ → Option ℕ

-- `timestamps_[r]`.
abbrev pub stamp : Stamps → ℕ → ℕ
stamp ts r = elim (ts r) [ none ↦ 0 | some t ↦ t ]

abbrev pub set_stamp : ℕ → ℕ → Stamps → Stamps
set_stamp r now ts j = if r == j then some now else ts j

abbrev pub erase_stamp : ℕ → Stamps → Stamps
erase_stamp r ts j = if r == j then none else ts j

abbrev pub Shelf : Type 0
Shelf = List (Bytes × List ℕ)

abbrev pub items : Option (List ℕ) → List ℕ
items none = []
items (some rs) = rs

-- `used_[url]`.
abbrev pub at_url : Bytes → Shelf → List ℕ
at_url url m = items (find url m)

pub record Pool : Type 0 where
  pub max_age : ℕ
  pub shut : Bool
  pub min_capacity : ℕ
  pub pending : ℕ
  pub used : Shelf
  pub unused : Shelf
  pub timestamps : Stamps
  pub waiting : List ℕ
  pub invalid : List ℕ

abbrev pub new_pool : ℕ → Pool
new_pool c = record {
  max_age = 20;
  shut = false;
  min_capacity = c;
  pending = 0;
  used = [];
  unused = [];
  timestamps = λ _. none;
  waiting = [];
  invalid = [];
}

-- What the loop of `get` leaves: the resource that it takes, if any is young enough.
pub record Scan : Type 0 where
  pub taken : Option ℕ
  pub rest : List ℕ
  pub stamps : Stamps
  pub dropped : List ℕ

-- `timestamps_[r] + MAX_AGE < unix_timestamp()`, where a `size_t` wraps around.
unfoldable pub is_old : ℕ → ℕ → Stamps → ℕ → Bool
is_old now max_age ts r = ltb ((stamp ts r + max_age) % 2 ^ 64) now

unfoldable pub scan : ℕ → ℕ → List ℕ → Stamps → Scan
scan now max_age [] ts = record { taken = none; rest = []; stamps = ts; dropped = [] }
scan now max_age (r ∷ rs) ts =
    let later = scan now max_age rs (erase_stamp r ts) in
    if is_old now max_age ts r
    then record later { dropped = r ∷ later.dropped }
    else record { taken = some r; rest = rs; stamps = ts; dropped = [] }

-- `get` behind its loop: hand the resource on, open a new one, or wait.
abbrev pub get_taken : Option ℕ → ℕ → Bytes → ℕ → Pool → Pool × List Effect
get_taken (some r) p url now s = (
  record s {
    timestamps = set_stamp r now s.timestamps;
    used = put url (insert r (at_url url s.used)) s.used;
  },
  resolved p url r ∷ [],
)
get_taken none p url now s =
    if ltb (length (at_url url s.used) + s.pending) s.min_capacity
    then (record s { pending = s.pending + 1 }, retrieves p url ∷ [])
    else (record s { waiting = s.waiting ++ p ∷ [] }, [])

-- The pool behind the loop of `get`.
abbrev pub scanned : Bytes → Scan → Pool → Pool
scanned url c s = record s { unused = put url c.rest s.unused; timestamps = c.stamps }

-- `get(url)` with promise `p`, at the time `now`.
unfoldable pub get : ℕ → Bytes → ℕ → Pool → Pool × List Effect
get p url now s =
    let c = scan now s.max_age (at_url url s.unused) s.timestamps in
    let (s', effects) = get_taken c.taken p url now (scanned url c s) in
    (s', map freed c.dropped ++ effects)

-- The callbacks behind `L::retrieve(url)`, up to their `pending_--`.
unfoldable pub retrieved : ℕ → Bytes → ℕ → ℕ → Pool → Pool × List Effect
retrieved p url r now s = (
  record s {
    used = put url (insert r (at_url url s.used)) s.used;
    timestamps = set_stamp r now s.timestamps;
  },
  resolved p url r ∷ [],
)

abbrev pub retrieve_failed : ℕ → Pool → Pool × List Effect
retrieve_failed p s = (s, rejected p ∷ [])

unfoldable pub settled : Pool → Pool × List Effect
settled s = (record s { pending = s.pending - 1 }, [])

-- `release(url, t)`.
unfoldable pub release : Bytes → ℕ → Pool → Pool × List Effect
release url t s = if s.shut then (s, []) else (
  record s {
    used =
        if has t (at_url url s.used) then put url (erase t (at_url url s.used)) s.used else s.used;
    timestamps = erase_stamp t s.timestamps;
  },
  freed t ∷ [],
)

-- The loop of `collect`: no more than so many unused resources.
unfoldable pub trim : ℕ → List ℕ → Stamps → Scan
trim cap [] ts = record { taken = none; rest = []; stamps = ts; dropped = [] }
trim cap (r ∷ rs) ts =
    let later = trim cap rs (erase_stamp r ts) in
    if ltb cap (length (r ∷ rs))
    then record later { dropped = r ∷ later.dropped }
    else record { taken = none; rest = r ∷ rs; stamps = ts; dropped = [] }

unfoldable pub put_back : Bytes → ℕ → Pool → Pool × List Effect
put_back url t s =
    if has t (at_url url s.used)
    then (let c = trim s.min_capacity (insert t (at_url url s.unused)) s.timestamps in
        (
          record s {
            used = put url (erase t (at_url url s.used)) s.used;
            unused = put url c.rest s.unused;
            timestamps = c.stamps;
          },
          map freed c.dropped,
        ))
    else (s, freed t ∷ [])

-- `collect` behind its guards: the first promise that waits, whatever its url, gets the resource.
abbrev pub collect_for : List ℕ → Bytes → ℕ → ℕ → Pool → Pool × List Effect
collect_for [] url t now s = put_back url t s
collect_for (p ∷ ps) url t now s =
    (record s { waiting = ps; timestamps = set_stamp t now s.timestamps }, resolved p url t ∷ [])

-- `collect(url, t)`: the end of a resource's shared pointer.
unfoldable pub collect : Bytes → ℕ → ℕ → Pool → Pool × List Effect
collect url t now s =
    if s.shut
    then (s, [])
    else if has t s.invalid
    then release url t (record s { invalid = erase t s.invalid })
    else collect_for s.waiting url t now s

-- `Resource::invalidate(t)`.
unfoldable pub invalidate : ℕ → Pool → Pool × List Effect
invalidate t s = (record s { invalid = insert t s.invalid }, [])

abbrev pub all_of : Shelf → List ℕ
all_of [] = []
all_of ((url, rs) ∷ m) = rs ++ all_of m

unfoldable pub shutdown : Pool → Pool × List Effect
shutdown s = (
  record s { shut = true; used = []; unused = [] },
  map freed (all_of s.unused) ++ map freed (all_of s.used),
)
