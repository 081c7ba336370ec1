-- ===== src/Sessions.antt =====
-- libraries/repro-web/src/session.cpp: `MemorySessionProvider` and `SessionFilter`. The JSON value of a
-- session, its empty object, the clock and the random names of sessions are parameters. A promise of the
-- provider is resolved at the next tick, so calls are served one by one.
pub mod Store
pub mod Runs
pub mod Filter
use wpp.Prelude.{
  Bytes, ℕ, ◌+◌, ◌%◌, ◌^◌, Bool, true, false, Option, none, some, List, [], ◌∷◌, ◌++◌,
  if◌then◌else◌, codes, ltb, is_empty,
}
use wpp.Prelude.Maps.{find, put, erase, is_some}
use wpp.Cookie
use wpp.Cookie.{Cookie, Cookies}

pub record Session (Json : Type 0) : Type 0 where
  pub sid : Bytes
  pub data_of : Json
  pub valid : Bool
  pub authenticated : Bool

-- `map_` and `timeouts_`.
pub record Provider (Json : Type 0) : Type 0 where
  pub map : List (Bytes × Session Json)
  pub timeouts : List (Bytes × ℕ)

-- The keys whose time is over, and their removal.
unfoldable pub purgatory : ℕ → List (Bytes × ℕ) → List Bytes
purgatory n [] = []
purgatory n ((k, t) ∷ m) = if ltb t n then k ∷ purgatory n m else purgatory n m

unfoldable pub purge {ℓ} : {A : Type ℓ} → List Bytes → List (Bytes × A) → List (Bytes × A)
purge [] m = m
purge (k ∷ ks) m = purge ks (erase k m)

module _ {Json : Type 0} where
  abbrev pub or_else : Option (Session Json) → Session Json → Session Json
  or_else none s = s
  or_else (some t) s = t

  -- `cleanup` at the time `n`.
  unfoldable pub cleanup : ℕ → Provider Json → Provider Json
  unfolding purgatory purge
  cleanup n p = record {
    map = purge (purgatory n p.timeouts) p.map;
    timeouts = purge (purgatory n p.timeouts) p.timeouts;
  }

  -- `remove_user_session`.
  unfoldable pub remove_user_session : Session Json → Provider Json → Provider Json
  unfolding find erase
  remove_user_session s p =
      if is_some (find s.sid p.map)
      then record { map = erase s.sid p.map; timeouts = erase s.sid p.timeouts }
      else p

pub data Call (Json : Type 0) : Type 0 where
  get : ℕ → Bytes → Call Json
  set : ℕ → Session Json → Call Json
  remove : Session Json → Call Json
  clean : ℕ → Call Json

-- The empty JSON object, and `session_timeout_`.
module _ {Json : Type 0} (empty_object : Json) (session_timeout : ℕ) where
  abbrev pub new_session : Bytes → Session Json
  new_session sid = record {
    sid = sid;
    data_of = empty_object;
    valid = true;
    authenticated = false;
  }

  abbrev pub deadline : ℕ → ℕ
  deadline now = (now + session_timeout) % 2 ^ 64

  -- `get_session` at the time `now`.
  unfoldable pub get_session : ℕ → Bytes → Provider Json → Session Json × Provider Json
  unfolding find put
  get_session now sid p =
      let s = or_else (find sid p.map) (new_session sid) in
      (
        s,
        record {
          map = if is_some (find sid p.map) then p.map else put sid s p.map;
          timeouts = put sid (deadline now) p.timeouts;
        },
      )

  -- `set_session`.
  unfoldable pub set_session : ℕ → Session Json → Provider Json → Provider Json
  unfolding put
  set_session now s p = record {
    map = put s.sid s p.map;
    timeouts = put s.sid (deadline now) p.timeouts;
  }

  -- A call of the provider, or of its timer, with the time.
  unfoldable pub step : Call Json → Provider Json → Provider Json
  unfolding get_session set_session remove_user_session cleanup
  step (get now sid) p = (get_session now sid p).1
  step (set now s) p = set_session now s p
  step (remove s) p = remove_user_session s p
  step (clean now) p = cleanup now p

  unfoldable pub run : List (Call Json) → Provider Json → Provider Json
  unfolding step
  run [] p = p
  run (c ∷ cs) p = run cs (step c p)

  -- The filter, for a cookie of the name `cookie_name`; `fresh` is what `make_session_id` returns.
  module _ (cookie_name fresh : Bytes) where
    -- `before`: the session of the request.
    unfoldable pub before : ℕ → Cookies → Provider Json → Session Json × Provider Json
    unfolding get_session
    before now cookies p =
        let sid =
          if Cookie.exists cookie_name cookies
          then (Cookie.get cookie_name cookies).value
          else [] in
        if is_empty sid then (new_session fresh, p) else get_session now sid p

    abbrev pub session_cookie : Bytes → Cookie
    session_cookie sid = record (Cookie.cookie_of cookie_name sid) { path = codes "/" }

    abbrev pub with_sid : Session Json → Session Json
    with_sid s = if is_empty s.sid then record s { sid = fresh } else s

    -- `after`: the cookie of the response; `other` is a second name, for a session that is no more
    -- valid.
    unfoldable pub after : ℕ → Bytes → Session Json → Provider Json → Cookie × Provider Json
    unfolding set_session remove_user_session
    after now other session p =
        let s = with_sid session in
        if s.valid
        then (session_cookie s.sid, set_session now s p)
        else (session_cookie other, remove_user_session s p)
