-- ===== src/Sessions/Runs.antt =====
-- libraries/repro-web/src/session.cpp: calls of the provider in any order.
use wpp.Prelude.{
  Bytes, ℕ, Option, some, List, [], ◌∷◌, if◌then◌else◌, str_eq, str_eq_iff, ◌≡◌, refl, sym, ap, ◌∙◌,
  Bool-cases, Option-cases, inl, inr,
}
use wpp.Prelude.Maps.{
  find, erase, is_some, find-put, find-erase, Distinct, put-Distinct, erase-Distinct,
}
use wpp.Sessions.{
  Session, Provider, Call, get, set, remove, clean, purgatory, purge, cleanup, remove_user_session,
  new_session, deadline, get_session, set_session, step, run,
}
use wpp.Sessions.Store.{
  view, IsProvider, write, forget, in_time, session_at, find-purge, member, some-if, gone-if,
  cleanup-view, remove-view, set-view, get-view,
}

purge-Distinct {ℓ} :
    {A : Type ℓ} (ks : List Bytes) (m : List (Bytes × A)) → Distinct m → Distinct (purge ks m)
unfolding purge
purge-Distinct [] m d = d
purge-Distinct (k ∷ ks) m d = purge-Distinct ks (erase k m) (erase-Distinct k m d)

cleanup-IsProvider :
    {Json : Type 0} (n : ℕ) (p : Provider Json) → IsProvider p → IsProvider (cleanup n p)
unfolding cleanup
cleanup-IsProvider n p h = record {
  sessions = purge-Distinct (purgatory n p.timeouts) p.map h.sessions;
  deadlines = purge-Distinct (purgatory n p.timeouts) p.timeouts h.deadlines;
  same_keys = λ j.
      rw
        (
          find-purge (purgatory n p.timeouts) j p.map,
          find-purge (purgatory n p.timeouts) j p.timeouts,
        )
        (gone-if (member j (purgatory n p.timeouts)) (find j p.map) (find j p.timeouts)
          (h.same_keys j));
}

remove-IsProvider :
    {Json : Type 0} (s : Session Json) (p : Provider Json)
    → IsProvider p
    → IsProvider (remove_user_session s p)
unfolding remove_user_session
remove-IsProvider s p h = elim (Bool-cases (is_some (find s.sid p.map))) [
  | inl e ↦ rw e (record {
    sessions = erase-Distinct s.sid p.map h.sessions;
    deadlines = erase-Distinct s.sid p.timeouts h.deadlines;
    same_keys = λ j.
        rw (find-erase s.sid j p.map, find-erase s.sid j p.timeouts)
          (gone-if (str_eq s.sid j) (find j p.map) (find j p.timeouts) (h.same_keys j));
  })
  | inr e ↦ rw e h
]

module _ {Json : Type 0} (empty_object : Json) (session_timeout : ℕ) where
  set-IsProvider :
      (now : ℕ) (s : Session Json) (p : Provider Json)
      → IsProvider p
      → IsProvider (set_session empty_object session_timeout now s p)
  unfolding set_session
  set-IsProvider now s p h = record {
    sessions = put-Distinct s.sid s p.map h.sessions;
    deadlines =
        put-Distinct s.sid (deadline empty_object session_timeout now) p.timeouts h.deadlines;
    same_keys = λ j.
        rw
          (
            find-put s.sid s j p.map,
            find-put s.sid (deadline empty_object session_timeout now) j p.timeouts,
          )
          (some-if (str_eq s.sid j) s (deadline empty_object session_timeout now) (find j p.map)
            (find j p.timeouts) (h.same_keys j));
  }

  get-IsProvider :
      (now : ℕ) (sid : Bytes) (p : Provider Json)
      → IsProvider p
      → IsProvider (get_session empty_object session_timeout now sid p).1
  unfolding get_session
  get-IsProvider now sid p h = elim (Option-cases (find sid p.map)) [
    | inl f ↦ rw f (record {
      sessions = put-Distinct sid (new_session empty_object session_timeout sid) p.map h.sessions;
      deadlines =
          put-Distinct sid (deadline empty_object session_timeout now) p.timeouts h.deadlines;
      same_keys = λ j.
          rw
            (
              find-put sid (new_session empty_object session_timeout sid) j p.map,
              find-put sid (deadline empty_object session_timeout now) j p.timeouts,
            )
            (some-if (str_eq sid j) (new_session empty_object session_timeout sid)
              (deadline empty_object session_timeout now) (find j p.map) (find j p.timeouts)
              (h.same_keys j));
    })
    | inr (s, f) ↦ rw f (record {
      sessions = h.sessions;
      deadlines =
          put-Distinct sid (deadline empty_object session_timeout now) p.timeouts h.deadlines;
      same_keys = λ j.
          rw (find-put sid (deadline empty_object session_timeout now) j p.timeouts)
            (touched j s f);
    })
  ]
    where
      touched :
          (j : Bytes) (s : Session Json)
          → find sid p.map ≡ some s
          → is_some (find j p.map)
            ≡ is_some (
                if str_eq sid j
                then some (deadline empty_object session_timeout now)
                else find j p.timeouts)
      touched j s f = elim (Bool-cases (str_eq sid j)) [
        | inl g ↦ rw g (
            ap (λ (x : Bytes). is_some (find x p.map)) (sym ((str_eq_iff sid j).0 g))
            ∙ ap is_some f)
        | inr g ↦ rw g (h.same_keys j)
      ]

  -- What a call is for a store.
  abbrev pub spec :
      Call Json → (Bytes → Option (Session Json × ℕ)) → Bytes → Option (Session Json × ℕ)
  spec (get now sid) store j =
      write sid (session_at empty_object session_timeout sid store)
        (deadline empty_object session_timeout now) store j
  spec (set now s) store j = write s.sid s (deadline empty_object session_timeout now) store j
  spec (remove s) store j = forget s.sid store j
  spec (clean now) store j = in_time now (store j)

  step-view :
      (c : Call Json) (p : Provider Json) (j : Bytes)
      → IsProvider p
      → view (step empty_object session_timeout c p) j ≡ spec c (view p) j
  unfolding step
  step-view (get now sid) p j h = get-view empty_object session_timeout now sid p j h
  step-view (set now s) p j h = set-view empty_object session_timeout now s p j
  step-view (remove s) p j h = remove-view s p j h
  step-view (clean now) p j h = cleanup-view now p j h

  step-IsProvider :
      (c : Call Json) (p : Provider Json)
      → IsProvider p
      → IsProvider (step empty_object session_timeout c p)
  unfolding step
  step-IsProvider (get now sid) p h = get-IsProvider now sid p h
  step-IsProvider (set now s) p h = set-IsProvider now s p h
  step-IsProvider (remove s) p h = remove-IsProvider s p h
  step-IsProvider (clean now) p h = cleanup-IsProvider now p h

  -- Through any calls of the provider and its timer both maps have each key once, and the same
  -- keys.
  pub run-IsProvider :
      (cs : List (Call Json)) (p : Provider Json)
      → IsProvider p
      → IsProvider (run empty_object session_timeout cs p)
  unfolding run
  run-IsProvider [] p h = h
  run-IsProvider (c ∷ cs) p h =
      run-IsProvider cs (step empty_object session_timeout c p) (step-IsProvider c p h)

  -- What calls are for a store.
  abbrev pub spec_run :
      List (Call Json) → (Bytes → Option (Session Json × ℕ)) → Bytes → Option (Session Json × ℕ)
  spec_run [] store j = store j
  spec_run (c ∷ cs) store j = spec_run cs (spec c store) j

  -- Through any calls of the provider and its timer its two maps are a store of sessions with
  -- deadlines: a lookup and a write set the deadline anew, a lookup of a name that is not there
  -- makes a session, and a cleanup forgets exactly those whose deadline has passed. At the start
  -- the maps must have the same keys, each once.
  pub run-view :
      (cs : List (Call Json)) (p : Provider Json) (j : Bytes)
      → IsProvider p
      → view (run empty_object session_timeout cs p) j ≡ spec_run cs (view p) j
  unfolding run
  run-view [] p j h = refl
  run-view (c ∷ cs) p j h =
      run-view cs (step empty_object session_timeout c p) j (step-IsProvider c p h)
      ∙ ap (λ store. spec_run cs store j) (λ i k. step-view c p k h i)
