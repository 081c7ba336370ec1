-- ===== src/Sessions/Store.antt =====
-- libraries/repro-web/src/session.cpp: the provider against a store of sessions with deadlines.
use wpp.Prelude.{
  Bytes, ℕ, Bool, true, false, Option, none, some, List, [], ◌∷◌, if◌then◌else◌, ltb, str_eq,
  str_eq_iff, ◌≡◌, refl, sym, ap, ◌∙◌, Bool-cases, Option-cases, inl, inr,
}
use wpp.Prelude.Maps.{find, erase, is_some, find-put, find-erase, Distinct}
use wpp.Sessions.{
  Session, Provider, purgatory, purge, or_else, cleanup, remove_user_session, new_session, deadline,
  get_session, set_session,
}

-- Whether a key is to be purged.
abbrev pub member : Bytes → List Bytes → Bool
member j [] = false
member j (k ∷ ks) = if str_eq k j then true else member j ks

pub find-purge {ℓ} :
    {A : Type ℓ} (ks : List Bytes) (j : Bytes) (m : List (Bytes × A))
    → find j (purge ks m) ≡ (if member j ks then none else find j m)
unfolding purge
find-purge [] j m = refl
find-purge {A = A} (k ∷ ks) j m =
    find-purge ks j (erase k m)
    ∙ rw (find-erase k j m) (merged (find j m) (member j ks) (str_eq k j))
  where
    merged :
        (x : Option A) (a b : Bool)
        → (if a then none else if b then none else x)
          ≡ (if (if b then true else a) then none else x)
    merged x true true = refl
    merged x true false = refl
    merged x false true = refl
    merged x false false = refl

-- The deadline of a key has passed.
abbrev pub over : ℕ → Option ℕ → Bool
over n none = false
over n (some t) = ltb t n

never : (n : ℕ) (o : Option ℕ) → is_some o ≡ false → over n o ≡ false
never n none e = refl
never n (some t) e = absurd cc

pub member-purgatory :
    (n : ℕ) (j : Bytes) (m : List (Bytes × ℕ))
    → Distinct m
    → member j (purgatory n m) ≡ over n (find j m)
unfolding purgatory find
member-purgatory n j [] d = refl
member-purgatory n j ((k, t) ∷ m) (new, d) = elim (Bool-cases (str_eq k j)) [
  | inl e ↦ elim (Bool-cases (ltb t n)) [
    | inl f ↦ rw (f, member, e) (sym f)
    | inr f ↦
        rw (f, member, e)
          (member-purgatory n j m d
            ∙ never n (find j m)
                (ap (λ (x : Bytes). is_some (find x m)) (sym ((str_eq_iff k j).0 e)) ∙ new)
            ∙ sym f)
  ]
  | inr e ↦ elim (Bool-cases (ltb t n)) [
    | inl f ↦ rw (f, member, e) (member-purgatory n j m d)
    | inr f ↦ rw (f, member, e) (member-purgatory n j m d)
  ]
]

pub some-if :
    {A : Type 0} {B : Type 0} (b : Bool) (x : A) (y : B) (o : Option A) (u : Option B)
    → is_some o ≡ is_some u
    → is_some (if b then some x else o) ≡ is_some (if b then some y else u)
some-if true x y o u e = refl
some-if false x y o u e = e

pub gone-if :
    {A : Type 0} {B : Type 0} (b : Bool) (o : Option A) (u : Option B)
    → is_some o ≡ is_some u
    → is_some (if b then none else o) ≡ is_some (if b then none else u)
gone-if true o u e = refl
gone-if false o u e = e

-- The provider as a store: a session and its deadline.
module _ {Json : Type 0} where
  abbrev pub both : Option (Session Json) → Option ℕ → Option (Session Json × ℕ)
  both (some s) (some t) = some (s, t)
  both _ _ = none

  abbrev pub view : Provider Json → Bytes → Option (Session Json × ℕ)
  view p j = both (find j p.map) (find j p.timeouts)

  -- Both maps have each key once, and the same keys.
  pub record IsProvider (p : Provider Json) : Type 0 where
    pub sessions : Distinct p.map
    pub deadlines : Distinct p.timeouts
    pub same_keys : (j : Bytes) → is_some (find j p.map) ≡ is_some (find j p.timeouts)

  -- What a store does: a session is written with its deadline, forgotten, or forgotten in time.
  abbrev pub write :
      Bytes
      → Session Json
      → ℕ
      → (Bytes → Option (Session Json × ℕ))
      → Bytes
      → Option (Session Json × ℕ)
  write sid s t store j = if str_eq sid j then some (s, t) else store j

  abbrev pub forget :
      Bytes → (Bytes → Option (Session Json × ℕ)) → Bytes → Option (Session Json × ℕ)
  forget sid store j = if str_eq sid j then none else store j

  abbrev pub in_time : ℕ → Option (Session Json × ℕ) → Option (Session Json × ℕ)
  in_time n none = none
  in_time n (some (s, t)) = if ltb t n then none else some (s, t)

  both-if :
      (b : Bool) (s : Session Json) (t : ℕ) (o : Option (Session Json)) (u : Option ℕ)
      → both (if b then some s else o) (if b then some t else u)
        ≡ (if b then some (s, t) else both o u)
  both-if true s t o u = refl
  both-if false s t o u = refl

  none-if :
      (b : Bool) (o : Option (Session Json)) (u : Option ℕ)
      → both (if b then none else o) (if b then none else u) ≡ (if b then none else both o u)
  none-if true o u = refl
  none-if false o u = refl

  -- The session of an entry.
  abbrev pub session_of : Option (Session Json × ℕ) → Option (Session Json)
  session_of none = none
  session_of (some (s, t)) = some s

  session_of-both :
      (o : Option (Session Json)) (u : Option ℕ) → is_some o ≡ is_some u → session_of (both o u) ≡ o
  session_of-both none u e = refl
  session_of-both (some s) (some t) e = refl
  session_of-both (some s) none e = absurd cc

  both-over :
      (n : ℕ) (o : Option (Session Json)) (u : Option ℕ)
      → both (if over n u then none else o) (if over n u then none else u) ≡ in_time n (both o u)
  both-over n none none = refl
  both-over n none (some t) = elim (Bool-cases (ltb t n)) [ inl e ↦ rw e refl | inr e ↦ rw e refl ]
  both-over n (some s) none = refl
  both-over n (some s) (some t) = elim (Bool-cases (ltb t n)) [
    | inl e ↦ rw e refl
    | inr e ↦ rw e refl
  ]

  absent : (o : Option (Session Json)) (u : Option ℕ) → is_some o ≡ false → both o u ≡ none
  absent none u e = refl
  absent (some s) u e = absurd cc

  -- `cleanup` forgets what is over.
  pub cleanup-view :
      (n : ℕ) (p : Provider Json) (j : Bytes)
      → IsProvider p
      → view (cleanup n p) j ≡ in_time n (view p j)
  unfolding cleanup
  cleanup-view n p j h =
      rw
        (
          find-purge (purgatory n p.timeouts) j p.map,
          find-purge (purgatory n p.timeouts) j p.timeouts,
          member-purgatory n j p.timeouts h.deadlines,
        )
        (both-over n (find j p.map) (find j p.timeouts))

  pub remove-view :
      (s : Session Json) (p : Provider Json) (j : Bytes)
      → IsProvider p
      → view (remove_user_session s p) j ≡ forget s.sid (view p) j
  unfolding remove_user_session
  remove-view s p j h = elim (Bool-cases (is_some (find s.sid p.map))) [
    | inl e ↦ rw e (
        rw (find-erase s.sid j p.map, find-erase s.sid j p.timeouts)
          (none-if (str_eq s.sid j) (find j p.map) (find j p.timeouts)))
    | inr e ↦ rw e (elim (Bool-cases (str_eq s.sid j)) [
      | inl f ↦
          rw (forget, f)
            (absent (find j p.map) (find j p.timeouts)
              (ap (λ (x : Bytes). is_some (find x p.map)) (sym ((str_eq_iff s.sid j).0 f)) ∙ e))
      | inr f ↦ rw (forget, f) refl
    ])
  ]

module _ {Json : Type 0} (empty_object : Json) (session_timeout : ℕ) where
  pub set-view :
      (now : ℕ) (s : Session Json) (p : Provider Json) (j : Bytes)
      → view (set_session empty_object session_timeout now s p) j
        ≡ write s.sid s (deadline empty_object session_timeout now) (view p) j
  unfolding set_session
  set-view now s p j =
      rw
        (
          find-put s.sid s j p.map,
          find-put s.sid (deadline empty_object session_timeout now) j p.timeouts,
        )
        (both-if (str_eq s.sid j) s (deadline empty_object session_timeout now) (find j p.map)
          (find j p.timeouts))

  -- The session that a name has, or a new one.
  abbrev pub session_at : Bytes → (Bytes → Option (Session Json × ℕ)) → Session Json
  session_at sid store =
      or_else (session_of (store sid)) (new_session empty_object session_timeout sid)

  pub get-view :
      (now : ℕ) (sid : Bytes) (p : Provider Json) (j : Bytes)
      → IsProvider p
      → view (get_session empty_object session_timeout now sid p).1 j
        ≡ write sid (session_at sid (view p)) (deadline empty_object session_timeout now) (view p) j
  unfolding get_session
  get-view now sid p j h =
      rw
        (
          session_of-both (find sid p.map) (find sid p.timeouts) (h.same_keys sid),
          find-put sid (deadline empty_object session_timeout now) j p.timeouts,
        )
        (elim (Option-cases (find sid p.map)) [
          | inl f ↦
              rw (f, find-put sid (new_session empty_object session_timeout sid) j p.map)
                (both-if (str_eq sid j) (new_session empty_object session_timeout sid)
                  (deadline empty_object session_timeout now) (find j p.map) (find j p.timeouts))
          | inr (s, f) ↦ elim (Bool-cases (str_eq sid j)) [
            | inl g ↦
                let here : find j p.map ≡ some s =
                  ap (λ (x : Bytes). find x p.map) (sym ((str_eq_iff sid j).0 g)) ∙ f in
                rw (f, g, here) refl
            | inr g ↦ rw (f, g) refl
          ]
        ])
