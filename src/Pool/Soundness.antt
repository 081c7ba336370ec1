-- ===== src/Pool/Soundness.antt =====
-- libraries/prio/include/priocpp/res.h: what holds of a pool is kept by each move of its operations.
use mathlib.Core.Path.{subst}
use wpp.Prelude.{
  Bytes, ℕ, suc, ◌+◌, ◌≤◌, Bool, true, false, List, ◌∷◌, ◌++◌, length, ◌==◌, ==_refl, All, str_eq,
  str_eq_refl, str_eq_iff, Bool-cases, ◌≡◌, refl, ◌∙◌, inl, inr, arith,
}
use wpp.Pool.Sets.{
  has, insert, erase, Nodup, has-insert, has-erase, length-insert, length-erase, insert-Nodup,
}
use wpp.Pool.Places.{Contents, at_place, insert-OnePlace, shrink-OnePlace, lost}
use wpp.Pool.System.{gives, Sole, openings, InUse, IsSound}
use wpp.Pool.Moves.{Sole-split, All-split, unheld, InUse-kept}

abbrev Quota : Contents → ℕ → List (ℕ × Bytes) → Bytes → Type 0
Quota c cap opening u = length (c true u) + length (c false u) + openings u opening ≤ cap

-- Of all urls, one that is known and the others.
pub for_url : (P : Bytes → Type 0) (w u : Bytes) → P w → ((str_eq w u ≡ false) → P u) → P u
for_url P w u one other = elim (Bool-cases (str_eq w u)) [
  | inl e ↦ subst P ((str_eq_iff w u).0 e) one
  | inr e ↦ other e
]

erased : (r : ℕ) (rs : List ℕ) → has r (erase r rs) ≡ false
erased r rs = has-erase r r rs ∙ rw (==_refl r) refl

erase_keeps :
    (r x : ℕ) (rs : List ℕ) → (x == r) ≡ false → has x rs ≡ true → has x (erase r rs) ≡ true
erase_keeps r x rs ne h =
    let apart : (r == x) ≡ false = ground arith in has-erase x r rs ∙ rw apart h

erase_sub : (r x : ℕ) (rs : List ℕ) → has x (erase r rs) ≡ true → has x rs ≡ true
erase_sub r x rs h = ground (arith, has-erase x r rs)

insert_keeps : (r x : ℕ) (rs : List ℕ) → has x rs ≡ true → has x (insert r rs) ≡ true
insert_keeps r x rs h = ground (arith, has-insert x r rs)

inserted : (r : ℕ) (rs : List ℕ) → has r (insert r rs) ≡ true
inserted r rs = has-insert r r rs ∙ rw (==_refl r) refl

module _ {c : Contents} {cap pending settling : ℕ} {held : List (Bytes × ℕ)}
    {opening : List (ℕ × Bytes)} (s : IsSound c cap pending held opening settling) (w : Bytes) where
  -- Resources that leave the unused ones.
  pub dropped-IsSound :
      (rest : List ℕ)
      → ((x : ℕ) → has x rest ≡ true → has x (c false w) ≡ true)
      → Nodup rest
      → length rest ≤ length (c false w)
      → IsSound (at_place c false w rest) cap pending held opening settling
  dropped-IsSound rest sub nodup fewer = record {
    one = shrink-OnePlace c false w rest s.one sub;
    nodup = λ u.
        for_url (λ v. Nodup (at_place c false w rest false v)) w u (rw (str_eq_refl w) nodup)
          (λ e. rw e (s.nodup u));
    in_use = s.in_use;
    sole = s.sole;
    quota = λ u.
        for_url (Quota (at_place c false w rest) cap opening) w u
          (rw (str_eq_refl w) (omega (arith, s.quota w))) (λ e. rw e (s.quota u));
    counted = s.counted;
  }

  -- A resource that is nowhere comes into use, where the quota has room.
  pub added-IsSound :
      (r : ℕ)
      → ((k : Bool) (u : Bytes) → has r (c k u) ≡ false)
      → suc (length (c true w) + length (c false w) + openings w opening) ≤ cap
      → IsSound
          (at_place c true w (insert r (c true w)))
          cap
          pending
          ((w, r) ∷ held)
          opening
          settling
  added-IsSound r nowhere room = record {
    one = insert-OnePlace c r true w s.one nowhere;
    nodup = s.nodup;
    in_use = (
      rw (str_eq_refl w) (inserted r (c true w)),
      InUse-kept c r w (insert r (c true w)) held (λ x _ h. insert_keeps r x (c true w) h)
          (unheld c r held (nowhere true) s.in_use) s.in_use,
    );
    sole = (unheld c r held (nowhere true) s.in_use, s.sole);
    quota = λ u.
        for_url (Quota (at_place c true w (insert r (c true w))) cap opening) w u
          (rw (str_eq_refl w) (omega (arith, length-insert r (c true w)))) (λ e. rw e (s.quota u));
    counted = s.counted;
  }

  -- A resource comes back from its shared pointer, or is dropped.
  module _ (r : ℕ) (before after : List (Bytes × ℕ)) (split : held ≡ before ++ (w, r) ∷ after) where
    split-Sole : (gives r (before ++ after) ≡ false) × Sole (before ++ after)
    split-Sole = Sole-split before after w r (subst Sole split s.sole)

    split-InUse : (has r (c true w) ≡ true) × All (InUse c) (before ++ after)
    split-InUse = All-split (InUse c) before after (w, r) (subst (All (InUse c)) split s.in_use)

    pub used-split : has r (c true w) ≡ true
    used-split = split-InUse.0

    pub released-IsSound :
        IsSound
          (at_place c true w (erase r (c true w)))
          cap
          pending
          (before ++ after)
          opening
          settling
    released-IsSound = record {
      one = shrink-OnePlace c true w (erase r (c true w)) s.one (λ x h. erase_sub r x (c true w) h);
      nodup = s.nodup;
      in_use =
          InUse-kept c r w (erase r (c true w)) (before ++ after)
            (λ x ne h. erase_keeps r x (c true w) ne h) split-Sole.0 split-InUse.1;
      sole = split-Sole.1;
      quota = λ u.
          for_url (Quota (at_place c true w (erase r (c true w))) cap opening) w u
            (rw (str_eq_refl w) (omega (arith, s.quota w, length-erase r (c true w) split-InUse.0)))
            (λ e. rw e (s.quota u));
      counted = s.counted;
    }

    pub released-room :
        suc (length (erase r (c true w)) + length (c false w) + openings w opening) ≤ cap
    released-room = omega (arith, s.quota w, length-erase r (c true w) split-InUse.0)

    pub released-nowhere :
        (k : Bool) (u : Bytes) → has r (at_place c true w (erase r (c true w)) k u) ≡ false
    released-nowhere =
        lost c r true w (erase r (c true w)) s.one split-InUse.0 (erased r (c true w))

    -- The next shared pointer of a resource.
    pub handed-IsSound : IsSound c cap pending ((w, r) ∷ (before ++ after)) opening settling
    handed-IsSound = record {
      one = s.one;
      nodup = s.nodup;
      in_use = split-InUse;
      sole = split-Sole;
      quota = s.quota;
      counted = s.counted;
    }

  -- A resource that is nowhere is put to the unused ones.
  pub shelved-IsSound :
      (r : ℕ)
      → ((k : Bool) (u : Bytes) → has r (c k u) ≡ false)
      → suc (length (c true w) + length (c false w) + openings w opening) ≤ cap
      → IsSound (at_place c false w (insert r (c false w))) cap pending held opening settling
  shelved-IsSound r nowhere room = record {
    one = insert-OnePlace c r false w s.one nowhere;
    nodup = λ u.
        for_url (λ v. Nodup (at_place c false w (insert r (c false w)) false v)) w u
          (rw (str_eq_refl w) (insert-Nodup r (c false w) (nowhere false w) (s.nodup w)))
          (λ e. rw e (s.nodup u));
    in_use = s.in_use;
    sole = s.sole;
    quota = λ u.
        for_url (Quota (at_place c false w (insert r (c false w))) cap opening) w u
          (rw (str_eq_refl w) (omega (arith, length-insert r (c false w)))) (λ e. rw e (s.quota u));
    counted = s.counted;
  }
