-- ===== src/Pool/Runs.antt =====
-- libraries/prio/include/priocpp/res.h: what holds of a pool, whatever is called on it, while it is not
-- shut down.
use mathlib.Core.Path.{subst}
use wpp.Prelude.{
  Bytes, ℕ, suc, ◌≤◌, Bool, false, List, [], ◌∷◌, ◌++◌, if◌then◌else◌, length, str_eq_refl,
  Bool-cases, ◌≡◌, refl, sym, ap, ◌∙◌, inl, inr, arith,
}
use wpp.Prelude.Maps.{put}
use wpp.Pool
use wpp.Pool.{
  Pool, Effect, resolved, retrieves, freed, Stamps, at_url, Scan, get_taken, scanned, scan, release,
  put_back, collect_for, trim,
}
use wpp.Pool.Sets.{has, insert, erase, length-insert}
use wpp.Pool.Places.{at_place}
use wpp.Pool.System.{System, outcome, inside, openings, IsSound, SystemIsSound}
use wpp.Pool.Moves.{openings-split, length-split}
use wpp.Pool.Soundness.{
  added-IsSound, used-split, released-IsSound, released-room, released-nowhere, handed-IsSound,
  shelved-IsSound,
}
use wpp.Pool.Scans.{contents-used, contents-unused, trim_fits}

module _ (s : System) (sound : SystemIsSound s) (p : ℕ) (url : Bytes)
    (before after : List (ℕ × Bytes)) (split : s.opening ≡ before ++ (p, url) ∷ after) where
  -- The end of an opening.
  pub ended-IsSound :
      IsSound
        (inside s.pool)
        s.pool.min_capacity
        s.pool.pending
        s.held
        (before ++ after)
        (suc s.settling)
  ended-IsSound = record {
    one = sound.one;
    nodup = sound.nodup;
    in_use = sound.in_use;
    sole = sound.sole;
    quota = λ u.
        omega (arith, sound.quota u, ap (openings u) split, openings-split u before after p url);
    counted =
        omega (
          arith,
          sound.counted,
          ap length split,
          length-split {A = ℕ × Bytes} before after (p, url),
        );
  }

  pub retrieved-IsSound :
      (r now : ℕ)
      → ((k : Bool) (u : Bytes) → has r (inside s.pool k u) ≡ false)
      → SystemIsSound (
          outcome
            (record s { opening = before ++ after; settling = suc s.settling })
            (Pool.retrieved p url r now s.pool))
  unfolding Pool.retrieved
  retrieved-IsSound r now nowhere =
      subst
        (λ k.
          IsSound k s.pool.min_capacity s.pool.pending ((url, r) ∷ s.held) (before ++ after)
            (suc s.settling))
        (sym (contents-used s.pool.used s.pool.unused url (insert r (at_url url s.pool.used))))
        (added-IsSound ended-IsSound url r nowhere (
          omega (
            arith,
            sound.quota url,
            ap (openings url) split,
            openings-split url before after p url,
            ap {A = Bool} {B = ℕ} (λ b. if b then 1 else 0) (str_eq_refl url),
          )))

pub settled-IsSound :
    (s : System) (n : ℕ)
    → SystemIsSound s
    → s.settling ≡ suc n
    → SystemIsSound (outcome (record s { settling = n }) (Pool.settled s.pool))
unfolding Pool.settled
settled-IsSound s n sound e = record {
  one = sound.one;
  nodup = sound.nodup;
  in_use = sound.in_use;
  sole = sound.sole;
  quota = sound.quota;
  counted = omega (arith, sound.counted);
}

module _ (s : System) (sound : SystemIsSound s) (url : Bytes) (r now : ℕ)
    (before after : List (Bytes × ℕ)) (split : s.held ≡ before ++ (url, r) ∷ after) where
  -- A resource that was found invalid.
  release-IsSound :
      (xs : List ℕ)
      → s.pool.shut ≡ false
      → SystemIsSound (
          outcome
            (record s { held = before ++ after })
            (release url r (record s.pool { invalid = xs })))
  unfolding release
  release-IsSound xs alive =
      subst
        (λ (b : Bool). SystemIsSound (
          outcome (record s { held = before ++ after })
            (if b then (record s.pool { invalid = xs }, []) else (
              record s.pool {
                invalid = xs;
                used =
                    if has r (at_url url s.pool.used)
                    then put url (erase r (at_url url s.pool.used)) s.pool.used
                    else s.pool.used;
                timestamps = Pool.erase_stamp r s.pool.timestamps;
              },
              freed r ∷ [],
            ))))
        (sym alive)
        (rw (used-split sound url r before after split) (
          subst
            (λ k.
              IsSound k s.pool.min_capacity s.pool.pending (before ++ after) s.opening s.settling)
            (sym (contents-used s.pool.used s.pool.unused url (erase r (at_url url s.pool.used))))
            (released-IsSound sound url r before after split)))

  -- The pool with a resource put back, where the loop of `collect` stops at once.
  shelved : Pool
  shelved = record s.pool {
    used = put url (erase r (at_url url s.pool.used)) s.pool.used;
    unused = put url (insert r (at_url url s.pool.unused)) s.pool.unused;
  }

  fits : length (insert r (at_url url s.pool.unused)) ≤ s.pool.min_capacity
  fits = omega (
    arith,
    length-insert r (at_url url s.pool.unused),
    released-room sound url r before after split,
  )

  put_back-shelved : put_back url r s.pool ≡ (shelved, [])
  unfolding put_back shelved
  put_back-shelved =
      rw
        (
          used-split sound url r before after split,
          trim_fits s.pool.min_capacity (insert r (at_url url s.pool.unused)) s.pool.timestamps
              fits,
        )
        refl

  put_back-IsSound :
      SystemIsSound (outcome (record s { held = before ++ after }) (put_back url r s.pool))
  unfolding shelved
  put_back-IsSound =
      subst (λ o. SystemIsSound (outcome (record s { held = before ++ after }) o))
        (sym put_back-shelved)
        (subst
          (λ k. IsSound k s.pool.min_capacity s.pool.pending (before ++ after) s.opening s.settling)
          (sym (
            contents-unused (put url (erase r (at_url url s.pool.used)) s.pool.used) s.pool.unused
              url (insert r (at_url url s.pool.unused))
            ∙ ap (λ k. at_place k false url (insert r (at_url url s.pool.unused)))
                (contents-used s.pool.used s.pool.unused url (erase r (at_url url s.pool.used)))))
          (shelved-IsSound (released-IsSound sound url r before after split) url r
            (released-nowhere sound url r before after split)
            (rw (str_eq_refl url) (released-room sound url r before after split))))

  collect_for-IsSound :
      (ps : List ℕ)
      → SystemIsSound
          (outcome (record s { held = before ++ after }) (collect_for ps url r now s.pool))
  collect_for-IsSound [] = put_back-IsSound
  collect_for-IsSound (p ∷ ps) = handed-IsSound sound url r before after split

  pub collect-IsSound :
      s.pool.shut ≡ false
      → SystemIsSound
          (outcome (record s { held = before ++ after }) (Pool.collect url r now s.pool))
  unfolding Pool.collect
  collect-IsSound alive =
      subst
        (λ (b : Bool). SystemIsSound (
          outcome (record s { held = before ++ after })
            (if b
              then (s.pool, [])
              else if has r s.pool.invalid
              then release url r (record s.pool { invalid = erase r s.pool.invalid })
              else collect_for s.pool.waiting url r now s.pool)))
        (sym alive)
        (elim (Bool-cases (has r s.pool.invalid)) [
          | inl e ↦ rw e (release-IsSound (erase r s.pool.invalid) alive)
          | inr e ↦ rw e (collect_for-IsSound s.pool.waiting)
        ])
