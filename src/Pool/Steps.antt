-- ===== src/Pool/Steps.antt =====
-- libraries/prio/include/priocpp/res.h: every step of a pool keeps what holds of it before `shutdown`.
use mathlib.Core.Path.{subst}
use wpp.Prelude.{
  Bytes, ℕ, ◌+◌, ◌≤◌, ◌<◌, true, false, Option, none, some, List, [], ◌∷◌, ◌++◌, length, ltb,
  str_eq_refl, Bool-cases, ◌≡◌, refl, sym, ap, ◌∙◌, ◌⊎◌, inl, inr, arith,
}
use wpp.Prelude.Maps.{put}
use wpp.Pool
use wpp.Pool.{
  Pool, Effect, resolved, retrieves, freed, at_url, Scan, scan, get_taken, scanned, release,
  put_back, collect_for, trim,
}
use wpp.Pool.Sets.{insert}
use wpp.Pool.Places.{at_place, lost}
use wpp.Pool.System.{System, outcome, contents, inside, openings, IsSound, SystemIsSound}
use wpp.Pool.Soundness.{for_url, dropped-IsSound, added-IsSound}
use wpp.Pool.Scans.{contents-used, contents-unused, note-freed, Takes, scan-Takes}

-- Sound, or shut down.
abbrev pub Live : System → Type 0
Live s = (s.pool.shut ≡ true) ⊎ SystemIsSound s

openings-le : (u : Bytes) (os : List (ℕ × Bytes)) → openings u os ≤ length os
openings-le u [] = omega arith
openings-le u ((p, url) ∷ os) = ground (arith, openings-le u os)

module _ (p : ℕ) (url : Bytes) (now : ℕ) (s : System) (sound : SystemIsSound s) (c : Scan)
    (t : Takes (at_url url s.pool.unused) c.taken c.rest) where
  without :
      IsSound
        (at_place (inside s.pool) false url c.rest)
        s.pool.min_capacity
        s.pool.pending
        s.held
        s.opening
        s.settling
  without = dropped-IsSound sound url c.rest t.sub t.nodup t.fewer

  without_shelf :
      contents s.pool.used (put url c.rest s.pool.unused)
      ≡ at_place (inside s.pool) false url c.rest
  without_shelf = contents-unused s.pool.used s.pool.unused url c.rest

  taken-IsSound :
      (r : ℕ)
      → c.taken ≡ some r
      → SystemIsSound (outcome s (get_taken (some r) p url now (scanned url c s.pool)))
  taken-IsSound r e =
      subst
        (λ k. IsSound k s.pool.min_capacity s.pool.pending ((url, r) ∷ s.held) s.opening s.settling)
        (sym (
          contents-used s.pool.used (put url c.rest s.pool.unused) url
            (insert r (at_url url s.pool.used))
          ∙ ap (λ k. at_place k true url (insert r (at_url url s.pool.used))) without_shelf))
        (added-IsSound without url r
          (lost (inside s.pool) r false url c.rest sound.one (t.found r e) (t.alone r e))
          (rw (str_eq_refl url) (omega (arith, sound.quota url, t.left r e))))

  opened-IsSound :
      c.taken ≡ none
      → length (at_url url s.pool.used) + s.pool.pending < s.pool.min_capacity
      → SystemIsSound (
          outcome s
            (record (scanned url c s.pool) { pending = s.pool.pending + 1 }, retrieves p url ∷ []))
  opened-IsSound e room =
      subst
        (λ k.
          IsSound k s.pool.min_capacity (s.pool.pending + 1) s.held ((p, url) ∷ s.opening)
            s.settling)
        (sym without_shelf)
        (record {
          one = without.one;
          nodup = without.nodup;
          in_use = without.in_use;
          sole = without.sole;
          quota = λ u.
              for_url
                (λ v.
                  length (at_url v s.pool.used)
                    + length (at_place (inside s.pool) false url c.rest false v)
                    + openings v ((p, url) ∷ s.opening)
                  ≤ s.pool.min_capacity)
                url u
                (rw (str_eq_refl url) (
                  omega (
                    arith,
                    room,
                    sound.counted,
                    openings-le url s.opening,
                    ap length (t.emptied e),
                  )))
                (λ ne. rw ne (omega (arith, sound.quota u)));
          counted = omega (arith, sound.counted);
        })

  waiting-IsSound :
      SystemIsSound
        (outcome s (record (scanned url c s.pool) { waiting = s.pool.waiting ++ p ∷ [] }, []))
  waiting-IsSound =
      subst (λ k. IsSound k s.pool.min_capacity s.pool.pending s.held s.opening s.settling)
        (sym without_shelf) without

  get_taken-IsSound :
      (taken : Option ℕ)
      → c.taken ≡ taken
      → SystemIsSound (outcome s (get_taken taken p url now (scanned url c s.pool)))
  get_taken-IsSound (some r) e = taken-IsSound r e
  get_taken-IsSound none e =
      elim (Bool-cases
        (ltb (length (at_url url s.pool.used) + s.pool.pending) s.pool.min_capacity)) [
          | inl room ↦ rw room (opened-IsSound e (ground arith))
          | inr full ↦ rw full waiting-IsSound
        ]

pub get-IsSound :
    (p : ℕ) (url : Bytes) (now : ℕ) (s : System)
    → SystemIsSound s
    → SystemIsSound (outcome s (Pool.get p url now s.pool))
unfolding Pool.get
get-IsSound p url now s sound =
    let c : Scan = scan now s.pool.max_age (at_url url s.pool.unused) s.pool.timestamps in
    let after : Pool × List Effect = get_taken c.taken p url now (scanned url c s.pool) in
    subst SystemIsSound (sym (note-freed c.dropped after.1 (record s { pool = after.0 }))) (
      get_taken-IsSound p url now s sound c
        (scan-Takes now s.pool.max_age (at_url url s.pool.unused) s.pool.timestamps
          (sound.nodup url))
        c.taken refl)
