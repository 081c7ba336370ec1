-- ===== src/Url/Host.antt =====
-- libraries/prio/src/url.cpp: what `setHost` leaves of the slashes around a host.
use wpp.Prelude.{
  Bytes, ℕ, zero, suc, ◌+◌, Bool, false, not, some, none, [], ◌∷◌, ◌++◌, ◌≡◌, refl, ap, ◌∙◌, arith,
  All, length, drop, take, find_first, find_last,
}
use wpp.Url.{is_slash, host_of}

unfoldable pub slashes : ℕ → Bytes
slashes zero = []
slashes (suc n) = b'/' ∷ slashes n

abbrev pub IsKept : ℕ → Type 0
IsKept c = is_slash c ≡ false

abbrev kept : ℕ → Bool
kept c = not (is_slash c)

first_kept : (n x : ℕ) (r : Bytes) → IsKept x → find_first kept (slashes n ++ x ∷ r) ≡ some n
unfolding find_first slashes
first_kept zero x r h = rw h refl
first_kept (suc n) x r h = rw (first_kept n x r h) refl

last_none : (m : ℕ) → find_last kept (slashes m) ≡ none
unfolding find_last slashes
last_none zero = refl
last_none (suc m) = rw (last_none m) refl

last_kept :
    (x : ℕ) (t : Bytes) (m : ℕ)
    → All IsKept (x ∷ t)
    → find_last kept (x ∷ t ++ slashes m) ≡ some (length t)
unfolding find_last
last_kept x [] m (h, _) = rw (find_last, last_none m, h) refl
last_kept x (y ∷ t) m (h, hs) = rw (find_last, last_kept y t m hs) refl

last_behind :
    (n i : ℕ) (r : Bytes)
    → find_last kept r ≡ some i
    → find_last kept (slashes n ++ r) ≡ some (n + i)
unfolding find_last slashes
last_behind zero i r e = e ∙ ap some (omega arith)
last_behind (suc n) i r e = rw (last_behind n i r e) (ap some (omega arith))

length-slashes : (n : ℕ) → length (slashes n) ≡ n
unfolding slashes
length-slashes zero = refl
length-slashes (suc n) = ap suc (length-slashes n)

drop-slashes : (n : ℕ) (r : Bytes) → drop n (slashes n ++ r) ≡ r
unfolding slashes
drop-slashes zero r = refl
drop-slashes (suc n) r = drop-slashes n r

take-behind : (h r : Bytes) (n : ℕ) → take (length h + n) (h ++ r) ≡ h ++ take n r
take-behind [] r n = ap (λ (k : ℕ). take k r) {y = n} (omega arith)
take-behind (x ∷ h) r n =
    ap (λ (k : ℕ). take k (x ∷ h ++ r)) {y = suc (length h + n)} (omega arith)
    ∙ ap (◌∷◌ x) (take-behind h r n)

-- Of a host with slashes in front of it and behind it `setHost` cuts those in front, but leaves as many
-- of those behind it as there were in front.
pub host_of-slashes :
    (n m x : ℕ) (t : Bytes)
    → All IsKept (x ∷ t)
    → host_of (slashes n ++ (x ∷ t ++ slashes m)) ≡ (x ∷ t) ++ take n (slashes m)
unfolding host_of
host_of-slashes n m x t h =
    rw
      (
        host_of,
        last_behind n (length t) (x ∷ t ++ slashes m) (last_kept x t m h),
        first_kept n x (t ++ slashes m) h.0,
        drop-slashes n (x ∷ t ++ slashes m),
      )
      (ap (λ (k : ℕ). take k (x ∷ t ++ slashes m)) {y = length (x ∷ t) + n} (omega arith)
        ∙ take-behind (x ∷ t) (slashes m) n)
