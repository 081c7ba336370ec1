-- ===== src/Url/Steps.antt =====
-- libraries/prio/src/url.cpp: the steps of `set` on text of the form that `toString` writes.

use wpp.Prelude.{
  Bytes, ℕ, zero, suc, ◌+◌, ◌-◌, Bool, true, false, ◌&&◌, some, [], ◌∷◌, ◌++◌, ◌≡◌, ◌≢◌, refl, sym,
  ap, ◌∙◌, arith, All-append, Lacks, codes, length, length-append, append_assoc, append-nil, drop,
  get_or, take-length, drop-length, drop-suc-length, find_char, find_char-append, find_char-Lacks,
  find_str, starts_with, ltb, ◌==◌, Bool-cases, inl, inr,
}
use wpp.Prelude.Decimal.{ℤ, print_int, IsInt, atoi-print_int}
use wpp.Prelude.Cuts.{drop-front}
use wpp.Url.{
  Url, set_scheme, default_port, cut_path, set_user_pwd, cut_user, cut_port, user_text, port_text,
  is_shown,
}

pub find-scheme :
    (proto rest : Bytes)
    → Lacks b':' proto
    → find_str (codes "://") (proto ++ (codes "://" ++ rest)) ≡ some (length proto)
unfolding find_str starts_with
find-scheme [] rest h = refl
find-scheme (x ∷ proto) rest (hx, h) =
    let e : (b':' == x) ≡ false = ground arith in rw (e, find-scheme proto rest h) refl

pub scheme_step :
    (proto rest : Bytes) (u : Url)
    → set_scheme (proto ++ (codes "://" ++ rest)) (some (length proto)) u
      ≡ record u { proto = proto; port = default_port proto; host = rest }
unfolding set_scheme
scheme_step proto rest u = rw (take-length proto (codes "://" ++ rest), behind proto) refl
  where
    behind : (p : Bytes) → drop (length p + 3) (p ++ (codes "://" ++ rest)) ≡ rest
    behind p =
        ap (λ (s : Bytes). drop (length p + 3) s) (sym (append_assoc p (codes "://") rest))
        ∙ drop-front (p ++ codes "://") rest _ (omega (arith, length-append {0} p (codes "://")))

-- The byte in front of the path is the host's last one.
get_last : (s : Bytes) (x n : ℕ) → n ≡ length s → get_or (s ++ x ∷ []) n 0 ≡ x
get_last [] x zero e = refl
get_last [] x (suc n) e = absurd (omega arith)
get_last (y ∷ s) x zero e = absurd (omega arith)
get_last (y ∷ s) x (suc n) e = get_last s x n (omega arith)

pub path_step :
    (s t : Bytes) (x : ℕ) (u : Url)
    → Lacks b'/' (s ++ x ∷ [])
    → x ≢ b':'
    → let host = (s ++ x ∷ []) ++ b'/' ∷ t in
      cut_path (find_char b'/' host) (record u { host = host })
      ≡ (b'/' ∷ t, record u { host = s ++ x ∷ [] })
unfolding cut_path
path_step s t x u h hx =
    rw
      (
        find_char-append b'/' (s ++ x ∷ []) t h,
        cut_path,
        take-length (s ++ x ∷ []) (b'/' ∷ t),
        drop-length (s ++ x ∷ []) (b'/' ∷ t),
        get_last s x (length (s ++ x ∷ []) - 1) (omega (arith, length-append {0} s (x ∷ []))),
        no_colon,
        and_false (ltb 0 (length (s ++ x ∷ []))),
      )
      refl
  where
    no_colon : (x == b':') ≡ false
    no_colon = ground arith

    and_false : (b : Bool) → (b && false) ≡ false
    and_false true = refl
    and_false false = refl

-- The host in front of which `tmp` and an `@` stand.
at_sign :
    (tmp h : Bytes) (u : Url)
    → Lacks b'@' tmp
    → cut_user
        (find_char b'@' (tmp ++ b'@' ∷ h))
        (record u { host = tmp ++ b'@' ∷ h; user = []; pwd = [] })
      ≡ set_user_pwd tmp (find_char b':' tmp) (record u { host = h; user = []; pwd = [] })
unfolding cut_user
at_sign tmp h u free =
    rw (find_char-append b'@' tmp h free, cut_user, take-length tmp (b'@' ∷ h), behind) refl
  where
    behind : drop (length tmp + 1) (tmp ++ b'@' ∷ h) ≡ h
    behind =
        ap (λ (n : ℕ). drop n (tmp ++ b'@' ∷ h)) {y = suc (length tmp)} (omega arith)
        ∙ drop-suc-length tmp b'@' h

-- The user and the password.
pub user_step :
    (user pwd h : Bytes) (u : Url)
    → Lacks b'@' user
    → Lacks b':' user
    → Lacks b'@' pwd
    → Lacks b'@' h
    → (user ≡ [] → pwd ≡ [])
    → let host = user_text user pwd ++ h in
      cut_user (find_char b'@' host) (record u { host = host; user = []; pwd = [] })
      ≡ record u { host = h; user = user; pwd = pwd }
unfolding cut_user set_user_pwd
user_step [] pwd h u _ _ _ hh e =
    rw (find_char-Lacks b'@' h hh) (λ i. record u { host = h; user = []; pwd = sym (e refl) i })
user_step (x ∷ user) [] h u hu hc _ hh e =
    ap step (append_assoc (x ∷ user) (b'@' ∷ []) h)
    ∙ at_sign (x ∷ user) h u hu
    ∙ rw (find_char-Lacks b':' (x ∷ user) hc) refl
  where
    step : Bytes → Url
    step s = cut_user (find_char b'@' s) (record u { host = s; user = []; pwd = [] })
user_step (x ∷ user) (y ∷ pwd) h u hu hc hp hh e =
    ap step (
      append_assoc (x ∷ user) _ h
      ∙ ap (λ (t : Bytes). x ∷ user ++ (b':' ∷ y ∷ t)) (append_assoc pwd (b'@' ∷ []) h)
      ∙ sym (append_assoc (x ∷ user) (b':' ∷ y ∷ pwd) (b'@' ∷ h)))
    ∙ at_sign tmp h u (All-append _ (x ∷ user) (b':' ∷ y ∷ pwd) hu (omega arith, hp))
    ∙ rw
        (
          find_char-append b':' (x ∷ user) (y ∷ pwd) hc,
          set_user_pwd,
          take-length (x ∷ user) (b':' ∷ y ∷ pwd),
          behind,
        )
        refl
  where
    tmp : Bytes
    tmp = x ∷ user ++ b':' ∷ y ∷ pwd

    step : Bytes → Url
    step s = cut_user (find_char b'@' s) (record u { host = s; user = []; pwd = [] })

    behind : drop (length (x ∷ user) + 1) (x ∷ user ++ b':' ∷ y ∷ pwd) ≡ y ∷ pwd
    behind =
        ap (λ (n : ℕ). drop n tmp) {y = suc (length (x ∷ user))} (omega arith)
        ∙ drop-suc-length (x ∷ user) b':' (y ∷ pwd)

-- The port.
pub port_step :
    (h : Bytes) (z : ℤ) (u : Url)
    → Lacks b':' h
    → IsInt z
    → (is_shown z ≡ false → u.port ≡ z)
    → let host = h ++ port_text z in
      cut_port (find_char b':' host) (record u { host = host })
      ≡ some (record u { host = h; port = z })
unfolding cut_port
port_step h z u hh hz hidden = elim (Bool-cases (is_shown z)) [
  | inl e ↦
      rw
        (
          e,
          find_char-append b':' h (print_int z) hh,
          cut_port,
          behind,
          atoi-print_int z hz,
          take-length h (b':' ∷ print_int z),
        )
        refl
  | inr e ↦
      rw (e, append-nil h, find_char-Lacks b':' h hh)
        (λ i. some (record u { host = h; port = hidden e i }))
]
  where
    behind : drop (length h + 1) (h ++ b':' ∷ print_int z) ≡ print_int z
    behind =
        ap (λ (n : ℕ). drop n (h ++ b':' ∷ print_int z)) {y = suc (length h)} (omega arith)
        ∙ drop-suc-length h b':' (print_int z)
