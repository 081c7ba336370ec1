-- ===== src/Url/RoundTrip.antt =====
-- libraries/prio/src/url.cpp: `set` on what `toString` writes.

use mathlib.Core.Path.{subst}
use wpp.Prelude.{
  Bool-cases, inl, inr, is_digit, Bytes, ℕ, false, Option, some, [], ◌∷◌, ◌++◌, ◌≡◌, ◌≢◌, refl, sym,
  ap, ◌∙◌, arith, All, All-append, Lacks, append_assoc, append-nil, find_char, codes, ◌>>=◌,
}
use wpp.Prelude.Decimal.{ℤ, pos, negsuc, print_nat-cons, IsInt, print_int, print_int-Lacks}
use wpp.Url.{
  Url, empty_url, set, to_string, full_path, set_authority, set_scheme, cut_path, cut_port,
  set_full_path, default_port, user_text, port_text, anchor_text, is_shown, query_of,
}
use wpp.Url.Query.{IsEntry}
use wpp.Url.Steps.{find-scheme, scheme_step, path_step, user_step, port_step}
use wpp.Url.FullPath.{full_path_step}

-- A url whose parts hold none of the separators that `set` looks for.
pub record IsClean (u : Url) : Type 0 where
  pub proto_colon : Lacks b':' u.proto
  pub user_at : Lacks b'@' u.user
  pub user_colon : Lacks b':' u.user
  pub user_slash : Lacks b'/' u.user
  pub pwd_at : Lacks b'@' u.pwd
  pub pwd_slash : Lacks b'/' u.pwd
  pub pwd_user : u.user ≡ [] → u.pwd ≡ []
  pub host_nonempty : u.host ≢ []
  pub host_at : Lacks b'@' u.host
  pub host_colon : Lacks b':' u.host
  pub host_slash : Lacks b'/' u.host
  pub port_int : IsInt u.port
  pub port_default : is_shown u.port ≡ false → default_port u.proto ≡ u.port
  pub rest : Bytes
  pub path_slash : u.path ≡ b'/' ∷ rest
  pub path_query : Lacks b'?' u.path
  pub path_anchor : Lacks b'#' (u.path ++ query_of u.params)
  pub params_entries : All IsEntry u.params

abbrev authority : Url → Bytes
authority u = user_text u.user u.pwd ++ (u.host ++ port_text u.port)

user_text-Lacks :
    (c : ℕ) (user pwd : Bytes)
    → b':' ≢ c
    → b'@' ≢ c
    → Lacks c user
    → Lacks c pwd
    → Lacks c (user_text user pwd)
user_text-Lacks c [] pwd n m hu hp = tt
user_text-Lacks c (x ∷ user) [] n m hu hp = All-append _ (x ∷ user) _ hu (m, tt)
user_text-Lacks c (x ∷ user) (y ∷ pwd) n m hu hp =
    All-append _ (x ∷ user) _ hu (n, All-append _ (y ∷ pwd) _ hp (m, tt))

-- A text whose last byte is there and is no colon.
record EndsClean (t : Bytes) : Type 0 where
  init : Bytes
  last : ℕ
  splits : t ≡ init ++ last ∷ []
  no_colon : last ≢ b':'

ends_behind : (front t : Bytes) → EndsClean t → EndsClean (front ++ t)
ends_behind front t e = record {
  init = front ++ e.init;
  last = e.last;
  splits = ap (λ (s : Bytes). front ++ s) e.splits ∙ sym (append_assoc front e.init (e.last ∷ []));
  no_colon = e.no_colon;
}

ends_of : (t : Bytes) → t ≢ [] → Lacks b':' t → EndsClean t
ends_of [] h k = absurd (h refl)
ends_of (x ∷ []) h (k, _) = record { init = []; last = x; splits = refl; no_colon = k }
ends_of (x ∷ y ∷ t) h (k, ks) = ends_behind (x ∷ []) (y ∷ t) (ends_of (y ∷ t) (λ e. cc) ks)

print_int_ne : (z : ℤ) → print_int z ≢ []
unfolding print_int
print_int_ne (pos n) = print_nat-cons n
print_int_ne (negsuc n) = λ e. cc

port_ends : (h : Bytes) (z : ℤ) → h ≢ [] → Lacks b':' h → EndsClean (h ++ port_text z)
port_ends h z ne free = elim (Bool-cases (is_shown z)) [
  | inl e ↦ rw e (
      ends_behind h _ (
        ends_behind (b':' ∷ []) (print_int z)
          (ends_of (print_int z) (print_int_ne z) (print_int-Lacks b':' z refl (omega arith)))))
  | inr e ↦ rw (e, append-nil h) (ends_of h ne free)
]

port_text-Lacks : (c : ℕ) (z : ℤ) → is_digit c ≡ false → b'-' ≢ c → b':' ≢ c → Lacks c (port_text z)
port_text-Lacks c z d m k = elim (Bool-cases (is_shown z)) [
  | inl e ↦ rw e (k, print_int-Lacks c z d m)
  | inr e ↦ rw e tt
]

host_step :
    (a t : Bytes) (u : Url)
    → EndsClean a
    → Lacks b'/' a
    → cut_path (find_char b'/' (a ++ b'/' ∷ t)) (record u { host = a ++ b'/' ∷ t })
      ≡ (b'/' ∷ t, record u { host = a })
host_step a t u e free =
    subst
      (λ (s : Bytes).
        Lacks b'/' s
        → cut_path (find_char b'/' (s ++ b'/' ∷ t)) (record u { host = s ++ b'/' ∷ t })
          ≡ (b'/' ∷ t, record u { host = s }))
      (sym e.splits) (λ k. path_step e.init t e.last u k e.no_colon) free

-- `set` behind the path's cut.
authority_step :
    (u v : Url)
    → IsClean u
    → v.port ≡ default_port u.proto
    → set_authority (
      full_path u,
      record v {
        host = authority u;
        proto = u.proto;
        user = [];
        pwd = [];
        params = [];
        anchor = [];
      },
    )
      ≡ some u
unfolding set_authority full_path
authority_step u v c port_eq =
    ap (λ (w : Url). cut_port (find_char b':' w.host) w >>= set_full_path (full_path u))
      (user_step u.user u.pwd h (record v { proto = u.proto; params = []; anchor = [] }) c.user_at
        c.user_colon c.pwd_at
        (All-append _ u.host _ c.host_at
          (port_text-Lacks b'@' u.port refl (omega arith) (omega arith)))
        c.pwd_user)
    ∙ ap (λ (o : Option Url). o >>= set_full_path (full_path u))
        (port_step u.host u.port
          (record v { proto = u.proto; user = u.user; pwd = u.pwd; params = []; anchor = [] })
          c.host_colon c.port_int (λ e. port_eq ∙ c.port_default e))
    ∙ full_path_step u.path u.anchor u.params (record u { path = v.path }) c.path_query
        c.path_anchor c.params_entries
  where
    h : Bytes
    h = u.host ++ port_text u.port

text_parts :
    (u : Url) → IsClean u → to_string u ≡ u.proto ++ (codes "://" ++ (authority u ++ full_path u))
unfolding to_string
text_parts u c =
    ap (λ (s : Bytes). u.proto ++ (codes "://" ++ s))
      (sym (
        append_assoc (user_text u.user u.pwd) _ _
        ∙ ap (λ (s : Bytes). user_text u.user u.pwd ++ s) (append_assoc u.host _ _)))

-- `set` of a new `Url` gives back the url that `toString` wrote, all its parts included, if no part
-- holds a separator that is looked for in front of it, the host is not empty, there is no password
-- without a user, the path starts with `/`, the keys and values of the query are there and plain,
-- and a port that is left out is the protocol's own.
pub set-to_string : (u : Url) → IsClean u → set (to_string u) empty_url ≡ some u
unfolding set
set-to_string u c =
    ap (λ (s : Bytes). set s empty_url) (text_parts u c)
    ∙ ap (λ (o : Option ℕ). behind_scheme (set_scheme text o empty_url))
        (find-scheme u.proto (authority u ++ full_path u) c.proto_colon)
    ∙ ap behind_scheme (scheme_step u.proto (authority u ++ full_path u) empty_url)
    ∙ ap set_authority (
        subst
          (λ (f : Bytes).
            cut_path (find_char b'/' (authority u ++ f)) (record start { host = authority u ++ f })
            ≡ (f, record start { host = authority u }))
          (sym full_eq) (host_step (authority u) _ start ends slashless))
    ∙ authority_step u start c refl
  where
    text : Bytes
    text = u.proto ++ (codes "://" ++ (authority u ++ full_path u))

    start : Url
    start = record empty_url { proto = u.proto; port = default_port u.proto }

    behind_scheme : Url → Option Url
    behind_scheme v = set_authority (cut_path (find_char b'/' v.host) v)

    full_eq : full_path u ≡ b'/' ∷ (c.rest ++ (query_of u.params ++ anchor_text u.anchor))
    full_eq =
        unfold full_path in
        ap (λ (s : Bytes). s ++ (query_of u.params ++ anchor_text u.anchor)) c.path_slash

    ends : EndsClean (authority u)
    ends = ends_behind _ _ (port_ends u.host u.port c.host_nonempty c.host_colon)

    slashless : Lacks b'/' (authority u)
    slashless =
        All-append _ (user_text u.user u.pwd) _
          (user_text-Lacks b'/' u.user u.pwd (omega arith) (omega arith) c.user_slash c.pwd_slash)
          (All-append _ u.host _ c.host_slash
            (port_text-Lacks b'/' u.port refl (omega arith) (omega arith)))
