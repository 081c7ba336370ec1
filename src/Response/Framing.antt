-- ===== src/Response/Framing.antt =====
-- libraries/prio-http/src/response.cpp: how the headers that `flushHeaders` leaves frame the body.
use wpp.Prelude.{
  Bytes, Bool, true, false, Option, none, some, List, [], ◌∷◌, ◌++◌, ◌≡◌, refl, ap, ◌∙◌,
  if◌then◌else◌, case_eq, case_eq_refl, Bool-cases, inl, inr, codes, ◌>>=◌, str_eq, length, All,
  arith,
}
use wpp.Prelude.Decimal.{print_nat, print_nat-IsDigit, IsDigit}
use wpp.Cookie
use wpp.Cookie.{Cookie}
use wpp.Headers.{Header, Headers, get_in, exists_in, set}
use wpp.Headers.Laws.{set_other}
use wpp.Response.{
  Response, announce_length, drop_dash, announce_chunks, announce_gzip, announce_keep_alive,
  set_cookies, flush_headers,
}

-- An `Option` that has a value, which satisfies `P`.
abbrev pub Ends {ℓ} : {A : Type ℓ} → (A → Type 0) → Option A → Type 0
Ends P none = ⊥
Ends P (some a) = P a

pub bind-Ends {ℓ κ} :
    {A : Type ℓ} {B : Type κ} (P : A → Type 0) (Q : B → Type 0) (o : Option A) (f : A → Option B)
    → Ends P o
    → ((a : A) → P a → Ends Q (f a))
    → Ends Q (o >>= f)
bind-Ends P Q none f h next = elim h [ ]
bind-Ends P Q (some a) f h next = next a h

abbrev length_name : Bytes
length_name = codes "Content-Length"

abbrev chunks_name : Bytes
chunks_name = codes "TRANSFER-ENCODING"

-- Whether a header is there, and its value.
abbrev pub seen : Bytes → List Header → Bool × Bytes
seen j hs = (exists_in j hs, get_in j hs)

seen-apart :
    (j key val : Bytes) (hs : List Header)
    → case_eq key j ≡ false
    → seen j (hs ++ (key, val) ∷ []) ≡ seen j hs
unfolding exists_in get_in
seen-apart j key val [] e = rw e refl
seen-apart j key val ((k, v) ∷ hs) e = elim (Bool-cases (case_eq k j)) [
  | inl t ↦ rw t refl
  | inr t ↦ rw t (seen-apart j key val hs e)
]

seen-new :
    (j val : Bytes) (hs : List Header)
    → exists_in j hs ≡ false
    → seen j (hs ++ (j, val) ∷ []) ≡ (true, val)
unfolding exists_in get_in
seen-new j val [] e = rw (case_eq_refl j) refl
seen-new j val ((k, v) ∷ hs) e = elim (Bool-cases (case_eq k j)) [
  | inl t ↦ cc (rw t at e)
  | inr t ↦ rw t (seen-new j val hs (rw t at e))
]

-- The two headers that frame a body.
abbrev pub Frames : Bool × Bytes → Bool × Bytes → Headers → Type 0
Frames c t h = (seen length_name h.headers ≡ c) × (seen chunks_name h.headers ≡ t)

module _ (c t : Bool × Bytes) where
  set-Frames :
      (key val : Bytes) (h : Headers)
      → case_eq key (codes "COOKIE") ≡ false
      → case_eq key length_name ≡ false
      → case_eq key chunks_name ≡ false
      → Frames c t h
      → Ends (Frames c t) (set key val h)
  set-Frames key val h no_cookie no_length no_chunks (hc, ht) = rw (set_other key val h no_cookie) (
    seen-apart length_name key val h.headers no_length ∙ hc,
    seen-apart chunks_name key val h.headers no_chunks ∙ ht,
  )

  gzip-Frames : (g : Bool) (h : Headers) → Frames c t h → Ends (Frames c t) (announce_gzip g h)
  unfolding announce_gzip case_eq
  gzip-Frames false h e = e
  gzip-Frames true h e = set-Frames (codes "CONTENT-ENCODING") (codes "gzip") h refl refl refl e

  if-Frames :
      (b : Bool) (o : Option Headers) (h : Headers)
      → Ends (Frames c t) o
      → Frames c t h
      → Ends (Frames c t) (if b then o else some h)
  if-Frames true o h k e = k
  if-Frames false o h k e = e

  keep_alive-Frames :
      (k : Bool) (h : Headers) → Frames c t h → Ends (Frames c t) (announce_keep_alive k h)
  unfolding announce_keep_alive case_eq
  keep_alive-Frames k h e =
      if-Frames _ (set (codes "Connection") (codes "Keep-Alive") h) h
        (set-Frames (codes "Connection") (codes "Keep-Alive") h refl refl refl e) e

  cookies-Frames :
      (cs : List Cookie) (h : Headers) → Frames c t h → Ends (Frames c t) (set_cookies cs h)
  unfolding set_cookies case_eq
  cookies-Frames [] h e = e
  cookies-Frames (x ∷ cs) h e =
      bind-Ends (Frames c t) (Frames c t) (set (codes "Set-Cookie") (Cookie.str x) h)
        (λ g. set_cookies cs g) (set-Frames (codes "Set-Cookie") (Cookie.str x) h refl refl refl e)
        (λ g e'. cookies-Frames cs g e')

-- What the framing headers are at the end.
abbrev pub plain_length : Bool → Bytes → Bool × Bytes
plain_length true body = (false, [])
plain_length false body = (true, print_nat (length body))

abbrev pub chunked_coding : Bool → Bool × Bytes
chunked_coding true = (true, codes "chunked")
chunked_coding false = (false, [])

digits-dash : (s : Bytes) → All IsDigit s → str_eq s (codes "-") ≡ false
unfolding str_eq
digits-dash [] h = refl
digits-dash (c ∷ s) (hc, h) = ground arith

kept :
    (h : Headers) (v : Bytes)
    → get_in length_name h.headers ≡ v
    → str_eq v (codes "-") ≡ false
    → drop_dash h ≡ h
unfolding drop_dash
kept h v e dash = rw (e, dash) refl

first_length :
    (body : Bytes) (h : Headers)
    → get_in length_name h.headers ≡ []
    → announce_length false body h
      ≡ some (record h { headers = h.headers ++ (length_name, print_nat (length body)) ∷ [] })
unfolding announce_length case_eq
first_length body h e = rw e (set_other length_name (print_nat (length body)) h refl)

announced-Frames :
    (chunked : Bool) (body : Bytes) (h : Headers)
    → Frames (false, []) (false, []) h
    → Ends
        (Frames (plain_length chunked body) (chunked_coding chunked))
        (announce_length chunked body h >>= (λ g. announce_chunks chunked (drop_dash g)))
unfolding announce_chunks case_eq
announced-Frames false body h (hc, ht) =
    let g : Headers = record h {
      headers = h.headers ++ (length_name, print_nat (length body)) ∷ [];
    } in
    let c : seen length_name g.headers ≡ (true, print_nat (length body)) =
      seen-new length_name (print_nat (length body)) h.headers (ap (λ p. p.0) hc) in
    rw
      (
        first_length body h (ap (λ p. p.1) hc),
        kept g (print_nat (length body)) (ap (λ p. p.1) c)
            (digits-dash (print_nat (length body)) (print_nat-IsDigit (length body))),
      )
      (c, seen-apart chunks_name length_name (print_nat (length body)) h.headers refl ∙ ht)
announced-Frames true body h (hc, ht) =
    let none_set : announce_length true body h ≡ some h =
      unfold announce_length in rw (ap (λ p. p.1) hc) refl in
    let same : drop_dash h ≡ h = kept h [] (ap (λ p. p.1) hc) (unfold str_eq in refl) in
    rw (none_set, same, set_other chunks_name (codes "chunked") h refl)
      (
        seen-apart length_name chunks_name (codes "chunked") h.headers refl ∙ hc,
        seen-new chunks_name (codes "chunked") h.headers (ap (λ p. p.0) ht),
      )

-- `flushHeaders` of a response with neither framing header set before always succeeds and frames
-- the body in one way: with its length and no transfer encoding, or chunked and with no length.
pub flush_headers-Frames :
    (keep : Bool) (r : Response)
    → r.headers_sent ≡ false
    → Frames (false, []) (false, []) r.headers
    → Ends
        (λ s.
          (s.headers_sent ≡ true)
          × ((s.body ≡ r.body)
              × Frames (plain_length r.is_chunked r.body) (chunked_coding r.is_chunked) s.headers))
        (flush_headers keep r)
unfolding flush_headers
flush_headers-Frames keep r unsent e = rw unsent (
    bind-Ends (Frames c t) _ _ _
      (bind-Ends (Frames c t) (Frames c t) _ _
        (bind-Ends (Frames c t) (Frames c t) _ _
          (bind-Ends (Frames c t) (Frames c t) _ _
            (announced-Frames r.is_chunked r.body r.headers e)
            (λ h f. gzip-Frames c t r.is_gzipped h f))
          (λ h f. keep_alive-Frames c t keep h f))
        (λ h f. cookies-Frames c t h.cookies h f))
      (λ h f. (refl, (refl, f))))
  where
    c : Bool × Bytes
    c = plain_length r.is_chunked r.body

    t : Bool × Bytes
    t = chunked_coding r.is_chunked
