-- ===== src/QueryParams/RoundTrip.antt =====
-- libraries/prio-http/src/queryparams.cpp: the constructor on what `toString` writes.
use wpp.Prelude.{
  Bytes, ℕ, false, some, List, [], ◌∷◌, ◌++◌, map, ◌≡◌, ◌≢◌, refl, ap, ◌∙◌, arith, All, All-append,
  All-imp, is_alnum, ◌||◌, is_empty_ne, append_assoc, append-nil, c_str, Lacks, ◌<◌, ◌==◌,
}
use wpp.Text.{split}
use wpp.Text.Split.{IsPart, join, split-append, split_one, split-join}
use wpp.UrlEncode.{encode}
use wpp.UrlEncode.RoundTrip.{decode_verbatim, blank_as_space, decode-encode}
use wpp.UrlEncode.Alphabet.{encode-IsUnreserved, encode-ne-nil}
use wpp.QueryParams.{
  Param, QueryParams, add_pieces, parse_items, parse, write_params, pop_back, to_string,
}

-- A byte that `Urlencode::decode` copies and no `split` of the constructor cuts at.
abbrev pub IsPlain : ℕ → Type 0
IsPlain c = (c ≢ 0) × (c ≢ b'&') × (c ≢ b'=') × (c ≢ b'%') × (c ≢ b'+')

-- A byte of a value that survives encoding: no NUL, and no blank other than space, \n and \r.
abbrev pub IsKept : ℕ → Type 0
IsKept c = (c < 256) × (c ≢ 0) × (blank_as_space c ≡ c)

abbrev pub IsWritable : Param → Type 0
IsWritable p = (p.0 ≢ []) × All IsPlain p.0 × (p.1 ≢ []) × All IsKept p.1

abbrev item : Param → Bytes
item p = p.0 ++ b'=' ∷ encode p.1

pop_back-concat : (s : Bytes) (c : ℕ) → pop_back (s ++ c ∷ []) ≡ s
unfolding pop_back
pop_back-concat [] c = refl
pop_back-concat (x ∷ []) c = refl
pop_back-concat (x ∷ y ∷ s) c = ap (◌∷◌ x) (pop_back-concat (y ∷ s) c)

write_params-join :
    (p : Param) (q : QueryParams) → write_params (p ∷ q) ≡ join b'&' (map item (p ∷ q)) ++ b'&' ∷ []
unfolding write_params join
write_params-join p [] = simp append_assoc
write_params-join p (r ∷ q) =
    ap (λ (s : Bytes). p.0 ++ b'=' ∷ (encode p.1 ++ b'&' ∷ s)) (write_params-join r q)
    ∙ simp append_assoc

to_string-join : (q : QueryParams) → to_string q ≡ join b'&' (map item q)
unfolding to_string
to_string-join [] = unfold join in refl
to_string-join (p ∷ q) = ap pop_back (write_params-join p q) ∙ pop_back-concat _ b'&'

encode-Lacks :
    (d : ℕ) (v : Bytes)
    → (is_alnum d || d == b'+' || d == b'%') ≡ false
    → All IsKept v
    → Lacks d (encode v)
encode-Lacks d v h k =
    All-imp _ (λ c u e. cc (rw e at u, h)) (encode-IsUnreserved v (All-imp v (λ c x. x.0) k))

item-Lacks : (p : Param) → All IsPlain p.0 → All IsKept p.1 → Lacks b'&' (item p)
item-Lacks p hk hv =
    All-append (λ x. x ≢ b'&') p.0 (b'=' ∷ encode p.1) (All-imp p.0 (λ x i. i.1) hk)
      (omega arith, encode-Lacks b'&' p.1 refl hv)

item-ne-nil : (k s : Bytes) → k ≢ [] → k ++ s ≢ []
item-ne-nil [] s h = absurd (h refl)
item-ne-nil (c ∷ k) s h = cc

item-IsPart : (p : Param) → IsWritable p → IsPart b'&' (item p)
item-IsPart p h = (item-ne-nil p.0 _ h.0, item-Lacks p h.1 h.3)

encode-IsPart : (v : Bytes) → v ≢ [] → All IsKept v → IsPart b'=' (encode v)
encode-IsPart [] ne h = absurd (ne refl)
encode-IsPart (c ∷ v) ne h = (encode-ne-nil c v h.0.1, encode-Lacks b'=' (c ∷ v) refl h)

kept : (v : Bytes) → All IsKept v → map blank_as_space (c_str v) ≡ v
unfolding c_str
kept [] h = refl
kept (c ∷ v) (hc, h) =
    let e : (c == 0) ≡ false = ground arith in rw (e, hc.2) (ap (◌∷◌ c) (kept v h))

split-item : (p : Param) → IsWritable p → split (item p) b'=' ≡ p.0 ∷ encode p.1 ∷ []
split-item (k, v) (nk, hk, nv, hv) =
    split-append b'=' k (encode v) (nk, All-imp k (λ x i. i.2) hk)
    ∙ ap (◌∷◌ k) (split_one b'=' (encode v) (encode-IsPart v nv hv))

add_pieces-item :
    (p : Param) (acc : QueryParams)
    → IsWritable p
    → add_pieces (split (item p) b'=') acc ≡ some (acc ++ p ∷ [])
unfolding add_pieces
add_pieces-item (k, v) acc (nk, hk, nv, hv) = rw (
  split-item (k, v) (nk, hk, nv, hv),
  decode_verbatim k (All-imp k (λ x i. (i.0, i.3, i.4)) hk),
  decode-encode v (All-imp v (λ c x. x.0) hv),
  kept v hv,
)

parse_items-map :
    (q acc : QueryParams) → All IsWritable q → parse_items (map item q) acc ≡ some (acc ++ q)
unfolding parse_items
parse_items-map [] acc h = rw append-nil
parse_items-map (p ∷ q) acc (hp, h) =
    rw (is_empty_ne (item p) (item-IsPart p hp).0, add_pieces-item p acc hp)
      (parse_items-map q (acc ++ p ∷ []) h ∙ rw append_assoc)

-- Parameters come back from their query string, if their names are not empty and hold no NUL, `&`,
-- `=`, `%` and `+`, and their values are not empty and hold bytes with no NUL and no blank other
-- than a space, \n and \r.
pub parse-to_string : (q : QueryParams) → All IsWritable q → parse (to_string q) ≡ some q
unfolding parse
parse-to_string q h =
    ap (λ (s : Bytes). parse_items (split s b'&') []) (to_string-join q)
    ∙ ap (λ (items : List Bytes). parse_items items []) (split-join b'&' (map item q) (parts q h))
    ∙ parse_items-map q [] h
  where
    parts : (q : QueryParams) → All IsWritable q → All (IsPart b'&') (map item q)
    parts [] h = tt
    parts (p ∷ q) (hp, h) = (item-IsPart p hp, parts q h)
