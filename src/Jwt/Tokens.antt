-- ===== src/Jwt/Tokens.antt =====
-- libraries/repro-web/src/jwt.cpp: what is read from tokens of three parts.
use mathlib.Core.Path.{subst}
use wpp.Prelude.{
  Bytes, ℕ, ◌+◌, ◌%◌, ◌^◌, ◌<◌, ◌≤◌, Bool, true, false, none, some, List, [], ◌∷◌, ◌++◌,
  append_assoc, if◌then◌else◌, codes, str_eq, str_eq_refl, str_eq_iff, ◌↔◌, ltb, length,
  take-length, get_or, ◌==◌, find_last, Lacks, Bool-cases, ◌≡◌, ◌≢◌, refl, sym, ap, ◌∙◌, inl, inr,
  not, arith,
}
use wpp.Text.{split}
use wpp.Text.Split.{IsPart, join, split-join}
use wpp.Jwt.{
  Outside, read_header, read_claim, Jwt, refused, was_accepted, dot, exp_key, check_exp, inspect,
  parse, verify, sign, sign_by, body_of, expire, token,
}

last_missing : (d : ℕ) (s : Bytes) → Lacks d s → find_last (λ c. c == d) s ≡ none
unfolding find_last
last_missing d [] h = refl
last_missing d (c ∷ s) (ne, h) =
    let apart : (c == d) ≡ false = ground arith in rw (last_missing d s h, apart) refl

last_found :
    (d : ℕ) (p s : Bytes) → Lacks d s → find_last (λ c. c == d) (p ++ d ∷ s) ≡ some (length p)
unfolding find_last
last_found d [] s h =
    let same : (d == d) ≡ true = ground arith in rw (last_missing d s h, same) refl
last_found d (c ∷ p) s h = rw (last_found d p s h) refl

-- The object behind a token of three parts.
abbrev pub read :
    {Json Key : Type 0} → Outside Json Key → Bytes → Bytes → Bytes → Json → Json → Jwt Json
read o h c s header claim = record {
  header = header;
  claim = claim;
  signature = o.decode s;
  payload = h ++ dot ∷ c;
}

module _ {Json Key : Type 0} (o : Outside Json Key) (h c s : Bytes) (ph : IsPart dot h)
    (pc : IsPart dot c) (ps : IsPart dot s) where
  three_parts : h ++ dot ∷ (c ++ dot ∷ s) ≡ (h ++ dot ∷ c) ++ dot ∷ s
  three_parts = sym (append_assoc h (dot ∷ c) (dot ∷ s))

  three : split ((h ++ dot ∷ c) ++ dot ∷ s) dot ≡ h ∷ c ∷ s ∷ []
  unfolding join
  three =
      ap (λ (t : Bytes). split t dot) (sym three_parts)
      ∙ split-join dot (h ∷ c ∷ s ∷ []) (ph, (pc, (ps, tt)))

  -- A token of three parts that are not empty, whose first two hold JSON, a claim with a number for
  -- `exp`: `parse` accepts it exactly up to that second. It then holds both values, the third part
  -- decoded, and the text in front of that part; of a token that came too late it keeps all but that
  -- text.
  pub parse_parts :
      (header claim : Json) (exp now : ℕ) (j : Jwt Json)
      → o.parse_json (o.decode h) ≡ some header
      → o.parse_json (o.decode c) ≡ some claim
      → o.int_at exp_key claim ≡ some exp
      → now < 2 ^ 32
      → parse o ((h ++ dot ∷ c) ++ dot ∷ s) now j ≡ (
        not (ltb exp now),
        if ltb exp now
            then record (read o h c s header claim) { payload = j.payload }
            else read o h c s header claim,
      )
  unfolding parse inspect read_header read_claim check_exp
  parse_parts header claim exp now j hh hc he small =
      ap
        (λ (vjwt : List Bytes).
          let (r, j') =
            if length vjwt == 3
            then read_header o (o.parse_json (o.decode (get_or vjwt 0 [])))
                (o.decode (get_or vjwt 1 [])) ((h ++ dot ∷ c) ++ dot ∷ s) now
                (record j { signature = o.decode (get_or vjwt 2 []) })
            else (refused, j) in
          (was_accepted r, j'))
        three
      ∙ rw (hh, hc, check_exp, he, wrapped, last_found dot (h ++ dot ∷ c) s ps.1)
          (elim (Bool-cases (ltb exp now)) [
            | inl late ↦ rw late refl
            | inr early ↦ rw (early, take-length (h ++ dot ∷ c) (dot ∷ s)) refl
          ])
    where
      wrapped : now % 2 ^ 32 ≡ now
      wrapped = omega arith

-- What is documented of Base64Url and JSON, and of a number that a claim is given as its `exp`.
pub record Lawful {Json Key : Type 0} (o : Outside Json Key) : Type 0 where
  pub decode-encode : (x : Bytes) → o.decode (o.encode x) ≡ x
  pub encode-IsPart : (x : Bytes) → x ≢ [] → IsPart dot (o.encode x)
  pub parse-stringify : (v : Json) → o.parse_json (o.stringify v) ≡ some v
  pub stringify-ne : (v : Json) → o.stringify v ≢ []
  pub int_at-put :
      (n : ℕ) (v : Json) → n < 2 ^ 31 → o.int_at exp_key (o.put exp_key (o.number n) v) ≡ some n

module _ {Json Key : Type 0} (o : Outside Json Key) (laws : Lawful o) where
  open laws use {decode-encode, encode-IsPart, parse-stringify, stringify-ne, int_at-put}

  -- What `parse` makes of a token that was signed, of its payload and its signature.
  signed_parts :
      (header claim : Json) (signature : Bytes) (exp now : ℕ) (j : Jwt Json)
      → signature ≢ []
      → o.int_at exp_key claim ≡ some exp
      → now ≤ exp
      → now < 2 ^ 32
      → parse o
          ((o.encode (o.stringify header) ++ dot ∷ o.encode (o.stringify claim))
            ++ dot ∷ o.encode signature)
          now
          j
        ≡ (
          true,
          record {
            header = header;
            claim = claim;
            signature = signature;
            payload = o.encode (o.stringify header) ++ dot ∷ o.encode (o.stringify claim);
          },
        )
  signed_parts header claim signature exp now j ne he intime small =
      let early : ltb exp now ≡ false = ground arith in
      parse_parts o (o.encode (o.stringify header)) (o.encode (o.stringify claim))
        (o.encode signature) (encode-IsPart (o.stringify header) (stringify-ne header))
        (encode-IsPart (o.stringify claim) (stringify-ne claim)) (encode-IsPart signature ne) header
        claim exp now j
        (ap o.parse_json (decode-encode (o.stringify header)) ∙ parse-stringify header)
        (ap o.parse_json (decode-encode (o.stringify claim)) ∙ parse-stringify claim) he small
      ∙ rw (early, decode-encode signature) refl

  -- What is signed.
  abbrev alg_header : Jwt Json → Json
  alg_header j = o.put (codes "alg") (o.text (codes "HS256")) j.header

  abbrev exp_claim : ℕ → Jwt Json → Json
  exp_claim n j = o.put exp_key (o.number (n % 2 ^ 64)) j.claim

  abbrev text_of : ℕ → Jwt Json → Bytes
  text_of n j =
      o.encode (o.stringify (alg_header j)) ++ dot ∷ o.encode (o.stringify (exp_claim n j))

  -- A token that `sign` made is accepted by `parse` of any object up to the second in which it
  -- expires, and the object then has the header and the claim that were signed, with the algorithm and
  -- the expiry set in them, and `verify` with the same secret holds. The HMAC must not be empty, and
  -- the second of expiry be below 2 ^ 31.
  pub parse-sign :
      (secret : Bytes) (start expires_s now : ℕ) (j k : Jwt Json)
      → ((t : Bytes) → o.hmac secret t ≢ [])
      → start + expires_s < 2 ^ 31
      → now ≤ start + expires_s
      → let (signed, tok) = sign o secret start expires_s j in
        ((parse o tok now k).0 ≡ true)
        × ((parse o tok now k).1.header ≡ o.put (codes "alg") (o.text (codes "HS256")) j.header)
        × ((parse o tok now k).1.claim ≡ o.put exp_key (o.number (start + expires_s)) j.claim)
        × (verify o secret (parse o tok now k).1 ≡ true)
  unfolding sign sign_by body_of expire token verify
  parse-sign secret start expires_s now j k ne small intime = (
    ap (λ p. p.0) parsed,
    ap (λ p. p.1.header) parsed,
    ap (λ p. p.1.claim) parsed ∙ ap (λ (n : ℕ). o.put exp_key (o.number n) j.claim) wrapped,
    ap (λ p. verify o secret p.1) parsed
        ∙ str_eq_refl (o.hmac secret (text_of (start + expires_s) j)),
  )
    where
      wrapped : (start + expires_s) % 2 ^ 64 ≡ start + expires_s
      wrapped = omega arith

      parsed : parse o (sign o secret start expires_s j).1 now k ≡ (
        true,
        record {
          header = alg_header j;
          claim = exp_claim (start + expires_s) j;
          signature = o.hmac secret (text_of (start + expires_s) j);
          payload = text_of (start + expires_s) j;
        },
      )
      parsed =
          signed_parts (alg_header j) (exp_claim (start + expires_s) j)
            (o.hmac secret (text_of (start + expires_s) j)) ((start + expires_s) % 2 ^ 64) now k
            (ne (text_of (start + expires_s) j))
            (int_at-put ((start + expires_s) % 2 ^ 64) j.claim (omega arith)) (omega arith)
            (omega arith)

  -- A token with two parts of anybody's, which hold JSON and have not expired, and a third one that
  -- was made of another text: it is accepted by `parse`, and by `verify` exactly if both texts have
  -- the same HMAC.
  pub verify_forged :
      (secret body h c : Bytes) (header claim : Json) (exp now : ℕ) (k : Jwt Json)
      → IsPart dot h
      → IsPart dot c
      → o.hmac secret body ≢ []
      → o.parse_json (o.decode h) ≡ some header
      → o.parse_json (o.decode c) ≡ some claim
      → o.int_at exp_key claim ≡ some exp
      → now ≤ exp
      → now < 2 ^ 32
      → let (r, j) = parse o ((h ++ dot ∷ c) ++ dot ∷ o.encode (o.hmac secret body)) now k in
        (r ≡ true)
        × ((verify o secret j ≡ true) ↔ (o.hmac secret (h ++ dot ∷ c) ≡ o.hmac secret body))
  unfolding verify
  verify_forged secret body h c header claim exp now k ph pc ne hh hc he intime small =
      let early : ltb exp now ≡ false = ground arith in
      let parsed : parse o ((h ++ dot ∷ c) ++ dot ∷ o.encode (o.hmac secret body)) now k
          ≡ (true, read o h c (o.encode (o.hmac secret body)) header claim) =
        parse_parts o h c (o.encode (o.hmac secret body)) ph pc
          (encode-IsPart (o.hmac secret body) ne) header claim exp now k hh hc he small
        ∙ rw early refl in
      (
        ap (λ p. p.0) parsed,
        subst (λ (b : Bool). (b ≡ true) ↔ (o.hmac secret (h ++ dot ∷ c) ≡ o.hmac secret body))
            (sym (
              ap (λ p. verify o secret p.1) parsed
              ∙ ap (str_eq (o.hmac secret (h ++ dot ∷ c))) (decode-encode (o.hmac secret body))))
            (str_eq_iff (o.hmac secret (h ++ dot ∷ c)) (o.hmac secret body)),
      )
