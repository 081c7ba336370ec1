-- ===== src/Jwt.antt =====
-- libraries/repro-web/src/jwt.cpp: class `JWT`. Base64Url, the HMAC and the signatures of cryptoneat and
-- the values and texts of JSON are parameters; `now` is what `time(NULL)` gives.
pub mod Tokens
use wpp.Prelude.{
  Bytes, ℕ, ◌+◌, ◌%◌, ◌^◌, Bool, true, false, Option, none, some, List, [], ◌∷◌, ◌++◌,
  if◌then◌else◌, codes, str_eq, ltb, length, take, get_or, ◌==◌, find_last,
}
use wpp.Text.{split}

-- `int_at key j` is `j.get(key,0).asInt()` as 32 bits, or `none` where it throws; `parse_json` gives
-- `none` for a `ParseEx`.
pub record Outside (Json Key : Type 0) : Type 0 where
  pub encode : Bytes → Bytes
  pub decode : Bytes → Bytes
  pub hmac : Bytes → Bytes → Bytes
  pub key_sign : Key → Bytes → Bytes
  pub key_verify : Key → Bytes → Bytes → Bool
  pub stringify : Json → Bytes
  pub parse_json : Bytes → Option Json
  pub object : Json
  pub text : Bytes → Json
  pub number : ℕ → Json
  pub put : Bytes → Json → Json → Json
  pub int_at : Bytes → Json → Option ℕ

pub record Jwt (Json : Type 0) : Type 0 where
  pub header : Json
  pub claim : Json
  pub signature : Bytes
  pub payload : Bytes

-- What `inspect` does: throw, give npos, or give a position.
pub data Inspected : Type 0 where
  threw : Inspected
  refused : Inspected
  accepted : ℕ → Inspected

abbrev pub was_accepted : Inspected → Bool
was_accepted (accepted n) = true
was_accepted _ = false

abbrev pub dot : ℕ
dot = b'.'

abbrev pub exp_key : Bytes
exp_key = codes "exp"

module _ {Json Key : Type 0} (o : Outside Json Key) where
  -- `JWT(claim)`.
  unfoldable pub of_claim : Json → Jwt Json
  of_claim c = record {
    header = o.put (codes "typ") (o.text (codes "JWT")) o.object;
    claim = c;
    signature = [];
    payload = [];
  }

  -- `payload()`.
  unfoldable pub body_of : Jwt Json → Bytes
  body_of j = o.encode (o.stringify j.header) ++ dot ∷ o.encode (o.stringify j.claim)

  unfoldable pub expire : ℕ → ℕ → Jwt Json → Jwt Json
  expire now expires_s j = record j {
    claim = o.put exp_key (o.number ((now + expires_s) % 2 ^ 64)) j.claim;
  }

  unfoldable pub token : Bytes → Jwt Json → Bytes
  token body j = body ++ dot ∷ o.encode j.signature

  -- `sign` with the name of an algorithm and what it makes of a text.
  unfoldable pub sign_by : Bytes → (Bytes → Bytes) → ℕ → ℕ → Jwt Json → Jwt Json × Bytes
  unfolding body_of expire token
  sign_by alg signer now expires_s j =
      let j1 =
        expire now expires_s (record j { header = o.put (codes "alg") (o.text alg) j.header }) in
      let j2 = record j1 { signature = signer (body_of j1) } in (j2, token (body_of j1) j2)

  -- `sign(secret,expires_s)` and `sign(privkey,expires_s)`: the object and the token.
  unfoldable pub sign : Bytes → ℕ → ℕ → Jwt Json → Jwt Json × Bytes
  unfolding sign_by
  sign secret = sign_by (codes "HS256") (o.hmac secret)

  unfoldable pub sign_key : Key → ℕ → ℕ → Jwt Json → Jwt Json × Bytes
  unfolding sign_by
  sign_key key = sign_by (codes "RS256") (o.key_sign key)

  -- `inspect` behind the JSON of both parts: the time, as an `unsigned int`, and the payload.
  unfoldable pub check_exp : Bytes → ℕ → Jwt Json → Inspected × Jwt Json
  unfolding find_last
  check_exp tok now j = elim (o.int_at exp_key j.claim) [
    | none ↦ (threw, j)
    | some exp ↦
        if ltb exp (now % 2 ^ 32) then (refused, j) else elim (find_last (λ c. c == dot) tok) [
          | some pos ↦ (accepted pos, record j { payload = take pos tok })
          | none ↦ (refused, record j { payload = tok })
        ]
  ]

  unfoldable pub read_claim : Option Json → Bytes → ℕ → Jwt Json → Inspected × Jwt Json
  unfolding check_exp
  read_claim none tok now j = (refused, j)
  read_claim (some c) tok now j = check_exp tok now (record j { claim = c })

  unfoldable pub read_header : Option Json → Bytes → Bytes → ℕ → Jwt Json → Inspected × Jwt Json
  unfolding read_claim
  read_header none claim_text tok now j = (refused, j)
  read_header (some h) claim_text tok now j =
      read_claim (o.parse_json claim_text) tok now (record j { header = h })

  -- `inspect(token)`.
  unfoldable pub inspect : Bytes → ℕ → Jwt Json → Inspected × Jwt Json
  unfolding read_header split
  inspect tok now j =
      let vjwt = split tok dot in
      if length vjwt == 3
      then read_header (o.parse_json (o.decode (get_or vjwt 0 []))) (o.decode (get_or vjwt 1 []))
          tok now (record j { signature = o.decode (get_or vjwt 2 []) })
      else (refused, j)

  -- `parse(token)`, where it does not throw.
  unfoldable pub parse : Bytes → ℕ → Jwt Json → Bool × Jwt Json
  unfolding inspect
  parse tok now j = let (r, j') = inspect tok now j in (was_accepted r, j')

  -- `verify(secret)` and `verify(pubkey)`.
  unfoldable pub verify : Bytes → Jwt Json → Bool
  unfolding str_eq
  verify secret j = str_eq (o.hmac secret j.payload) j.signature

  unfoldable pub verify_key : Key → Jwt Json → Bool
  verify_key key j = o.key_verify key j.payload j.signature
