-- ===== src/UrlEncode/RoundTrip.antt =====
-- libraries/prio-http/src/urlencode.cpp: `decode` on what `encode` writes, and the length of that.
use mathlib.Core.Option
use mathlib.Core.List.{concat-ne-nil}
use wpp.Prelude.{
  Bytes, ℕ, ◌+◌, ◌-◌, ◌*◌, ◌/◌, ◌%◌, ◌<◌, ◌≤◌, ◌≢◌, Bool, true, not, ◌&&◌, some, [], ◌∷◌, ◌++◌, ◌≡◌,
  refl, ap, ◌∙◌, arith, append_assoc, All, IsByte, ◌==◌, ==_iff, all_below, all_below_sound,
  if◌then◌else◌, is_space, is_alnum, map, c_str, length, length-append, Bool-cases, inl, inr,
}
use wpp.UrlEncode.{c2x, x2c, encode_char, encode, decode_loop, decode}

-- What a byte comes back as: `encode` writes each blank but \n and \r as `+`.
unfoldable pub blank_as_space : ℕ → ℕ
blank_as_space c = if is_space c && not (c == b'\n') && not (c == b'\r') then 32 else c

x2c_table : all_below 256 (λ c. x2c (c2x (c / 16)) (c2x (c % 16)) == c) ≡ true
unfolding all_below x2c c2x
x2c_table = refl

x2c-c2x : (c : ℕ) → c < 256 → x2c (c2x (c / 16)) (c2x (c % 16)) ≡ c
x2c-c2x c h = (==_iff _ c).0 (all_below_sound 256 _ c x2c_table h)

pub decode_loop_plain :
    (c d : ℕ) (s : Bytes)
    → c ≢ 0
    → c ≢ b'%'
    → decode_loop (c ∷ d ∷ s)
      ≡ Option.map (λ out. (if c == b'+' then 32 else c) ∷ out) (decode_loop (d ∷ s))
unfolding decode_loop
decode_loop_plain c d [] h k = ground arith
decode_loop_plain c d (e ∷ s) h k = ground arith

pub decode_loop_hex :
    (hi lo : ℕ) (s : Bytes)
    → decode_loop (b'%' ∷ hi ∷ lo ∷ s) ≡ Option.map (λ out. x2c hi lo ∷ out) (decode_loop s)
unfolding decode_loop
decode_loop_hex hi lo s = refl

-- The three ways in which `encode` writes a byte.
data Encoded (c : ℕ) : Type 0 where
  plain : encode_char c ≡ c ∷ [] → c ≢ b'%' → c ≢ b'+' → blank_as_space c ≡ c → Encoded c
  blank : encode_char c ≡ b'+' ∷ [] → blank_as_space c ≡ 32 → Encoded c
  hex : encode_char c ≡ b'%' ∷ c2x (c / 16) ∷ c2x (c % 16) ∷ [] → blank_as_space c ≡ c → Encoded c

abbrev pub is_plus : ℕ → Bool
is_plus c = is_space c && not (c == b'\n') && not (c == b'\r')

encode_char-Encoded : (c : ℕ) → Encoded c
unfolding encode_char blank_as_space
encode_char-Encoded c = elim (Bool-cases (is_alnum c)) [
  | inl e ↦ plain (ground arith) (ground arith) (ground arith) (ground arith)
  | inr e ↦ elim (Bool-cases (is_plus c)) [
    | inl b ↦ blank (ground arith) (ground arith)
    | inr b ↦ hex (ground arith) (ground arith)
  ]
]

not_plus : (c : ℕ) → c ≢ b'+' → (if c == b'+' then 32 else c) ≡ c
not_plus c h = ground arith

decode_plain :
    (c d : ℕ) (s : Bytes)
    → c ≢ 0
    → c ≢ b'%'
    → c ≢ b'+'
    → decode_loop (c ∷ d ∷ s) ≡ Option.map (λ out. c ∷ out) (decode_loop (d ∷ s))
decode_plain c d s ne k l =
    decode_loop_plain c d s ne k
    ∙ ap (λ (x : ℕ). Option.map (λ out. x ∷ out) (decode_loop (d ∷ s))) (not_plus c l)

decode_plus :
    (d : ℕ) (s : Bytes)
    → decode_loop (b'+' ∷ d ∷ s) ≡ Option.map (λ out. 32 ∷ out) (decode_loop (d ∷ s))
decode_plus d s = decode_loop_plain b'+' d s (cc) (cc)

decode_hex :
    (c d : ℕ) (s : Bytes)
    → c < 256
    → decode_loop (b'%' ∷ c2x (c / 16) ∷ c2x (c % 16) ∷ d ∷ s)
      ≡ Option.map (λ out. c ∷ out) (decode_loop (d ∷ s))
decode_hex c d s h =
    decode_loop_hex (c2x (c / 16)) (c2x (c % 16)) (d ∷ s)
    ∙ ap (λ (x : ℕ). Option.map (λ out. x ∷ out) (decode_loop (d ∷ s))) (x2c-c2x c h)

decode_loop-Encoded :
    (c d : ℕ) (s : Bytes)
    → c < 256
    → c ≢ 0
    → Encoded c
    → decode_loop (encode_char c ++ d ∷ s)
      ≡ Option.map (λ out. blank_as_space c ∷ out) (decode_loop (d ∷ s))
decode_loop-Encoded c d s h ne (plain e k l b) = rw (e, b) (decode_plain c d s ne k l)
decode_loop-Encoded c d s h ne (blank e b) = rw (e, b) (decode_plus d s)
decode_loop-Encoded c d s h ne (hex e b) = rw (e, b) (decode_hex c d s h)

decode_loop-encode_char :
    (c : ℕ) (r : Bytes)
    → c < 256
    → c ≢ 0
    → r ≢ []
    → decode_loop (encode_char c ++ r) ≡ Option.map (λ out. blank_as_space c ∷ out) (decode_loop r)
decode_loop-encode_char c [] h ne full = absurd (full refl)
decode_loop-encode_char c (d ∷ r) h ne full = decode_loop-Encoded c d r h ne (encode_char-Encoded c)

-- Decoding encoded text gives the text up to its first NUL, with each blank that is neither \n nor
-- \r as a space. In particular it never reads behind its input.
pub decode-encode :
    (s : Bytes) → All IsByte s → decode (encode s) ≡ some (map blank_as_space (c_str s))
unfolding decode encode c_str
decode-encode [] h = unfold decode_loop in refl
decode-encode (c ∷ s) (hc, h) = elim (Bool-cases (c == 0)) [
  | inl e ↦ rw e (unfold decode_loop in refl)
  | inr e ↦
      rw (e, append_assoc)
        (decode_loop-encode_char c (encode s ++ 0 ∷ []) hc (ground arith)
            (concat-ne-nil 0 (encode s))
          ∙ ap (Option.map (λ out. blank_as_space c ∷ out)) (decode-encode s h))
]

encode_char_le : (c : ℕ) → length (encode_char c) ≤ 3
encode_char_le c = elim (encode_char-Encoded c) [
  | plain e _ _ _ ↦ rw e (omega arith)
  | blank e _ ↦ rw e (omega arith)
  | hex e _ ↦ rw e (omega arith)
]

-- With its NUL the output of `encode` fits the buffer of 3 (n + 1) - 2 bytes.
pub length-encode : (s : Bytes) → length (encode s) + 1 ≤ (length s + 1) * 3 - 2
unfolding encode
length-encode [] = omega arith
length-encode (c ∷ s) = elim (Bool-cases (c == 0)) [
  | inl e ↦ rw e (omega arith)
  | inr e ↦
      rw (e, length-append (encode_char c) (encode s))
        (omega (arith, length-encode s, encode_char_le c))
]

decode_loop_verbatim :
    (c : ℕ) (r : Bytes)
    → c ≢ 0
    → c ≢ b'%'
    → c ≢ b'+'
    → r ≢ []
    → decode_loop (c ∷ r) ≡ Option.map (λ out. c ∷ out) (decode_loop r)
decode_loop_verbatim c [] h k l full = absurd (full refl)
decode_loop_verbatim c (d ∷ r) h k l full = decode_plain c d r h k l

-- Text with no NUL, `%` or `+` is decoded to itself.
pub decode_verbatim :
    (s : Bytes) → All (λ c. (c ≢ 0) × (c ≢ b'%') × (c ≢ b'+')) s → decode s ≡ some s
unfolding decode
decode_verbatim [] h = unfold decode_loop in refl
decode_verbatim (c ∷ s) (hc, h) =
    decode_loop_verbatim c (s ++ 0 ∷ []) hc.0 hc.1 hc.2 (concat-ne-nil 0 s)
    ∙ ap (Option.map (λ out. c ∷ out)) (decode_verbatim s h)
