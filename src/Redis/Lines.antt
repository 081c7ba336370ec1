-- ===== src/Redis/Lines.antt =====
-- Lines and bulk strings that a reply has in front, in any chunks of the connection
-- (libraries/repro-redis/src/redis.cpp).
use wpp.Prelude.{
  Bytes, ℕ, ◌+◌, ◌-◌, ◌^◌, ◌≤◌, ◌<◌, true, false, some, List, [], ◌∷◌, ◌++◌, append_assoc,
  append-nil, length, length-append, take, drop, substr, find_str, starts_with, find_str-bound,
  find_str-append, take-append, drop-append, take-length, drop-length, Lacks, leb, ◌==◌, Bool-cases,
  Option-cases, ◌≡◌, refl, sym, ap, ◌∙◌, inl, inr, arith,
}
use wpp.Redis.{
  Input, Parse, resolved, rejected, fault, out_of_fuel, crlf, line_from, bulk, with_end, bulk_from,
}
use wpp.Prelude.Cuts.{drop-drop, length-drop}
use mathlib.Core.List.{flatten}

-- What a parser has not consumed yet.
abbrev pub stream : Input → Bytes
stream i = drop i.pos i.buffer ++ flatten i.incoming

abbrev pub IsInput : Input → Type 0
IsInput i = i.pos ≤ length i.buffer

-- A promise that is resolved with `a`, `rest` being left.
abbrev pub Gives : {A : Type 0} → Parse A → A → Bytes → Type 0
Gives (resolved b j) a rest = (b ≡ a) × (IsInput j × (stream j ≡ rest))
Gives rejected a rest = ⊥
Gives fault a rest = ⊥
Gives out_of_fuel a rest = ⊥

pub find_crlf :
    (line rest : Bytes)
    → Lacks b'\r' line
    → find_str crlf (line ++ (crlf ++ rest)) ≡ some (length line)
unfolding find_str starts_with
find_crlf [] rest h = refl
find_crlf (c ∷ line) rest (hc, h) =
    let e : (b'\r' == c) ≡ false = ground arith in rw (e, find_crlf line rest h) refl

-- A piece in front of `crlf` that the buffer holds whole.
module _ (buffer : Bytes) (start : ℕ) (more q rest : Bytes) (inside : start ≤ length buffer)
    (eq : drop start buffer ++ more ≡ q ++ (crlf ++ rest))
    (whole : length q + 2 ≤ length buffer - start) where
  substr-piece : substr buffer start (length q) ≡ q
  substr-piece =
      sym
        (take-append (length q) (drop start buffer) more (omega (arith, length-drop start buffer)))
      ∙ ap (take (length q)) eq
      ∙ take-length q (crlf ++ rest)

  drop-piece : drop (start + (length q + 2)) buffer ++ more ≡ rest
  drop-piece =
      ap (λ (s : Bytes). s ++ more) (drop-drop start (length q + 2) buffer)
      ∙ sym (
          drop-append (length q + 2) (drop start buffer) more
            (omega (arith, length-drop start buffer)))
      ∙ ap (drop (length q + 2)) eq
      ∙ drop-drop (length q) 2 (q ++ (crlf ++ rest))
      ∙ ap (drop 2) (drop-length q (crlf ++ rest))

-- A chunk that is appended is the front of what was to come.
pub later :
    (buffer s : Bytes) (ss : List Bytes) (start : ℕ) {all : Bytes}
    → start ≤ length buffer
    → drop start buffer ++ flatten (s ∷ ss) ≡ all
    → drop start (buffer ++ s) ++ flatten ss ≡ all
unfolding flatten
later buffer s ss start inside e =
    ap (λ (t : Bytes). t ++ flatten ss) (drop-append start buffer s inside)
    ∙ append_assoc (drop start buffer) s (flatten ss)
    ∙ e

found_is :
    (tail more line rest : Bytes)
    → Lacks b'\r' line
    → tail ++ more ≡ line ++ (crlf ++ rest)
    → (i : ℕ) → find_str crlf tail ≡ some i
    → i ≡ length line
found_is tail more line rest h e i f =
    let k : some i ≡ some (length line) =
      sym (find_str-append crlf tail more i f) ∙ ap (find_str crlf) e ∙ find_crlf line rest h in
    cc

-- The line that is found at `start`.
found-Gives :
    (line rest : Bytes)
    → Lacks b'\r' line
    → (chunks : List Bytes) (buffer : Bytes) (start i : ℕ) → start ≤ length buffer
    → drop start buffer ++ flatten chunks ≡ line ++ (crlf ++ rest)
    → find_str crlf (drop start buffer) ≡ some i
    → Gives
        (resolved
          (substr buffer start i)
          (record { buffer = buffer; pos = start + (i + 2); incoming = chunks }))
        line
        rest
found-Gives line rest h chunks buffer start i inside e f =
    let k : i ≡ length line = found_is (drop start buffer) (flatten chunks) line rest h e i f in
    let bound : length line + 2 ≤ length buffer - start =
      omega (arith, find_str-bound crlf (drop start buffer) i f, length-drop start buffer) in
    (
      ap (substr buffer start) k
          ∙ substr-piece buffer start (flatten chunks) line rest inside e bound,
      (
        omega arith,
        ap (λ (n : ℕ). drop (start + (n + 2)) buffer ++ flatten chunks) k
            ∙ drop-piece buffer start (flatten chunks) line rest inside e bound,
      ),
    )

pub line_from-Gives :
    (line rest : Bytes)
    → Lacks b'\r' line
    → (chunks : List Bytes) (buffer : Bytes) (start : ℕ) → start ≤ length buffer
    → drop start buffer ++ flatten chunks ≡ line ++ (crlf ++ rest)
    → Gives (line_from chunks buffer start) line rest
unfolding line_from flatten
line_from-Gives line rest h [] buffer start inside e =
    elim (Option-cases (find_str crlf (drop start buffer))) [
      | inl f ↦
          let k : find_str crlf (drop start buffer) ≡ some (length line) =
            ap (find_str crlf) (sym (append-nil (drop start buffer)) ∙ e) ∙ find_crlf line rest h in
          let no : ⊥ = cc in absurd no
      | inr (i, f) ↦ rw (Gives, f) (found-Gives line rest h [] buffer start i inside e f)
    ]
line_from-Gives line rest h (s ∷ ss) buffer start inside e =
    elim (Option-cases (find_str crlf (drop start buffer))) [
      | inl f ↦
          rw (Gives, f)
            (line_from-Gives line rest h ss (buffer ++ s) start
              (omega (arith, length-append {0} buffer s)) (later buffer s ss start inside e))
      | inr (i, f) ↦ rw (Gives, f) (found-Gives line rest h (s ∷ ss) buffer start i inside e f)
    ]

-- A bulk string of `size` bytes.
bulk-Gives :
    (q rest : Bytes)
    → length q + 2 < 2 ^ 64
    → (chunks : List Bytes) (buffer : Bytes) (start : ℕ) → start ≤ length buffer
    → drop start buffer ++ flatten chunks ≡ q ++ (crlf ++ rest)
    → leb (with_end (length q)) (length buffer - start) ≡ true
    → Gives
        (resolved
          (bulk (length q) (substr buffer start (length q)))
          (record { buffer = buffer; pos = start + with_end (length q); incoming = chunks }))
        (bulk (length q) q)
        rest
bulk-Gives q rest small chunks buffer start inside e f =
    let w : with_end (length q) ≡ length q + 2 = omega arith in
    let bound : length q + 2 ≤ length buffer - start = ground arith in
    (
      ap (bulk (length q)) (substr-piece buffer start (flatten chunks) q rest inside e bound),
      (
        omega arith,
        ap (λ (n : ℕ). drop (start + n) buffer ++ flatten chunks) w
            ∙ drop-piece buffer start (flatten chunks) q rest inside e bound,
      ),
    )

pub bulk_from-Gives :
    (q rest : Bytes)
    → length q + 2 < 2 ^ 64
    → (chunks : List Bytes) (buffer : Bytes) (start : ℕ) → start ≤ length buffer
    → drop start buffer ++ flatten chunks ≡ q ++ (crlf ++ rest)
    → Gives (bulk_from (length q) chunks buffer start) (bulk (length q) q) rest
unfolding bulk_from flatten
bulk_from-Gives q rest small [] buffer start inside e =
    elim (Bool-cases (leb (with_end (length q)) (length buffer - start))) [
      | inl f ↦ rw (Gives, f) (bulk-Gives q rest small [] buffer start inside e f)
      | inr f ↦
          let k : length (drop start buffer) ≡ length (q ++ (crlf ++ rest)) =
            ap length (sym (append-nil (drop start buffer)) ∙ e) in
          let no : ⊥ =
            ground (arith, length-drop start buffer, length-append {0} q (crlf ++ rest)) in
          absurd no
    ]
bulk_from-Gives q rest small (s ∷ ss) buffer start inside e =
    elim (Bool-cases (leb (with_end (length q)) (length buffer - start))) [
      | inl f ↦ rw (Gives, f) (bulk-Gives q rest small (s ∷ ss) buffer start inside e f)
      | inr f ↦
          rw (Gives, f)
            (bulk_from-Gives q rest small ss (buffer ++ s) start
              (omega (arith, length-append {0} buffer s)) (later buffer s ss start inside e))
    ]
