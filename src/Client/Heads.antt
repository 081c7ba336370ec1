-- ===== src/Client/Heads.antt =====
-- libraries/prio-http/src/client_conversation.cpp: the read in which the head of a response ends.
use wpp.Prelude.{
  Bytes, ℕ, ◌+◌, ◌-◌, ◌<◌, ◌≤◌, true, false, Option, none, some, List, [], ◌∷◌, ◌++◌, length,
  length-append, append-nil, take, take-append, drop, drop_all, drop-append, take_all, find_str,
  ltb, leb, ◌==◌, ◌⊎◌, inl, inr, ◌≡◌, refl, sym, ap, ◌∙◌, arith, Bool-cases,
}
use wpp.Prelude.Cuts.{length-drop}
use wpp.Reader.{HeaderReader, Next, more, complete, header_end, new_header_reader, consume_at}
use wpp.Response.{Response}
use wpp.Client.{
  undefined, heading, Cut, waiting, whole, append_from, cut_body, cut_at, consume_headers, hear,
  hear_at,
}

-- The read in which the head ends holds all of it, or nothing behind it.
abbrev pub EndIsSafe : Option ℕ → Bytes → Bytes → Type 0 → Type 0
EndIsSafe none old s Later = Later
EndIsSafe (some pos) old s Later = (old ≡ []) ⊎ (length (old ++ s) ≡ pos + 4)

unfoldable pub HeadIsSafe : Bytes → List Bytes → Type 0
HeadIsSafe old [] = Unit
HeadIsSafe old (s ∷ reads) =
    EndIsSafe (find_str header_end (old ++ s)) old s (HeadIsSafe (old ++ s) reads)

-- What the reader of a server makes of the same streams.
abbrev pub cut_of : Next HeaderReader → Cut
cut_of (more reader) = waiting reader
cut_of (complete reader) = whole reader

append_whole : (s : Bytes) (n : ℕ) → append_from s n (length s - n) ≡ some (drop n s)
unfolding append_from
append_whole s n = elim (Bool-cases (length s - n == 0)) [
  | inl e ↦ rw e (ap some (sym (drop_all n s (ground arith))))
  | inr e ↦
      let inside : leb (n + (length s - n)) (length s + 1) ≡ true = ground arith in
      rw (e, inside, drop-append n s (0 ∷ []) (ground arith))
        (ap some (
          take-append (length s - n) (drop n s) (0 ∷ []) (omega (arith, length-drop n s))
          ∙ ap (λ (k : ℕ). take k (drop n s)) (sym (length-drop n s))
          ∙ take_all (drop n s)))
]

append_nothing : (s : Bytes) (n len : ℕ) → len ≡ 0 → append_from s n len ≡ some []
unfolding append_from
append_nothing s n len e = rw e refl

-- The streams at the end of the headers, where all that follows it is kept.
abbrev pub both_streams : ℕ → HeaderReader → HeaderReader
both_streams pos reader = record {
  headers_stream = take pos reader.headers_stream;
  body_stream = reader.body_stream ++ drop (pos + 4) reader.headers_stream;
}

pub consume_at_lem :
    (pos : ℕ) (reader : HeaderReader)
    → consume_at (some pos) reader ≡ complete (both_streams pos reader)
unfolding consume_at
consume_at_lem pos reader = elim (Bool-cases (ltb 0 (length reader.headers_stream - (4 + pos)))) [
  | inl e ↦ rw (consume_at, e) refl
  | inr e ↦
      rw (consume_at, e, drop_all (pos + 4) reader.headers_stream (ground arith))
        (ap
          (λ (b : Bytes).
            complete (record { headers_stream = take pos reader.headers_stream; body_stream = b }))
          (sym (append-nil reader.body_stream)))
]

rest_kept :
    (pos : ℕ) (old s : Bytes)
    → (old ≡ []) ⊎ (length (old ++ s) ≡ pos + 4)
    → append_from s (pos + 4) (length (old ++ s) - (4 + pos)) ≡ some (drop (pos + 4) (old ++ s))
rest_kept pos [] s (inl e) =
    ap (append_from s (pos + 4)) {x = length s - (4 + pos)} {y = length s - (pos + 4)} (omega arith)
    ∙ append_whole s (pos + 4)
rest_kept pos (x ∷ old) s (inl e) = absurd cc
rest_kept pos old s (inr e) =
    append_nothing s (pos + 4) (length (old ++ s) - (4 + pos)) (omega arith)
    ∙ ap some (sym (drop_all (pos + 4) (old ++ s) (omega arith)))

-- Where its reads are safe, a client cuts the streams as a server does.
pub cut_safe :
    (o : Option ℕ) (old s body : Bytes) (Later : Type 0)
    → EndIsSafe o old s Later
    → cut_at o s (record { headers_stream = old ++ s; body_stream = body })
      ≡ cut_of (consume_at o (record { headers_stream = old ++ s; body_stream = body }))
unfolding cut_at cut_body consume_at
cut_safe none old s body Later safe = refl
cut_safe (some pos) old s body Later safe =
    rw (cut_at, rest_kept pos old s safe)
      (ap cut_of
        (sym (consume_at_lem pos (record { headers_stream = old ++ s; body_stream = body }))))

append_beyond :
    (s : Bytes) (n len : ℕ) → 0 < len → length s + 1 < n + len → append_from s n len ≡ none
unfolding append_from
append_beyond s n len positive long =
    let some_bytes : (len == 0) ≡ false = ground arith in
    let far : leb (n + len) (length s + 1) ≡ false = ground arith in rw (some_bytes, far) refl

-- A head that comes in two reads, the first of two bytes at least, where bytes of the body come with
-- the second: the client reads behind the end of the second read. This is undefined behaviour.
pub hear_split_head :
    (inflate : Bytes → Option Bytes) (a b : Bytes) (pos : ℕ) (more_reads : List Bytes)
    (r : Response)
    → find_str header_end a ≡ none
    → find_str header_end (a ++ b) ≡ some pos
    → 2 ≤ length a
    → pos + 4 < length (a ++ b)
    → hear inflate (a ∷ b ∷ more_reads) (record { response = r; stage = heading new_header_reader })
      ≡ undefined
unfolding hear hear_at consume_headers cut_at cut_body
hear_split_head inflate a b pos more_reads r first second long behind =
    rw
      (
        hear,
        hear_at,
        first,
        consume_headers,
        second,
        append_beyond b (pos + 4) (length (a ++ b) - (4 + pos)) (omega arith)
            (omega (arith, length-append {0} a b)),
      )
      refl
