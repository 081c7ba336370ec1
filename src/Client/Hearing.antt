-- ===== src/Client/Hearing.antt =====
-- libraries/prio-http/src/client_conversation.cpp: the reads of a client up to the end of
-- the headers, and of a body with a length.
use mathlib.Core.List.{flatten}
use mathlib.Core.Path.{subst}
use mathlib.Core.Option.{some-injective}
use wpp.Prelude.{
  Bytes, ℕ, suc, ◌<◌, ◌≤◌, true, false, Option, some, List, [], ◌∷◌, ◌++◌, ltb, leb, length,
  append_assoc, take, take_all, take-append, length-take_le, append-nil, find_str, Bool-cases,
  Option-cases, ◌≡◌, refl, sym, ap, ◌∙◌, inl, inr, arith,
}
use wpp.Reader
use wpp.Reader.{
  HeaderReader, BodyReader, Next, more, complete, header_end, new_header_reader, consume_at, feed,
}
use wpp.Response.{Response, set_body}
use wpp.Client.{
  Turn, Cut, waiting, whole, cut_at, resolved, rejected, reading, heading, sized, waits, finished,
  consume_sized, turn_of, parse_headers, parsed, threw, is_interim, on_headers_complete,
  consume_headers, hear, hear_at, follow,
}
use wpp.Client.Heads.{EndIsSafe, HeadIsSafe, cut_of, cut_safe, both_streams, consume_at_lem}
use wpp.Client.Chunks.{plain}

-- What is fed behind a call that ends.
abbrev headed : Next HeaderReader → List Bytes → Option (HeaderReader × List Bytes)
headed (more reader) chunks = feed Reader.consume_headers chunks reader
headed (complete reader) chunks = some (reader, chunks)

module _ (inflate : Bytes → Option Bytes) where
  pub consume_more :
      (fuel : ℕ) (reader : HeaderReader) (r : Response)
      → consume_headers inflate (suc fuel) (waiting reader) r
        ≡ reading (record { response = r; stage = heading reader })
  unfolding consume_headers
  consume_more fuel reader r = refl

  pub consume_complete :
      (fuel : ℕ) (reader : HeaderReader) (r r' : Response)
      → parse_headers reader.headers_stream r ≡ parsed r'
      → is_interim r' ≡ false
      → consume_headers inflate (suc fuel) (whole reader) r
        ≡ on_headers_complete inflate reader.body_stream r'
  unfolding consume_headers
  consume_complete fuel reader r r' e i = rw (consume_headers, e, i) refl

  pub consume_thrown :
      (fuel : ℕ) (reader : HeaderReader) (r : Response)
      → parse_headers reader.headers_stream r ≡ threw
      → consume_headers inflate (suc fuel) (whole reader) r ≡ rejected
  unfolding consume_headers
  consume_thrown fuel reader r e = rw (consume_headers, e) refl

  -- The reads up to the end of the headers, and the turn at that.
  pub hear_head :
      (chunks unread : List Bytes) (reader last : HeaderReader) (r : Response) (outcome : Turn)
      → ((fuel : ℕ) → consume_headers inflate (suc fuel) (whole last) r ≡ outcome)
      → HeadIsSafe reader.headers_stream chunks
      → feed Reader.consume_headers chunks reader ≡ some (last, unread)
      → hear inflate chunks (record { response = r; stage = heading reader })
        ≡ follow (hear inflate unread) outcome
  unfolding feed Reader.consume_headers hear hear_at HeadIsSafe
  hear_head [] unread reader last r outcome done safe e = absurd cc
  hear_head (s ∷ chunks) unread reader last r outcome done safe e =
      let old = reader.headers_stream in
      let fuel = length (reader.headers_stream ++ s) in
      let appended : HeaderReader = record {
        headers_stream = reader.headers_stream ++ s;
        body_stream = reader.body_stream;
      } in
      let turn : Cut → Turn =
        λ cut. follow (hear inflate chunks) (consume_headers inflate (suc fuel) cut r) in
      elim (Option-cases (find_str header_end (reader.headers_stream ++ s))) [
        | inl at ↦
            ap (λ o. turn (cut_at o s appended)) at
            ∙ ap (follow (hear inflate chunks)) (consume_more fuel appended r)
            ∙ hear_head chunks unread appended last r outcome done
                (subst (λ o. EndIsSafe o old s (HeadIsSafe (reader.headers_stream ++ s) chunks)) at
                  safe)
                (rw (at, feed) at e)
        | inr (pos, at) ↦
            let both : some (both_streams pos appended, chunks) ≡ some (last, unread) =
              ap (λ n. headed n chunks) (sym (consume_at_lem pos appended)) ∙ rw (at, feed) at e in
            let same : (both_streams pos appended, chunks) ≡ (last, unread) =
              some-injective _ _ both in
            ap turn (
              cut_safe (find_str header_end (old ++ s)) old s reader.body_stream
                (HeadIsSafe (reader.headers_stream ++ s) chunks) safe)
            ∙ ap (λ o. turn (cut_of (consume_at o appended))) at
            ∙ ap (λ n. turn (cut_of n)) (consume_at_lem pos appended)
            ∙ ap (λ p. turn (whole p.0)) same
            ∙ ap (follow (hear inflate chunks)) (done fuel)
            ∙ ap (λ p. follow (hear inflate p.1) outcome) same
      ]

  -- A body with a length, of which the readers on both sides make the same.
  sized_more :
      (c body : Bytes) (n : ℕ)
      → length (body ++ c) < n
      → consume_sized inflate c (plain n [] body) ≡ waits (plain n [] (body ++ c))
  unfolding consume_sized
  sized_more c body n h =
      let short : ltb n (length (body ++ c)) ≡ false = ground arith in
      let few : leb n (length (body ++ c)) ≡ false = ground arith in rw (short, few) refl

  sized_complete :
      (c body : Bytes) (n : ℕ)
      → n ≤ length (body ++ c)
      → consume_sized inflate c (plain n [] body) ≡ finished (take n (body ++ c))
  unfolding consume_sized
  sized_complete c body n h = elim (Bool-cases (ltb n (length (body ++ c)))) [
    | inl e ↦
        let full : leb n (length (take n (body ++ c))) ≡ true =
          ground (arith, length-take_le n (body ++ c) h) in
        rw (e, full) refl
    | inr e ↦
        let full : leb n (length (body ++ c)) ≡ true = ground arith in
        let all : n ≡ length (body ++ c) = ground arith in
        rw (e, full)
          (sym (ap finished (ap (λ (k : ℕ). take k (body ++ c)) all ∙ take_all (body ++ c))))
  ]

  -- The first read that completes a body.
  hear_whole :
      (chunks : List Bytes) (c body : Bytes) (n : ℕ) (r : Response)
      → n ≤ length (body ++ c)
      → follow
          (hear inflate chunks)
          (turn_of inflate sized r (consume_sized inflate c (plain n [] body)))
        ≡ resolved (set_body (take n (body ++ (c ++ flatten chunks))) r)
  unfolding turn_of
  hear_whole chunks c body n r h = rw (sized_complete c body n h) (
      ap (λ (t : Bytes). resolved (set_body t r))
        (sym (take-append n (body ++ c) (flatten chunks) h)
          ∙ ap (take n) (append_assoc body c (flatten chunks))))

  -- The reads of a body of a known length, which is not empty, and of anything behind it.
  pub hear-sized :
      (chunks : List Bytes) (c body : Bytes) (n : ℕ) (r : Response)
      → n ≤ length (body ++ (c ++ flatten chunks))
      → follow
          (hear inflate chunks)
          (turn_of inflate sized r (consume_sized inflate c (plain n [] body)))
        ≡ resolved (set_body (take n (body ++ (c ++ flatten chunks))) r)
  unfolding flatten turn_of hear hear_at
  hear-sized [] c body n r h = hear_whole [] c body n r (
      omega
        (arith, ap length (append-nil c), ap (λ (t : Bytes). length (body ++ t)) (append-nil c)))
  hear-sized (s ∷ chunks) c body n r h = elim (Bool-cases (leb n (length (body ++ c)))) [
    | inl e ↦ hear_whole (s ∷ chunks) c body n r (ground arith)
    | inr e ↦ rw (sized_more c body n (ground arith)) (
        hear-sized chunks s (body ++ c) n r
          (omega (arith, h, ap length (append_assoc body c (s ++ flatten chunks))))
        ∙ ap (λ (t : Bytes). resolved (set_body (take n t) r))
            (append_assoc body c (s ++ flatten chunks)))
  ]
