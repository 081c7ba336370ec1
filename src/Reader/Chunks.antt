-- ===== src/Reader/Chunks.antt =====
-- libraries/prio-http/src/server_reader.cpp: the readers on text that is cut into chunks.
use mathlib.Core.List.{flatten}
use wpp.Prelude.{
  Bytes, ℕ, ◌+◌, ◌-◌, ◌<◌, ◌≤◌, true, false, Option, none, some, List, [], ◌∷◌, ◌++◌, ◌≡◌, refl,
  sym, ap, ◌∙◌, arith, if◌then◌else◌, find_str, find_str-append, find_str-bound, take, drop, length,
  ltb, leb, Option-cases, Bool-cases, inl, inr, append-nil, append_assoc, take-append, drop-append,
  drop_all, length-take_le, take_all,
}
use mathlib.Core.Path.{subst}
use mathlib.Core.Option.{some-injective}
use wpp.Reader.{HeaderReader, header_end, consume_at, consume_headers, consume_body, feed}

-- What a reader with the text `all` hands on: the text in front of the first empty line, and, of what
-- is behind it, what it has read; the rest is in the chunks that it has not read.
pub record Headed (all : Bytes) (pos : ℕ) (result : Option (HeaderReader × List Bytes))
    : Type 0 where
  pub reader : HeaderReader
  pub unread : List Bytes
  pub completes : result ≡ some (reader, unread)
  pub headers : reader.headers_stream ≡ take pos all
  pub body : reader.body_stream ++ flatten unread ≡ drop (pos + 4) all

body_read :
    (pos : ℕ) (s : Bytes)
    → (if ltb 0 (length s - (4 + pos)) then [] ++ drop (pos + 4) s else []) ≡ drop (pos + 4) s
body_read pos s = elim (Bool-cases (ltb 0 (length s - (4 + pos)))) [
  | inl e ↦ rw e
  | inr e ↦ rw e (sym (drop_all (pos + 4) s (ground arith)))
]

here_Headed :
    (s : Bytes) (chunks : List Bytes) (pos : ℕ)
    → find_str header_end s ≡ some pos
    → Headed (s ++ flatten chunks) pos (
        some (
          record {
            headers_stream = take pos s;
            body_stream = if ltb 0 (length s - (4 + pos)) then [] ++ drop (pos + 4) s else [];
          },
          chunks,
        ))
here_Headed s chunks pos e =
    let fits : pos + 4 ≤ length s = find_str-bound header_end s pos e in
    record {
      reader = record {
        headers_stream = take pos s;
        body_stream = if ltb 0 (length s - (4 + pos)) then [] ++ drop (pos + 4) s else [];
      };
      unread = chunks;
      completes = refl;
      headers = sym (take-append pos s (flatten chunks) (omega arith));
      body =
          ap (λ (x : Bytes). x ++ flatten chunks) (body_read pos s)
          ∙ sym (drop-append (pos + 4) s (flatten chunks) fits);
    }

feed_more :
    (s : Bytes) (chunks : List Bytes) (stream : Bytes)
    → find_str header_end (stream ++ s) ≡ none
    → feed consume_headers (s ∷ chunks) (record { headers_stream = stream; body_stream = [] })
      ≡ feed consume_headers chunks (record { headers_stream = stream ++ s; body_stream = [] })
unfolding feed consume_headers consume_at
feed_more s chunks stream e = rw (feed, consume_headers, e)

feed_complete :
    (s : Bytes) (chunks : List Bytes) (stream : Bytes) (pos : ℕ)
    → find_str header_end (stream ++ s) ≡ some pos
    → feed consume_headers (s ∷ chunks) (record { headers_stream = stream; body_stream = [] })
      ≡ some (
        record {
          headers_stream = take pos (stream ++ s);
          body_stream =
              if ltb 0 (length (stream ++ s) - (4 + pos))
              then [] ++ drop (pos + 4) (stream ++ s)
              else [];
        },
        chunks,
      )
unfolding feed consume_headers consume_at
feed_complete s chunks stream pos e = rw (feed, consume_headers, e)

-- Headers and body come out the same however the text is cut into chunks, as soon as the chunks hold
-- an empty line: the text in front of the first one is the header text, and what was read behind it is
-- the begin of the body.
pub feed_headers :
    (chunks : List Bytes) (stream : Bytes) (pos : ℕ)
    → find_str header_end stream ≡ none
    → find_str header_end (stream ++ flatten chunks) ≡ some pos
    → Headed
        (stream ++ flatten chunks)
        pos
        (feed consume_headers chunks (record { headers_stream = stream; body_stream = [] }))
unfolding flatten
feed_headers [] stream pos before e = absurd (cc (append-nil stream))
feed_headers (s ∷ chunks) stream pos before e =
    elim (Option-cases (find_str header_end (stream ++ s))) [
      | inl no_end ↦
          subst
            (λ (all : Bytes). Headed all pos (
              feed consume_headers (s ∷ chunks)
                (record { headers_stream = stream; body_stream = [] })))
            (append_assoc stream s (flatten chunks))
            (rw (feed_more s chunks stream no_end) (
              feed_headers chunks (stream ++ s) pos no_end
                (ap (find_str header_end) (append_assoc stream s (flatten chunks)) ∙ e)))
      | inr (i, at) ↦
          let same : i ≡ pos = some-injective _ _ (
            sym (find_str-append header_end (stream ++ s) (flatten chunks) i at)
            ∙ ap (find_str header_end) (append_assoc stream s (flatten chunks))
            ∙ e) in
          subst
            (λ (all : Bytes). Headed all pos (
              feed consume_headers (s ∷ chunks)
                (record { headers_stream = stream; body_stream = [] })))
            (append_assoc stream s (flatten chunks))
            (rw (feed_complete s chunks stream pos (at ∙ ap some same))
              (here_Headed (stream ++ s) chunks pos (at ∙ ap some same)))
    ]

body_more :
    (s : Bytes) (chunks : List Bytes) (n : ℕ) (body : Bytes)
    → length (body ++ s) < n
    → feed consume_body (s ∷ chunks) (record { size = n; body = body })
      ≡ feed consume_body chunks (record { size = n; body = body ++ s })
unfolding feed consume_body
body_more s chunks n body h =
    let e : ltb n (length (body ++ s)) ≡ false = ground arith in
    let f : leb n (length (body ++ s)) ≡ false = ground arith in rw (feed, consume_body, e, f)

body_complete :
    (s : Bytes) (chunks : List Bytes) (n : ℕ) (body : Bytes)
    → n ≤ length (body ++ s)
    → feed consume_body (s ∷ chunks) (record { size = n; body = body })
      ≡ some (record { size = n; body = take n (body ++ s) }, chunks)
unfolding feed consume_body
body_complete s chunks n body h = elim (Bool-cases (ltb n (length (body ++ s)))) [
  | inl e ↦
      let full : leb n (length (take n (body ++ s))) ≡ true =
        ground (arith, length-take_le n (body ++ s) h) in
      rw (feed, consume_body, e, full)
  | inr e ↦
      let full : leb n (length (body ++ s)) ≡ true = ground arith in
      rw (feed, consume_body, e, full)
        (ap (λ (x : Bytes). some (record { size = n; body = x }, chunks))
          (sym (
            ap (λ (k : ℕ). take k (body ++ s)) {y = length (body ++ s)} (ground arith)
            ∙ take_all (body ++ s))))
]

-- The body comes out the same however the text is cut into chunks, as soon as they hold as many bytes
-- as the content length says: exactly that many of the first bytes.
pub feed_body :
    (chunks : List Bytes) (n : ℕ) (body : Bytes)
    → length body < n
    → n ≤ length (body ++ flatten chunks)
    → (unread : List Bytes) × (feed consume_body chunks (record { size = n; body = body })
        ≡ some (record { size = n; body = take n (body ++ flatten chunks) }, unread))
unfolding flatten
feed_body [] n body h k = absurd (omega (arith, ap length (append-nil body)))
feed_body (s ∷ chunks) n body h k = elim (Bool-cases (leb n (length (body ++ s)))) [
  | inl e ↦ (
    chunks,
    body_complete s chunks n body (ground arith)
        ∙ ap (λ (x : Bytes). some (record { size = n; body = x }, chunks))
            (sym (take-append n (body ++ s) (flatten chunks) (ground arith))
              ∙ ap (take n) (append_assoc body s (flatten chunks))),
  )
  | inr e ↦
      let (unread, done) =
        feed_body chunks n (body ++ s) (ground arith)
          (omega (arith, ap length (append_assoc body s (flatten chunks)))) in
      (
        unread,
        body_more s chunks n body (ground arith)
            ∙ done
            ∙ ap (λ (x : Bytes). some (record { size = n; body = take n x }, unread))
                (append_assoc body s (flatten chunks)),
      )
]
