-- ===== src/Client/Chunks.antt =====
-- libraries/prio-http/src/client_conversation.cpp: chunked bodies, as a client reads what
-- libraries/prio-http/src/server_writer.cpp writes.
use mathlib.Core.List.{flatten}
use wpp.Prelude.{
  Bytes, ℕ, suc, ◌+◌, ◌-◌, ◌%◌, ◌^◌, ◌<◌, ◌≤◌, true, false, Option, none, some, List, [], ◌∷◌, ◌++◌,
  map, if◌then◌else◌, ◌==◌, leb, ltb, is_empty, append_assoc, append-nil, length, length-append,
  drop, take-length, drop-length, find_str, starts_with, All, Lacks, ◌≡◌, ◌≢◌, refl, sym, ap, ◌∙◌,
  arith,
}
use wpp.Prelude.Cuts.{drop-drop}
use wpp.Prelude.Marks.{find_behind}
use wpp.Prelude.Hex.{print_hex}
use wpp.Writer.{chunk_text, last_chunk}
use wpp.Writer.Coding.{IsChunk, chunk_text-append}
use wpp.Client.{
  BodyState, waits, again, finished, crlf, scan_hex, at_size, next_chunk, add_data, round,
  consume_loop, consume_chunked,
}
use wpp.Client.Sizes.{scan_hex-print_hex, print_hex-Lacks}

-- A reader of data that is not compressed.
abbrev pub plain : ℕ → Bytes → Bytes → BodyState
plain size stream body = record { gzipped = false; size = size; stream = stream; body = body }

module _ (inflate : Bytes → Option Bytes) (size : ℕ) where
  line_found : (p r : Bytes) → Lacks b'\r' p → find_str crlf (p ++ (crlf ++ r)) ≡ some (length p)
  unfolding starts_with
  line_found p r free = find_behind b'\r' (b'\n' ∷ []) p r free refl

  -- A call at the end of a line with a size.
  pub round_line :
      (n : ℕ) (r body : Bytes)
      → n < 2 ^ 32
      → round inflate (plain size (print_hex n ++ (crlf ++ r)) body)
        ≡ at_size inflate (length (print_hex n)) n (plain size (print_hex n ++ (crlf ++ r)) body)
  unfolding round
  round_line n r body small =
      rw
        (
          round,
          line_found (print_hex n) r (print_hex-Lacks n),
          take-length (print_hex n) (crlf ++ r),
          scan_hex-print_hex n (omega arith),
        )
        refl

  behind_line : (p r : Bytes) → drop (length p + 2) (p ++ (crlf ++ r)) ≡ r
  behind_line p r =
      drop-drop (length p) 2 (p ++ (crlf ++ r)) ∙ ap (drop 2) (drop-length p (crlf ++ r))

  behind_chunk :
      (p c r : Bytes) → drop (length p + 2 + length c + 2) (p ++ (crlf ++ (c ++ (crlf ++ r)))) ≡ r
  behind_chunk p c r =
      ap (λ (n : ℕ). drop n (p ++ (crlf ++ (c ++ (crlf ++ r))))) {y = length p + 2 + (length c + 2)}
        (omega arith)
      ∙ drop-drop (length p + 2) (length c + 2) (p ++ (crlf ++ (c ++ (crlf ++ r))))
      ∙ ap (drop (length c + 2)) (behind_line p (c ++ (crlf ++ r)))
      ∙ drop-drop (length c) 2 (c ++ (crlf ++ r))
      ∙ ap (drop 2) (drop-length c (crlf ++ r))

  pub long_enough :
      (p c r : Bytes) → length (p ++ (crlf ++ (c ++ r))) ≡ length p + 2 + length c + length r
  long_enough p c r = omega (arith, length-append {0} p (crlf ++ (c ++ r)), length-append {0} c r)

  -- The call behind the line of a size, with all of the chunk.
  at_chunk :
      (p c t body : Bytes)
      → c ≢ []
      → at_size inflate (length p) (length c) (plain size (p ++ (crlf ++ (c ++ (crlf ++ t)))) body)
        ≡ (if is_empty t
            then waits (plain size [] (body ++ c))
            else again (plain size t (body ++ c)))
  unfolding at_size next_chunk add_data
  at_chunk p [] t body ne = absurd (ne refl)
  at_chunk p (x ∷ c) t body ne =
      let some_data : (suc (length c) == 0) ≡ false = ground arith in
      let long : length (p ++ (crlf ++ (x ∷ (c ++ (crlf ++ t)))))
          ≡ length p + 2 + suc (length c) + suc (suc (length t)) =
        long_enough p (x ∷ c) (crlf ++ t) in
      let room : leb (suc (length c))
            (length (p ++ (crlf ++ (x ∷ (c ++ (crlf ++ t))))) - length p - 2)
          ≡ true =
        ground (arith, long_enough p (x ∷ c) (crlf ++ t)) in
      let whole : ltb (length (p ++ (crlf ++ (x ∷ (c ++ (crlf ++ t))))))
            (length p + 2 + suc (length c) + 2)
          ≡ false =
        ground (arith, long_enough p (x ∷ c) (crlf ++ t)) in
      rw
        (
          at_size,
          some_data,
          room,
          behind_line p ((x ∷ c) ++ (crlf ++ t)),
          take-length (x ∷ c) (crlf ++ t),
          next_chunk,
          whole,
          behind_chunk p (x ∷ c) t,
        )
        refl

  -- A call at a whole chunk: it is taken, and the call repeats with what follows it, if anything does.
  round_chunk :
      (c t body : Bytes)
      → IsChunk c
      → round inflate (plain size (chunk_text c ++ t) body) ≡ (
          if is_empty t
          then waits (plain size [] (body ++ c))
          else again (plain size t (body ++ c)))
  round_chunk c t body (ne, small) =
      ap (λ (s : Bytes). round inflate (plain size s body)) (chunk_text-append c t small)
      ∙ round_line (length c) (c ++ (crlf ++ t)) body small
      ∙ at_chunk (print_hex (length c)) c t body ne

  -- A call that waits, whatever fuel it has.
  abbrev Waits : Bytes → Type 0
  Waits q =
      (fuel : ℕ) (body : Bytes)
      → consume_loop inflate (suc fuel) (plain size q body) ≡ waits (plain size q body)

  pub no_line : (q : Bytes) → find_str crlf q ≡ none → Waits q
  unfolding consume_loop round
  no_line q e fuel body = rw (consume_loop, round, e) refl

  Waits-nil : Waits []
  Waits-nil = no_line [] (unfold find_str in refl)

  -- The end of a chunked body.
  pub loop_last :
      (fuel : ℕ) (body : Bytes)
      → consume_loop inflate (suc fuel) (plain size last_chunk body) ≡ finished body
  unfolding consume_loop round at_size find_str starts_with scan_hex
  loop_last fuel body = refl

  loop_chunk :
      (fuel : ℕ) (c t body : Bytes)
      → IsChunk c
      → consume_loop inflate (suc (suc fuel)) (plain size (chunk_text c ++ t) body)
        ≡ consume_loop inflate (suc fuel) (plain size t (body ++ c))
  unfolding consume_loop
  loop_chunk fuel c [] body h =
      rw (consume_loop, round_chunk c [] body h) (sym (Waits-nil fuel (body ++ c)))
  loop_chunk fuel c (x ∷ t) body h = rw (consume_loop, round_chunk c (x ∷ t) body h) refl

  loop_chunks :
      (fuel : ℕ) (cs : List Bytes) (q body : Bytes)
      → All IsChunk cs
      → consume_loop inflate
          (length cs + suc fuel)
          (plain size (flatten (map chunk_text cs) ++ q) body)
        ≡ consume_loop inflate (suc fuel) (plain size q (body ++ flatten cs))
  unfolding flatten
  loop_chunks fuel [] q body h =
      rw append-nil
        (ap (λ (n : ℕ). consume_loop inflate n (plain size q body)) {y = suc fuel} (omega arith))
  loop_chunks fuel (c ∷ cs) q body (hc, h) =
      ap
        (λ (n : ℕ).
          consume_loop inflate n
            (plain size ((chunk_text c ++ flatten (map chunk_text cs)) ++ q) body))
        {y = suc (suc (length cs + fuel))} (omega arith)
      ∙ ap (λ (s : Bytes). consume_loop inflate (suc (suc (length cs + fuel))) (plain size s body))
          (append_assoc (chunk_text c) (flatten (map chunk_text cs)) q)
      ∙ loop_chunk (length cs + fuel) c (flatten (map chunk_text cs) ++ q) body hc
      ∙ ap
          (λ (n : ℕ).
            consume_loop inflate n (plain size (flatten (map chunk_text cs) ++ q) (body ++ c)))
          {y = length cs + suc fuel} (omega arith)
      ∙ loop_chunks fuel cs q (body ++ c) h
      ∙ ap (λ (s : Bytes). consume_loop inflate (suc fuel) (plain size q s))
          (append_assoc body c (flatten cs))

  chunk_text-long : (c : Bytes) → 2 ≤ length (chunk_text c)
  unfolding chunk_text
  chunk_text-long c =
      omega (arith, length-append {0} (print_hex (length c % 2 ^ 32)) (crlf ++ (c ++ crlf)))

  chunks_long :
      (cs : List Bytes) (q : Bytes) → length cs ≤ length (flatten (map chunk_text cs) ++ q)
  unfolding flatten
  chunks_long [] q = omega arith
  chunks_long (c ∷ cs) q = omega (
    arith,
    chunk_text-long c,
    chunks_long cs q,
    length-append {0} (chunk_text c ++ flatten (map chunk_text cs)) q,
    length-append {0} (chunk_text c) (flatten (map chunk_text cs)),
    length-append {0} (flatten (map chunk_text cs)) q,
  )

  -- A read behind which the stream holds whole chunks, and `q`.
  pub consume_chunks :
      (p x q body : Bytes) (cs : List Bytes)
      → All IsChunk cs
      → p ++ x ≡ flatten (map chunk_text cs) ++ q
      → (fuel : ℕ) × (consume_chunked inflate x (plain size p body)
          ≡ consume_loop inflate (suc fuel) (plain size q (body ++ flatten cs)))
  unfolding consume_chunked
  consume_chunks p x q body cs h e =
      let spare = length (flatten (map chunk_text cs) ++ q) - length cs in
      (
        spare,
        ap (λ (s : Bytes). consume_loop inflate (suc (length s)) (plain size s body)) e
            ∙ ap
                (λ (n : ℕ).
                  consume_loop inflate n (plain size (flatten (map chunk_text cs) ++ q) body))
                {x = suc (length (flatten (map chunk_text cs) ++ q))} {y = length cs + suc spare}
                (omega (arith, chunks_long cs q))
            ∙ loop_chunks spare cs q body h,
      )
