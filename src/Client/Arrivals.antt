-- ===== src/Client/Arrivals.antt =====
-- libraries/prio-http/src/client_conversation.cpp: a chunked body that comes in any number of reads.
use mathlib.Core.List.{flatten}
use wpp.Prelude.{
  Bytes, ℕ, suc, ◌+◌, ◌-◌, ◌^◌, ◌<◌, true, false, Option, none, List, [], ◌∷◌, ◌++◌, map, ◌==◌, leb,
  ltb, append_assoc, length, length-append, find_str, starts_with, All, Lacks, ◌≡◌, ◌≢◌, refl, sym,
  ap, ◌∙◌, arith,
}
use wpp.Prelude.Marks.{find_missing}
use wpp.Prelude.Hex.{print_hex}
use wpp.Response.{Response, set_body}
use wpp.Writer.{chunk_text, last_chunk}
use wpp.Writer.Coding.{IsChunk, coded}
use wpp.Client.{
  Turn, resolved, rejected, reading, chunked, BodyState, Heard, waits, broken, finished, crlf,
  at_size, consume_loop, consume_chunked, round, next_chunk, add_data, turn_of, hear, hear_at,
}
use wpp.Client.Chunks.{plain, round_line, no_line, consume_chunks, long_enough}

-- What may be left in the stream behind a read: a part of a line with a size, or such a line with a
-- part of the data.
pub data IsCut (q : Bytes) : Type 0 where
  in_size : Lacks b'\r' q → IsCut q
  in_line_end : (p : Bytes) → Lacks b'\r' p → q ≡ p ++ b'\r' ∷ [] → IsCut q
  in_data :
      (d e : Bytes)
      → e ≢ []
      → length (d ++ e) < 2 ^ 32
      → q ≡ print_hex (length (d ++ e)) ++ (crlf ++ d)
      → IsCut q

no_pair : (p : Bytes) → Lacks b'\r' p → find_str crlf (p ++ b'\r' ∷ []) ≡ none
unfolding find_str starts_with
no_pair [] h = refl
no_pair (c ∷ p) (hc, h) =
    let apart : (b'\r' == c) ≡ false = ground arith in
    rw (find_str, starts_with, apart, no_pair p h) refl

module _ (inflate : Bytes → Option Bytes) (size : ℕ) where
  at_data :
      (p d e body : Bytes)
      → e ≢ []
      → at_size inflate (length p) (length (d ++ e)) (plain size (p ++ (crlf ++ d)) body)
        ≡ waits (plain size (p ++ (crlf ++ d)) body)
  unfolding at_size
  at_data p d [] body ne = absurd (ne refl)
  at_data p d (x ∷ e) body ne =
      let some_data : (length (d ++ x ∷ e) == 0) ≡ false =
        ground (arith, length-append {0} d (x ∷ e)) in
      let short : leb (length (d ++ x ∷ e)) (length (p ++ (crlf ++ d)) - length p - 2) ≡ false =
        ground (arith, length-append {0} d (x ∷ e), length-append {0} p (crlf ++ d)) in
      rw (at_size, some_data, short) refl

  cut_waits :
      (q : Bytes)
      → IsCut q
      → (fuel : ℕ) (body : Bytes)
      → consume_loop inflate (suc fuel) (plain size q body) ≡ waits (plain size q body)
  unfolding consume_loop
  cut_waits q (in_size h) fuel body =
      no_line inflate size q (find_missing b'\r' (b'\n' ∷ []) q h) fuel body
  cut_waits q (in_line_end p h e) fuel body =
      no_line inflate size q (ap (find_str crlf) e ∙ no_pair p h) fuel body
  cut_waits q (in_data d e ne small same) fuel body =
      ap (λ (s : Bytes). consume_loop inflate (suc fuel) (plain size s body)) same
      ∙ rw
          (
            consume_loop,
            round_line inflate size (length (d ++ e)) d body small,
            at_data (print_hex (length (d ++ e))) d e body ne,
          )
          refl
      ∙ ap (λ (s : Bytes). waits (plain size s body)) (sym same)

-- A read that is not the last: its text, the chunks that it completes, and what it leaves.
pub record Read : Type 0 where
  pub text : Bytes
  pub chunks : List Bytes
  pub left : Bytes

abbrev pub texts : List Read → List Bytes
texts [] = []
texts (r ∷ rs) = r.text ∷ texts rs

abbrev pub data_of : List Read → Bytes
data_of [] = []
data_of (r ∷ rs) = flatten r.chunks ++ data_of rs

-- The reads, behind a stream that holds `p`, are chunks as the writer writes them; `final` ends them.
abbrev pub Arrives : Bytes → List Read → Bytes → List Bytes → Type 0
Arrives p [] final cs = (p ++ final ≡ coded cs) × All IsChunk cs
Arrives p (r ∷ rs) final cs =
    (p ++ r.text ≡ flatten (map chunk_text r.chunks) ++ r.left)
    × All IsChunk r.chunks
    × IsCut r.left
    × Arrives r.left rs final cs

module _ (inflate : Bytes → Option Bytes) (size : ℕ) (r : Response) where
  heard_last :
      (p final body : Bytes) (cs more : List Bytes)
      → p ++ final ≡ coded cs
      → All IsChunk cs
      → hear inflate (final ∷ more) (record { response = r; stage = chunked (plain size p body) })
        ≡ resolved (set_body (body ++ flatten cs) r)
  unfolding hear hear_at turn_of consume_loop round at_size find_str starts_with wpp.Client.scan_hex
  heard_last p final body cs more e h =
      let (fuel, done) = consume_chunks inflate size p final last_chunk body cs h e in
      rw (hear, hear_at, done) refl

  -- A body that a server writes in chunks comes out whole, however it is cut into reads, if no read
  -- ends behind the data of a chunk and in front of or inside the line end of that: the conversation
  -- resolves with it, and does not look at what comes behind the last chunk.
  pub hear-Arrives :
      (reads : List Read) (p final body : Bytes) (cs more : List Bytes)
      → Arrives p reads final cs
      → hear inflate
          (texts reads ++ final ∷ more)
          (record { response = r; stage = chunked (plain size p body) })
        ≡ resolved (set_body (body ++ (data_of reads ++ flatten cs)) r)
  unfolding hear hear_at turn_of
  hear-Arrives [] p final body cs more (e, h) = heard_last p final body cs more e h
  hear-Arrives (x ∷ reads) p final body cs more (e, h, cut, later) =
      let (fuel, done) = consume_chunks inflate size p x.text x.left body x.chunks h e in
      rw (hear, hear_at, done, cut_waits inflate size x.left cut fuel (body ++ flatten x.chunks))
        (hear-Arrives reads x.left final (body ++ flatten x.chunks) cs more later
          ∙ ap (λ (b : Bytes). resolved (set_body b r))
              (append_assoc body (flatten x.chunks) (data_of reads ++ flatten cs)
                ∙ ap (λ (b : Bytes). body ++ b)
                    (sym (append_assoc (flatten x.chunks) (data_of reads) (flatten cs)))))

  at_line_cut :
      (p c t body : Bytes)
      → c ≢ []
      → length t < 2
      → at_size inflate (length p) (length c) (plain size (p ++ (crlf ++ (c ++ t))) body) ≡ broken
  unfolding at_size next_chunk add_data
  at_line_cut p [] t body ne small = absurd (ne refl)
  at_line_cut p (x ∷ c) t body ne small =
      let some_data : (suc (length c) == 0) ≡ false = ground arith in
      let room : leb (suc (length c)) (length (p ++ (crlf ++ (x ∷ (c ++ t)))) - length p - 2)
          ≡ true =
        ground (arith, long_enough inflate size p (x ∷ c) t) in
      let beyond : ltb (length (p ++ (crlf ++ (x ∷ (c ++ t))))) (length p + 2 + suc (length c) + 2)
          ≡ true =
        ground (arith, long_enough inflate size p (x ∷ c) t) in
      rw (at_size, some_data, room, next_chunk, beyond) refl

  -- A read that ends behind the data of a chunk, in front of its line end or inside it, makes the
  -- conversation reject: `substr` throws behind the end of the stream.
  pub hear_line_cut :
      (p x body c t : Bytes) (cs more : List Bytes)
      → All IsChunk cs
      → IsChunk c
      → length t < 2
      → p ++ x ≡ flatten (map chunk_text cs) ++ (print_hex (length c) ++ (crlf ++ (c ++ t)))
      → hear inflate (x ∷ more) (record { response = r; stage = chunked (plain size p body) })
        ≡ rejected
  unfolding hear hear_at turn_of consume_loop
  hear_line_cut p x body c t cs more h (ne, small) cut e =
      let (fuel, done) =
        consume_chunks inflate size p x (print_hex (length c) ++ (crlf ++ (c ++ t))) body cs h e in
      rw
        (
          hear,
          hear_at,
          done,
          consume_loop,
          round_line inflate size (length c) (c ++ t) (body ++ flatten cs) small,
          at_line_cut (print_hex (length c)) c t (body ++ flatten cs) ne cut,
        )
        refl
