-- ===== src/Writer/Coding.antt =====
-- Chunks as libraries/prio-http/src/server_writer.cpp writes them, against a decoder of chunked bodies.
use mathlib.Core.List.{flatten}
use wpp.Prelude.{
  Bytes, ℕ, zero, suc, ◌%◌, ◌^◌, ◌<◌, true, false, Option, none, some, List, [], ◌∷◌, ◌++◌,
  append_assoc, append-nil, if◌then◌else◌, length, length-append, take, drop, take-length,
  drop-length, leb, ◌==◌, All, ◌≡◌, ◌≢◌, refl, sym, ap, ◌∙◌, map, ◌>>=◌, arith,
}
use wpp.Prelude.Hex.{print_hex, read_hex, hex_value, read_hex-print_hex}
use wpp.Writer.{
  ChunkedWriter, push, new_writer, crlf, chunk_text, last_chunk, Event, written_to, flushed,
  write_ended, run,
}
use wpp.Writer.Runs.{output, all_asked, asked, ends, run-output}
use wpp.Writer.Completion.{IsOpen, completions, Finished, run-Finished}

-- The text behind a line end.
abbrev after_crlf : Bytes → Option Bytes
after_crlf (c ∷ d ∷ s) = if c == b'\r' then (if d == b'\n' then some s else none) else none
after_crlf _ = none

-- A chunk of a known size, and `next` for those behind it.
abbrev sized : (Bytes → Option (Bytes × Bytes)) → ℕ → Bytes → Option (Bytes × Bytes)
sized next size s = after_crlf s >>= (λ data_on.
    if size == 0
    then after_crlf data_on >>= (λ left. some ([], left))
    else if leb size (length data_on)
    then after_crlf (drop size data_on)
      >>= next
      >>= (λ (more, left). some (take size data_on ++ more, left))
    else none)

-- A reference decoder: the data, and what follows the last chunk.
unfoldable pub dechunk : ℕ → Bytes → Option (Bytes × Bytes)
dechunk zero s = none
dechunk (suc fuel) s = sized (λ t. dechunk fuel t) (read_hex 0 s).0 (read_hex 0 s).1

abbrev pub coded : List Bytes → Bytes
coded cs = flatten (map chunk_text cs) ++ last_chunk

abbrev pub IsChunk : Bytes → Type 0
IsChunk c = (c ≢ []) × (length c < 2 ^ 32)

pub chunk_text-append :
    (c next : Bytes)
    → length c < 2 ^ 32
    → chunk_text c ++ next ≡ print_hex (length c) ++ (crlf ++ (c ++ (crlf ++ next)))
unfolding chunk_text
chunk_text-append c next small =
    append_assoc (print_hex (length c % 2 ^ 32)) (crlf ++ (c ++ crlf)) next
    ∙ ap (λ (t : Bytes). print_hex (length c % 2 ^ 32) ++ (crlf ++ t)) (append_assoc c crlf next)
    ∙ ap (λ (n : ℕ). print_hex n ++ (crlf ++ (c ++ (crlf ++ next)))) {y = length c} (omega arith)

read_hex-chunk_text :
    (c next : Bytes)
    → length c < 2 ^ 32
    → read_hex 0 (chunk_text c ++ next) ≡ (length c, crlf ++ (c ++ (crlf ++ next)))
read_hex-chunk_text c next small =
    ap (read_hex 0) (chunk_text-append c next small)
    ∙ read_hex-print_hex (length c) b'\r' (b'\n' ∷ (c ++ (crlf ++ next))) (unfold hex_value in refl)

sized-chunk :
    (f : Bytes → Option (Bytes × Bytes)) (c next more left : Bytes)
    → c ≢ []
    → f next ≡ some (more, left)
    → sized f (length c) (crlf ++ (c ++ (crlf ++ next))) ≡ some (c ++ more, left)
sized-chunk f [] next more left ne e = absurd (ne refl)
sized-chunk f (x ∷ c) next more left ne e =
    let z : (suc (length c) == 0) ≡ false = ground arith in
    let room : leb (suc (length c)) (suc (length (c ++ (crlf ++ next)))) ≡ true =
      ground (arith, length-append {0} c (crlf ++ next)) in
    rw (z, room, drop-length c (crlf ++ next), take-length c (crlf ++ next), e) refl

dechunk-chunk :
    (fuel : ℕ) (c : Bytes) (next more left : Bytes)
    → IsChunk c
    → dechunk fuel next ≡ some (more, left)
    → dechunk (suc fuel) (chunk_text c ++ next) ≡ some (c ++ more, left)
unfolding dechunk
dechunk-chunk fuel c next more left (ne, small) e =
    ap (λ p. sized (λ t. dechunk fuel t) p.0 p.1) (read_hex-chunk_text c next small)
    ∙ sized-chunk (λ t. dechunk fuel t) c next more left ne e

dechunk-last : (fuel : ℕ) → dechunk (suc fuel) last_chunk ≡ some ([], [])
unfolding dechunk read_hex hex_value
dechunk-last fuel = refl

pub dechunk-coded :
    (cs : List Bytes) (fuel : ℕ)
    → length cs < fuel
    → All IsChunk cs
    → dechunk fuel (coded cs) ≡ some (flatten cs, [])
unfolding flatten
dechunk-coded [] (suc fuel) enough h = dechunk-last fuel
dechunk-coded (c ∷ cs) (suc fuel) enough (hc, h) =
    ap (dechunk (suc fuel)) (append_assoc (chunk_text c) (flatten (map chunk_text cs)) last_chunk)
    ∙ dechunk-chunk fuel c (coded cs) (flatten cs) [] hc (dechunk-coded cs fuel (omega arith) h)
dechunk-coded cs zero enough h = absurd (omega arith)

-- The chunks that events write: an empty one writes nothing.
abbrev pub payloads : List Event → List Bytes
payloads [] = []
payloads (written_to [] ∷ es) = payloads es
payloads (written_to (x ∷ c) ∷ es) = (x ∷ c) ∷ payloads es
payloads (flushed ∷ es) = payloads es
payloads (write_ended ∷ es) = payloads es

all_asked-append : (es fs : List Event) → all_asked (es ++ fs) ≡ all_asked es ++ all_asked fs
all_asked-append [] fs = refl
all_asked-append (e ∷ es) fs =
    ap (λ (t : Bytes). asked e ++ t) (all_asked-append es fs)
    ∙ sym (append_assoc (asked e) (all_asked es) (all_asked fs))

all_asked-ends : (n : ℕ) → all_asked (ends n) ≡ []
all_asked-ends zero = refl
all_asked-ends (suc n) = all_asked-ends n

all_asked-payloads :
    (es : List Event) → IsOpen es → all_asked es ≡ flatten (map chunk_text (payloads es))
unfolding flatten
all_asked-payloads [] h = refl
all_asked-payloads (written_to [] ∷ es) h = all_asked-payloads es h
all_asked-payloads (written_to (x ∷ c) ∷ es) h =
    ap (λ (t : Bytes). chunk_text (x ∷ c) ++ t) (all_asked-payloads es h)
all_asked-payloads (flushed ∷ es) h = elim h [ ]
all_asked-payloads (write_ended ∷ es) h = all_asked-payloads es h

-- A response whose head is queued, behind any calls of `write` and ends of writes, and a `flush`.
pub record Delivered (head : Bytes) (es : List Event) (fuel : ℕ) : Type 0 where
  pub rounds : ℕ
  pub body : Bytes
  pub sent : output (run (es ++ flushed ∷ ends rounds) (push head new_writer)).1 ≡ head ++ body
  pub decodes : dechunk fuel body ≡ some (flatten (payloads es), [])
  pub once : completions (run (es ++ flushed ∷ ends rounds) (push head new_writer)).1 ≡ 1

-- Behind a queued head, any calls of `write` and ends of writes, in any order, and a `flush`, some
-- number of ends of writes completes the response, once. By then the head was written and behind it
-- a body that a decoder of chunks reads as what was written, in order, if each write is below 2 ^
-- 32 bytes.
pub run-Delivered :
    (head : Bytes) (es : List Event) (fuel : ℕ)
    → IsOpen es
    → All IsChunk (payloads es)
    → length (payloads es) < fuel
    → Delivered head es fuel
unfolding flatten
run-Delivered head es fuel unflushed small enough = record {
  rounds = finished.rounds;
  body = coded (payloads es);
  sent = all_sent;
  decodes = dechunk-coded (payloads es) fuel enough small;
  once = finished.once;
}
  where
    finished : Finished es (push head new_writer)
    finished = run-Finished es (push head new_writer) unflushed refl

    events : List Event
    events = es ++ flushed ∷ ends (run-Finished es (push head new_writer) unflushed refl).rounds

    all_sent :
        output
          (run
            (es ++ flushed ∷ ends (run-Finished es (push head new_writer) unflushed refl).rounds)
            (push head new_writer)).1
        ≡ head ++ coded (payloads es)
    all_sent =
        sym (append-nil _)
        ∙ ap
            (λ (w : ChunkedWriter).
              output (run events (push head new_writer)).1 ++ flatten w.chunks)
            (sym finished.state)
        ∙ run-output events (push head new_writer)
        ∙ ap (λ (t : Bytes). t ++ all_asked events) (append-nil head)
        ∙ ap (λ (t : Bytes). head ++ t)
            (all_asked-append es (flushed ∷ ends finished.rounds)
              ∙ ap (λ (t : Bytes). t ++ all_asked (flushed ∷ ends finished.rounds))
                  (all_asked-payloads es unflushed)
              ∙ ap (λ (t : Bytes). flatten (map chunk_text (payloads es)) ++ (last_chunk ++ t))
                  (all_asked-ends finished.rounds))
