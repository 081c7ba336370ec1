-- ===== src/Writer/Runs.antt =====
-- libraries/prio-http/src/server_writer.cpp: what a chunked writer has written after any events.
use mathlib.Core.List.{flatten}
use wpp.Prelude.{
  Bytes, ℕ, zero, suc, Bool, true, false, List, [], ◌∷◌, ◌++◌, append_assoc, append-nil,
  if◌then◌else◌, is_empty, length, Bool-cases, inl, inr, ◌≡◌, refl, sym, ap, ◌∙◌, map,
}
use wpp.Writer.{
  Effect, wrote, response_complete, request_error, ChunkedWriter, respond, chunk_response, flush,
  write_chunk, written, last_chunk, chunk_text, Event, written_to, flushed, write_ended, step, run,
}

-- The bytes that the conversation was given.
abbrev pub output : List Effect → Bytes
output [] = []
output (wrote s ∷ es) = s ++ output es
output (response_complete ∷ es) = output es
output (request_error ∷ es) = output es

-- The bytes that events ask for.
abbrev pub asked : Event → Bytes
asked (written_to c) = if is_empty c then [] else chunk_text c
asked flushed = last_chunk
asked write_ended = []

abbrev pub all_asked : List Event → Bytes
all_asked [] = []
all_asked (e ∷ es) = asked e ++ all_asked es

pub output-append : (a b : List Effect) → output (a ++ b) ≡ output a ++ output b
output-append [] b = refl
output-append (wrote s ∷ a) b =
    ap (λ (t : Bytes). s ++ t) (output-append a b) ∙ sym (append_assoc s (output a) (output b))
output-append (response_complete ∷ a) b = output-append a b
output-append (request_error ∷ a) b = output-append a b

-- What was written and what is queued.
abbrev total : ChunkedWriter × List Effect → Bytes
total (w, es) = output es ++ flatten w.chunks

respond-total :
    (cs : List Bytes) (writing done : Bool) → total (respond cs writing done) ≡ flatten cs
unfolding flatten
respond-total cs true done = refl
respond-total [] false true = refl
respond-total [] false false = refl
respond-total (c ∷ cs) false done = ap (λ (s : Bytes). s ++ flatten cs) (append-nil c)

flatten-push : (cs : List Bytes) (c : Bytes) → flatten (cs ++ c ∷ []) ≡ flatten cs ++ c
unfolding flatten
flatten-push [] c = append-nil c
flatten-push (x ∷ cs) c =
    ap (λ (s : Bytes). x ++ s) (flatten-push cs c) ∙ sym (append_assoc x (flatten cs) c)

step-total : (e : Event) (w : ChunkedWriter) → total (step e w) ≡ flatten w.chunks ++ asked e
unfolding step write_chunk flush written chunk_response
step-total (written_to c) w = elim (Bool-cases (is_empty c)) [
  | inl t ↦ rw (total, t) (sym (append-nil (flatten w.chunks)))
  | inr t ↦
      rw (total, t)
        (respond-total (w.chunks ++ chunk_text c ∷ []) w.writing w.done
          ∙ flatten-push w.chunks (chunk_text c))
]
step-total flushed w =
    respond-total (w.chunks ++ last_chunk ∷ []) w.writing true ∙ flatten-push w.chunks last_chunk
step-total write_ended w = respond-total w.chunks false w.done ∙ sym (append-nil (flatten w.chunks))

-- What was written and what is queued is what was queued and what was asked for, in this order.
pub run-output :
    (es : List Event) (w : ChunkedWriter)
    → output (run es w).1 ++ flatten (run es w).0.chunks ≡ flatten w.chunks ++ all_asked es
unfolding run
run-output [] w = sym (append-nil (flatten w.chunks))
run-output (e ∷ es) w =
    ap (λ (s : Bytes). s ++ flatten (run es (step e w).0).0.chunks)
      (output-append (step e w).1 (run es (step e w).0).1)
    ∙ append_assoc (output (step e w).1) (output (run es (step e w).0).1)
        (flatten (run es (step e w).0).0.chunks)
    ∙ ap (λ (s : Bytes). output (step e w).1 ++ s) (run-output es (step e w).0)
    ∙ sym (append_assoc (output (step e w).1) (flatten (step e w).0.chunks) (all_asked es))
    ∙ ap (λ (s : Bytes). s ++ all_asked es) (step-total e w)
    ∙ append_assoc (flatten w.chunks) (asked e) (all_asked es)

-- As many ends of writes.
abbrev pub ends : ℕ → List Event
ends zero = []
ends (suc n) = write_ended ∷ ends n

-- A writer that writes its last chunks.
abbrev pub finishing : List Bytes → ChunkedWriter
finishing cs = record { chunks = cs; writing = true; done = true }

pub run-finishing :
    (cs : List Bytes)
    → run (ends (suc (length cs))) (finishing cs) ≡ (
      record { chunks = []; writing = false; done = true },
      map wrote cs ++ response_complete ∷ [],
    )
unfolding run step written chunk_response
run-finishing [] = refl
run-finishing (c ∷ cs) =
    ap {B = ChunkedWriter × List Effect} (λ p. (p.0, wrote c ∷ p.1)) (run-finishing cs)

-- `flush` always leaves a writer that is finishing.
pub flush-finishing : (w : ChunkedWriter) → (cs : List Bytes) × ((step flushed w).0 ≡ finishing cs)
unfolding step flush chunk_response
flush-finishing w = busy_after w.chunks w.writing
  where
    busy_after :
        (cs : List Bytes) (writing : Bool)
        → (ds : List Bytes) × ((respond (cs ++ last_chunk ∷ []) writing true).0 ≡ finishing ds)
    busy_after cs true = (cs ++ last_chunk ∷ [], refl)
    busy_after [] false = ([], refl)
    busy_after (c ∷ cs) false = (cs ++ last_chunk ∷ [], refl)

pub run-append :
    (es fs : List Event) (w : ChunkedWriter)
    → run (es ++ fs) w ≡ ((run fs (run es w).0).0, (run es w).1 ++ (run fs (run es w).0).1)
unfolding run
run-append [] fs w = refl
run-append (e ∷ es) fs w =
    ap {B = ChunkedWriter × List Effect} (λ p. (p.0, (step e w).1 ++ p.1))
      (run-append es fs (step e w).0)
    ∙ ap (λ (t : List Effect). ((run fs (run es (step e w).0).0).0, t))
        (sym (append_assoc (step e w).1 (run es (step e w).0).1 (run fs (run es (step e w).0).0).1))
