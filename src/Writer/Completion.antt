-- ===== src/Writer/Completion.antt =====
-- libraries/prio-http/src/server_writer.cpp: when a chunked response is complete.
use wpp.Prelude.{
  Bytes, ℕ, suc, ◌+◌, Bool, true, false, List, [], ◌∷◌, ◌++◌, is_empty, length, Bool-cases, inl,
  inr, ◌≡◌, refl, ap, ◌∙◌, map, arith,
}
use wpp.Writer.{
  Effect, wrote, response_complete, request_error, ChunkedWriter, respond, chunk_response, flush,
  write_chunk, written, last_chunk, chunk_text, Event, written_to, flushed, write_ended, step, run,
}
use wpp.Writer.Runs.{ends, finishing, run-finishing, run-append, flush-finishing}

-- The ends of responses among effects.
abbrev pub completions : List Effect → ℕ
completions [] = 0
completions (response_complete ∷ es) = suc (completions es)
completions (wrote s ∷ es) = completions es
completions (request_error ∷ es) = completions es

-- Events with no `flush`.
abbrev pub IsOpen : List Event → Type 0
IsOpen [] = Unit
IsOpen (written_to c ∷ es) = IsOpen es
IsOpen (flushed ∷ es) = ⊥
IsOpen (write_ended ∷ es) = IsOpen es

completions-append : (a b : List Effect) → completions (a ++ b) ≡ completions a + completions b
completions-append [] b = omega arith
completions-append (wrote s ∷ a) b = completions-append a b
completions-append (response_complete ∷ a) b = omega (arith, completions-append a b)
completions-append (request_error ∷ a) b = completions-append a b

-- Nothing is complete, and the writer is not done.
abbrev Quiet : ChunkedWriter × List Effect → Type 0
Quiet (w, es) = (w.done ≡ false) × (completions es ≡ 0)

respond-Quiet :
    (cs : List Bytes) (writing done : Bool) → done ≡ false → Quiet (respond cs writing done)
respond-Quiet cs true done e = (e, refl)
respond-Quiet [] false true e = cc
respond-Quiet [] false false e = (refl, refl)
respond-Quiet (c ∷ cs) false done e = (e, refl)

step-Quiet :
    (e : Event) (es : List Event) (w : ChunkedWriter)
    → IsOpen (e ∷ es)
    → w.done ≡ false
    → Quiet (step e w) × IsOpen es
unfolding step write_chunk written chunk_response
step-Quiet (written_to c) es w unflushed d = elim (Bool-cases (is_empty c)) [
  | inl t ↦ rw t ((d, refl), unflushed)
  | inr t ↦ rw t (respond-Quiet (w.chunks ++ chunk_text c ∷ []) w.writing w.done d, unflushed)
]
step-Quiet flushed es w unflushed d = elim unflushed [ ]
step-Quiet write_ended es w unflushed d = (respond-Quiet w.chunks false w.done d, unflushed)

run-Quiet : (es : List Event) (w : ChunkedWriter) → IsOpen es → w.done ≡ false → Quiet (run es w)
unfolding run
run-Quiet [] w unflushed d = (d, refl)
run-Quiet (e ∷ es) w unflushed d =
    let first : Quiet (step e w) × IsOpen es = step-Quiet e es w unflushed d in
    let then_rest : Quiet (run es (step e w).0) = run-Quiet es (step e w).0 first.1 first.0.0 in
    (
      then_rest.0,
      completions-append (step e w).1 (run es (step e w).0).1
          ∙ omega (arith, first.0.1, then_rest.1),
    )

-- `flush` completes nothing at once: its last chunk has to be written.
flush_quiet : (w : ChunkedWriter) → completions (step flushed w).1 ≡ 0
unfolding step flush chunk_response
flush_quiet w = queued w.chunks w.writing
  where
    queued :
        (cs : List Bytes) (writing : Bool)
        → completions (respond (cs ++ last_chunk ∷ []) writing true).1 ≡ 0
    queued cs true = refl
    queued [] false = refl
    queued (c ∷ cs) false = refl

completions-wrote : (cs : List Bytes) → completions (map wrote cs ++ response_complete ∷ []) ≡ 1
completions-wrote [] = refl
completions-wrote (c ∷ cs) = completions-wrote cs

-- The events from `flush` on, with as many ends of writes as it takes.
pub record Finished (es : List Event) (w : ChunkedWriter) : Type 0 where
  pub rounds : ℕ
  pub state :
      (run (es ++ flushed ∷ ends rounds) w).0 ≡ record { chunks = []; writing = false; done = true }
  pub once : completions (run (es ++ flushed ∷ ends rounds) w).1 ≡ 1

flush_run :
    (w : ChunkedWriter) (cs : List Bytes)
    → (step flushed w).0 ≡ finishing cs
    → run (flushed ∷ ends (suc (length cs))) w ≡ (
      record { chunks = []; writing = false; done = true },
      (step flushed w).1 ++ (map wrote cs ++ response_complete ∷ []),
    )
unfolding run
flush_run w cs e =
    ap
      (λ (x : ChunkedWriter). (
        (run (ends (suc (length cs))) x).0,
        (step flushed w).1 ++ (run (ends (suc (length cs))) x).1,
      ))
      e
    ∙ ap {B = ChunkedWriter × List Effect} (λ p. (p.0, (step flushed w).1 ++ p.1))
        (run-finishing cs)

pub run-Finished :
    (es : List Event) (w : ChunkedWriter) → IsOpen es → w.done ≡ false → Finished es w
run-Finished es w unflushed d = record {
  rounds = rounds;
  state = ap (λ p. p.0) runs;
  once =
      ap (λ p. completions p.1) runs
      ∙ completions-append (run es w).1 _
      ∙ omega (
        arith,
        (run-Quiet es w unflushed d).1,
        completions-append (step flushed left).1 (map wrote queued ++ response_complete ∷ []),
        flush_quiet left,
        completions-wrote queued,
      );
}
  where
    left : ChunkedWriter
    left = (run es w).0

    queued : List Bytes
    queued = (flush-finishing (run es w).0).0

    rounds : ℕ
    rounds = suc (length (flush-finishing (run es w).0).0)

    runs : run (es ++ flushed ∷ ends rounds) w ≡ (
      record { chunks = []; writing = false; done = true },
      (run es w).1
          ++ ((step flushed (run es w).0).1
              ++ (map wrote (flush-finishing (run es w).0).0 ++ response_complete ∷ [])),
    )
    runs =
        run-append es (flushed ∷ ends rounds) w
        ∙ ap {B = ChunkedWriter × List Effect} (λ p. (p.0, (run es w).1 ++ p.1))
            (flush_run (run es w).0 (flush-finishing (run es w).0).0
              (flush-finishing (run es w).0).1)
