-- ===== src/WebSocket/Arrivals.antt =====
-- libraries/repro-web/src/websocket.cpp: a read that is served from the bytes that have come in.
use wpp.Prelude.{
  Bytes, ℕ, suc, ◌==◌, ◌||◌, ◌≢◌, [], ◌∷◌, false, Option, some, ◌++◌, ◌≡◌, refl, ap, ◌∙◌, arith,
  length, length-append, take-length, drop-length, append-nil, ltb,
}
use wpp.WebSocket.{WsConnection, Read, Turn, quiet, then_do, deliver, serve, arrive}

module _ (on_msg : Bytes → WsConnection → Turn) where
  serve_at :
      (d s : Bytes) (r : Read) (ws : WsConnection)
      → d ≢ []
      → ws.reading ≡ some (r, length d)
      → serve on_msg ws.reading (d ++ s) ws ≡ some (s, deliver on_msg r d ws)
  unfolding serve
  serve_at [] s r ws ne at = absurd (ne refl)
  serve_at (x ∷ d) s r ws ne at =
      ap (λ (o : Option (Read × ℕ)). serve on_msg o ((x ∷ d) ++ s) ws) at
      ∙ rw (enough, take-length (x ∷ d) s, drop-length (x ∷ d) s) refl
    where
      enough : (suc (length d) == 0 || ltb (suc (length (d ++ s))) (suc (length d))) ≡ false
      enough = ground (arith, length-append d s)

  pub arrive_at :
      (n : ℕ) (d s : Bytes) (r : Read) (ws : WsConnection)
      → d ≢ []
      → ws.reading ≡ some (r, length d)
      → arrive on_msg (suc n) (d ++ s) ws ≡ (
        (arrive on_msg n s (deliver on_msg r d ws).0).0,
        then_do (deliver on_msg r d ws) (λ _. (arrive on_msg n s (deliver on_msg r d ws).0).1),
      )
  unfolding arrive
  arrive_at n d s r ws ne at = rw (arrive, serve_at d s r ws ne at) refl

  pub arrive_step :
      (n : ℕ) (d s : Bytes) (r : Read) (ws w : WsConnection)
      → d ≢ []
      → ws.reading ≡ some (r, length d)
      → deliver on_msg r d ws ≡ quiet w
      → arrive on_msg (suc n) (d ++ s) ws ≡ arrive on_msg n s w
  unfolding then_do
  arrive_step n d s r ws w ne at turn =
      arrive_at n d s r ws ne at
      ∙ ap (λ (t : Turn). ((arrive on_msg n s t.0).0, then_do t (λ _. (arrive on_msg n s t.0).1)))
          turn

  pub arrive_last :
      (d s : Bytes) (r : Read) (ws : WsConnection)
      → d ≢ []
      → ws.reading ≡ some (r, length d)
      → arrive on_msg 1 (d ++ s) ws ≡ (s, deliver on_msg r d ws)
  unfolding arrive then_do
  arrive_last d s r ws ne at =
      arrive_at 0 d s r ws ne at ∙ rw (append-nil (deliver on_msg r d ws).1) refl
