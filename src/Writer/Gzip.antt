-- ===== src/Writer/Gzip.antt =====
-- libraries/prio-http/src/server_writer.cpp: a compressed body behind the headers of the plain one.
use wpp.Prelude.{
  Bytes, Bool, true, false, some, List, [], ◌∷◌, if◌then◌else◌, ◌≡◌, ◌≢◌, refl, sym, ap, ◌∙◌,
  length, is_empty, is_empty_ne, codes,
}
use wpp.Prelude.Decimal.{print_nat}
use wpp.Text.{split}
use wpp.Headers.{Header, get_in}
use wpp.Response.{
  Response, flush_headers, set_status, status_words, with_status, to_string, set_body,
}
use wpp.Response.Framing.{
  Ends, bind-Ends, Frames, plain_length, chunked_coding, flush_headers-Frames,
}
use wpp.Writer.{plain_flush, gzip_flush}

-- What a status leaves alone.
abbrev content : Response → List Header × Bytes
content r = (r.headers.headers, r.body)

status_words-content : (ws : List Bytes) (r : Response) → content (status_words ws r) ≡ content r
status_words-content [] r = refl
status_words-content (w ∷ []) r = refl
status_words-content (w ∷ x ∷ ws) r = refl

with_status-content : (r : Response) → content (with_status r) ≡ content r
unfolding with_status set_status
with_status-content r = either (is_empty r.status)
  where
    either :
        (b : Bool)
        → content (if b then set_status (codes "HTTP/1.0 500 Error") r else r) ≡ content r
    either true =
        status_words-content (split (codes "HTTP/1.0 500 Error") b' ')
          (record r { status = codes "HTTP/1.0 500 Error" })
    either false = refl

-- Headers that have been sent are not made again.
pub plain_flush_sent :
    (keep : Bool) (r : Response) → r.headers_sent ≡ true → plain_flush keep r ≡ some (to_string r)
unfolding plain_flush flush_headers
plain_flush_sent keep r e = simp e

resent :
    (keep : Bool) (z : Bytes) (s : Response)
    → s.headers_sent ≡ true
    → z ≢ []
    → plain_flush keep (set_body z s) ≡ some (to_string (record s { body = z }))
unfolding set_body
resent keep z s e ne = rw (is_empty_ne z ne) (plain_flush_sent keep (record s { body = z }) e)

-- A compressed response that is not chunked goes out with the length of its plain body: the headers
-- are made before the body is replaced. The conditions are that no framing header was set and that
-- the compressed body is not empty.
pub gzip_flush-length :
    (compress : Bytes → Bytes) (keep : Bool) (r : Response)
    → r.headers_sent ≡ false
    → r.is_chunked ≡ false
    → Frames (false, []) (false, []) r.headers
    → compress r.body ≢ []
    → Ends
        (λ (p : Response × Bytes).
          (p.0.body ≡ compress r.body)
          × (get_in (codes "Content-Length") p.0.headers.headers ≡ print_nat (length r.body)))
        (gzip_flush compress keep r)
unfolding gzip_flush to_string
gzip_flush-length compress keep r unsent plain fresh ne =
    bind-Ends
      (λ (s : Response).
        (s.headers_sent ≡ true)
        × ((s.body ≡ r.body)
            × Frames (plain_length r.is_chunked r.body) (chunked_coding r.is_chunked) s.headers))
      _ _ _ (flush_headers-Frames keep r unsent fresh)
      (λ s (sent, (same, (cl, te))).
        let z : compress s.body ≢ [] = λ e. ne (ap compress (sym same) ∙ e) in
        rw (resent keep (compress s.body) s sent z) (
          ap (λ p. p.1) (with_status-content (record s { body = compress s.body }))
              ∙ ap compress same,
          ap (λ p. get_in (codes "Content-Length") p.0)
                (with_status-content (record s { body = compress s.body }))
              ∙ ap (λ p. p.1) cl
              ∙ ap (λ (b : Bool). (plain_length b r.body).1) plain,
        ))
