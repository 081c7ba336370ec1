-- ===== src/Response/Payload.antt =====
-- libraries/prio-http/src/response.cpp: a response on the wire.
use wpp.Prelude.{
  Bytes, true, List, [], ◌∷◌, ◌++◌, ◌≡◌, ◌≢◌, refl, sym, ap, ◌∙◌, All, append_assoc, is_empty_ne,
  case_eq, case_eq_subst_right,
}
use wpp.Headers.{Header, get_in}
use wpp.Headers.RoundTrip.{IsLine, block, parse-block}
use wpp.Reader.{header_end}
use wpp.Request.Stream.{head_of}
use wpp.Response.{Response, to_string, with_status}

-- The payload is the head, the empty line and the body.
pub payload_parts :
    (r : Response) (h : Header) (hs : List Header)
    → r.status ≢ []
    → All IsLine (h ∷ hs)
    → r.headers.headers ≡ h ∷ hs
    → (to_string r).1 ≡ head_of r.status (h ∷ hs) ++ (header_end ++ r.body)
unfolding to_string with_status
payload_parts r h hs ne ls e =
    rw (is_empty_ne r.status ne, (parse-block h hs r.headers ls e).0)
      (ap (λ (t : Bytes). r.status ++ (b'\r' ∷ b'\n' ∷ t))
          (append_assoc (block (h ∷ hs)) header_end r.body)
        ∙ sym (append_assoc r.status (b'\r' ∷ b'\n' ∷ block (h ∷ hs)) (header_end ++ r.body)))

pub get_in-case : (a b : Bytes) (hs : List Header) → case_eq a b ≡ true → get_in a hs ≡ get_in b hs
unfolding get_in
get_in-case a b [] e = refl
get_in-case a b ((k, v) ∷ hs) e = rw (case_eq_subst_right a b k e, get_in-case a b hs e) refl
