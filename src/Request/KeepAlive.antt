-- ===== src/Request/KeepAlive.antt =====
-- libraries/prio-http/src/request.cpp and header.cpp: whether a parsed request keeps its connection.
use wpp.Prelude.{
  Bytes, ℕ, Bool, ◌&&◌, true, false, List, [], ◌∷◌, ◌++◌, ◌≡◌, ◌≢◌, refl, arith, All, Lacks, codes,
  str_eq, lower, c_str, case_eq, ltb, ◌==◌, to_lower,
}
use wpp.Text.Split.{IsPart}
use wpp.Headers
use wpp.Headers.{Header}
use wpp.Headers.RoundTrip.{IsText, block}
use wpp.Request.{Request, returned, parse, keep_alive}
use wpp.Request.Parse.{words, received, parse_lem}

and_false : (b : Bool) → (b && false) ≡ false
and_false true = refl
and_false false = refl

-- Text with a carriage return at its end is no text that lacks one, in any case.
returned_differs :
    (p t : Bytes) → Lacks 0 p → Lacks b'\r' t → str_eq (lower (c_str (p ++ b'\r' ∷ []))) t ≡ false
unfolding str_eq lower c_str
returned_differs [] [] h k = refl
returned_differs [] (x ∷ t) h (hx, k) = ground arith
returned_differs (c ∷ p) [] (hc, h) k = let e : (c == 0) ≡ false = ground arith in rw e
returned_differs (c ∷ p) (x ∷ t) (hc, h) (hx, k) =
    let e : (c == 0) ≡ false = ground arith in
    rw (e, returned_differs p t h k) (and_false (to_lower c == x))

-- A request with a line of three words, whose protocol holds no NUL, and with header lines but no
-- `Connection` header is parsed, and does not keep its connection, whatever its protocol: the
-- carriage return behind the protocol makes the comparison with HTTP/1.1 fail.
pub keep_alive_parsed :
    (m q : Bytes) (y : ℕ) (proto : Bytes) (h : Header) (hs : List Header) (r : Request)
    → IsPart 32 m
    → IsPart 32 q
    → y ≢ 32
    → Lacks b'\n' (words m q (y ∷ proto))
    → Lacks 0 (y ∷ proto)
    → All IsText (h ∷ hs)
    → Headers.get (codes "Connection") (received (h ∷ hs)) ≡ []
    → (b : Bool) × (r' : Request) × (parse
          (words m q (y ∷ proto) ++ (b'\r' ∷ b'\n' ∷ block (h ∷ hs)))
          r
        ≡ returned b r')
      × (keep_alive r' ≡ false)
unfolding keep_alive Headers.keep_alive case_eq
keep_alive_parsed m q y proto h hs r hm hq hy feed nul ls none = (
  ltb 0 (Headers.content_length (received (h ∷ hs))),
  _,
  parse_lem m q y proto h hs r hm hq hy feed ls,
  rw none (returned_differs (y ∷ proto) _ nul (omega arith)),
)
