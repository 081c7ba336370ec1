-- ===== src/Request/Parse.antt =====
-- libraries/prio-http/src/request.cpp: what `HttpRequest::parse` makes of a request as a client sends it.
use wpp.Prelude.{
  Bytes, ℕ, zero, suc, Bool, true, false, Option, some, List, [], ◌∷◌, map, ◌++◌, ◌≡◌, ◌≢◌, refl,
  sym, ap, ◌∙◌, arith, All, Lacks, All-append, append_assoc, find_char, find_char-append,
  take-length, drop-suc-length, ltb,
}
use mathlib.Core.Path.{subst}
use wpp.Text.{split}
use wpp.Text.Split.{IsPart, split-append}
use wpp.Text.Words.{split_str-split}
use wpp.Headers
use wpp.Headers.{Header, Headers, no_headers}
use wpp.Headers.RoundTrip.{tidy, IsText, block}
use wpp.Headers.RoundTrip as HeaderText
use wpp.Path
use wpp.Path.{PathInfo}
use wpp.Path.Laws.{spaces, request_line, parse-request_line}
use wpp.Request.{
  Request, returned, first_line, finish, parse_rest, parse_action, parse_parts, parse,
}

-- The words of a request line: no blank, carriage return or line feed in them.
abbrev pub IsWord : Bytes → Type 0
IsWord s = (s ≢ []) × Lacks 32 s × Lacks b'\n' s

first_line_lem :
    (line rest : Bytes)
    → Lacks b'\n' line
    → first_line (line ++ b'\n' ∷ rest) (find_char b'\n' (line ++ b'\n' ∷ rest)) ≡ (line, rest)
unfolding first_line
first_line_lem line rest h = rw (
  find_char-append b'\n' line rest h,
  take-length line (b'\n' ∷ rest),
  drop-suc-length line b'\n' rest,
)

split_three :
    (m q proto : Bytes)
    → IsPart 32 m
    → IsPart 32 q
    → split (m ++ (32 ∷ (q ++ (32 ∷ proto)))) 32 ≡ m ∷ q ∷ split proto 32
split_three m q proto hm hq =
    split-append 32 m (q ++ (32 ∷ proto)) hm ∙ ap (◌∷◌ m) (split-append 32 q proto hq)

-- `action` cuts a line of three words at its blanks.
set_action-words :
    (m q proto : Bytes) (p : PathInfo)
    → IsPart 32 m
    → IsPart 32 q
    → Path.set_action (m ++ (32 ∷ (q ++ (32 ∷ proto)))) p
      ≡ some (record p { action = m ++ (32 ∷ (q ++ (32 ∷ proto))); method = m; path = q })
unfolding Path.set_action
set_action-words m q proto p hm hq =
    rw (split_str-split (m ++ (32 ∷ (q ++ (32 ∷ proto)))) 32, split_three m q proto hm hq)

abbrev pub headers_of : List Header → Headers
headers_of hs = record no_headers { headers = hs }

-- The headers, as `parse` makes them of their lines.
abbrev pub received : List Header → Headers
received hs = headers_of (map tidy hs)

-- The path information that a request line of three words gives.
abbrev pub words : Bytes → Bytes → Bytes → Bytes
words m q proto = m ++ (32 ∷ (q ++ (32 ∷ proto)))

abbrev pub path_from : Bytes → Bytes → Bytes → PathInfo → PathInfo
path_from m q proto p = record p {
  action = words m q proto;
  method = m;
  path = q;
  protocol = proto;
}

parse-words :
    (m q : Bytes) (y : ℕ) (proto : Bytes) (p : PathInfo)
    → Lacks 32 m
    → IsPart 32 q
    → y ≢ 32
    → Path.parse (words m q (y ∷ proto)) p
      ≡ (record p { method = m; path = q; protocol = y ∷ proto }, true)
parse-words m [] y proto p hm hq hy = absurd (hq.0 refl)
parse-words m (x ∷ q) y proto p hm hq hy =
    unfold request_line spaces in parse-request_line m 0 x q 0 y proto p hm hq.1 hy

parse_parts-words :
    (m q : Bytes) (y : ℕ) (proto rest : Bytes) (r : Request)
    → IsPart 32 m
    → IsPart 32 q
    → y ≢ 32
    → parse_parts (words m q (y ∷ proto), rest) r
      ≡ finish (Headers.parse rest) (record r { path = path_from m q (y ∷ proto) r.path; size = 0 })
unfolding parse_parts parse_rest
parse_parts-words m q y proto rest r hm hq hy =
    ap (λ (path : Option PathInfo). parse_action path (words m q (y ∷ proto)) rest r)
      (set_action-words m q (y ∷ proto) r.path hm hq)
    ∙ ap
        (λ (called : PathInfo × Bool). parse_rest called rest (record r {
          path = record r.path { action = words m q (y ∷ proto); method = m; path = q };
          size = 0;
        }))
        (parse-words m q y proto
          (record r.path { action = words m q (y ∷ proto); method = m; path = q }) hm.1 hq hy)

-- The size is the content length, also where there is none.
finish_lem :
    (h : Headers) (r : Request) (len : ℕ)
    → Headers.content_length h ≡ len
    → r.size ≡ 0
    → finish (some h) r ≡ returned (ltb 0 len) (record r { headers = h; size = len })
unfolding finish
finish_lem h r zero e z =
    rw e (ap (λ (n : ℕ). returned false (record r { headers = h; size = n })) z)
finish_lem h r (suc n) e z = rw e (ground arith)

-- A request line of three words, the carriage return that ends it, and header lines: the request has
-- the method and the path of the line, the headers without blanks around their values, and as its size
-- the content length, and `parse` says whether that is positive. The carriage return stays behind the protocol.
pub parse_lem :
    (m q : Bytes) (y : ℕ) (proto : Bytes) (h : Header) (hs : List Header) (r : Request)
    → IsPart 32 m
    → IsPart 32 q
    → y ≢ 32
    → Lacks b'\n' (words m q (y ∷ proto))
    → All IsText (h ∷ hs)
    → parse (words m q (y ∷ proto) ++ (b'\r' ∷ b'\n' ∷ block (h ∷ hs))) r
      ≡ returned (ltb 0 (Headers.content_length (received (h ∷ hs)))) (record r {
        path = path_from m q ((y ∷ proto) ++ b'\r' ∷ []) r.path;
        headers = received (h ∷ hs);
        size = Headers.content_length (received (h ∷ hs));
      })
unfolding parse
parse_lem m q y proto h hs r hm hq hy feed ls =
    ap (λ (s : Bytes). parse_parts (first_line s (find_char b'\n' s)) r) text
    ∙ ap (λ (s : Bytes × Bytes). parse_parts s r)
        (first_line_lem (words m q (y ∷ (proto ++ b'\r' ∷ []))) (block (h ∷ hs)) returned_feed)
    ∙ parse_parts-words m q y (proto ++ b'\r' ∷ []) (block (h ∷ hs)) r hm hq hy
    ∙ ap (λ (hd : Option Headers). finish hd sized) (HeaderText.parse-texts h hs ls)
    ∙ finish_lem (received (h ∷ hs)) sized _ refl refl
  where
    sized : Request
    sized = record r { path = path_from m q (y ∷ (proto ++ b'\r' ∷ [])) r.path; size = 0 }

    line_end : words m q (y ∷ proto) ++ b'\r' ∷ [] ≡ words m q (y ∷ (proto ++ b'\r' ∷ []))
    line_end = simp append_assoc

    text :
        words m q (y ∷ proto) ++ (b'\r' ∷ b'\n' ∷ block (h ∷ hs))
        ≡ words m q (y ∷ (proto ++ b'\r' ∷ [])) ++ b'\n' ∷ block (h ∷ hs)
    text =
        sym (append_assoc (words m q (y ∷ proto)) (b'\r' ∷ []) _)
        ∙ ap (λ (s : Bytes). s ++ b'\n' ∷ block (h ∷ hs)) line_end

    returned_feed : Lacks b'\n' (words m q (y ∷ (proto ++ b'\r' ∷ [])))
    returned_feed =
        subst (Lacks b'\n') line_end
          (All-append (λ c. c ≢ b'\n') (words m q (y ∷ proto)) _ feed (omega arith, tt))
