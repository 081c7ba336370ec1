-- ===== src/Path/Laws.antt =====
-- libraries/prio-http/src/path.cpp: what the request line gives, and how a url is cut.

use wpp.Prelude.{
  Bytes, ℕ, zero, suc, ◌+◌, ◌-◌, Bool, true, false, not, none, some, [], ◌∷◌, ◌++◌, ◌≡◌, ◌≢◌, ◌⊎◌,
  inl, inr, refl, sym, ap, ◌∙◌, arith, Lacks, append_assoc, find_char, find_char_from,
  find_char-append, find_char-Lacks, find_first, take, drop, take-length, drop-length,
  drop-suc-length, length, length-append, leb, ◌==◌, substr, is_empty, if◌then◌else◌, found,
  missing, find_char-cases,
}
use mathlib.Core.Path.{subst}
use wpp.Path.{
  PathInfo, query_at, path_at, querystring, path_of, not_space_from, parse_protocol, parse_path_end,
  parse_path, parse_method, parse,
}

query_ends : (p q : Bytes) → leb (length (p ++ b'?' ∷ q) - 1) (length p) ≡ is_empty q
query_ends p [] = ground (arith, length-append {0} p (b'?' ∷ []))
query_ends p (c ∷ q) = ground (arith, length-append {0} p (b'?' ∷ c ∷ q))

cut_text :
    (p q : Bytes)
    → Lacks b'?' p
    → (path_at (p ++ b'?' ∷ q) (find_char b'?' (p ++ b'?' ∷ q)) ≡ p)
      × (query_at (p ++ b'?' ∷ q) (find_char b'?' (p ++ b'?' ∷ q)) ≡ q)
unfolding path_at query_at
cut_text p q h = (
  rw (find_char-append b'?' p q h) (take-length p (b'?' ∷ q)),
  rw (find_char-append b'?' p q h, query_ends p q) (rest p q),
)
  where
    rest : (p q : Bytes) → (if is_empty q then [] else drop (length p + 1) (p ++ b'?' ∷ q)) ≡ q
    rest p [] = refl
    rest p (c ∷ q) =
        ap (λ (n : ℕ). drop n (p ++ b'?' ∷ c ∷ q)) {y = suc (length p)} (omega arith)
        ∙ drop-suc-length p b'?' (c ∷ q)

-- A url with a `?` is the path, the first `?` and the query string; one without is the path, and its
-- query string is empty.
pub url_parts :
    (p : PathInfo)
    → ((p.path ≡ path_of p ++ b'?' ∷ querystring p) × Lacks b'?' (path_of p))
      ⊎ (Lacks b'?' p.path × (path_of p ≡ p.path) × (querystring p ≡ []))
unfolding path_of querystring
url_parts p = elim (find_char-cases b'?' p.path) [
  | found i at f ↦
      let (path_eq, query_eq) = cut_text f.front f.back f.front_lacks in
      let cut = λ (s : Bytes). path_at s (find_char b'?' s) in
      let query = λ (s : Bytes). query_at s (find_char b'?' s) in
      let pe : cut p.path ≡ f.front = ap cut f.splits ∙ path_eq in
      let qe : query p.path ≡ f.back = ap query f.splits ∙ query_eq in
      inl (f.splits ∙ (λ i. sym pe i ++ b'?' ∷ sym qe i), subst (Lacks b'?') (sym pe) f.front_lacks)
  | missing at h ↦ inr (h, rw at, rw at)
]

unfoldable pub spaces : ℕ → Bytes
spaces zero = []
spaces (suc n) = 32 ∷ spaces n

abbrev visible : ℕ → Bool
visible c = not (c == 32)

find_first-spaces :
    (n x : ℕ) (r : Bytes)
    → x ≢ 32
    → find_first visible (spaces n ++ x ∷ r) ≡ some (length (spaces n))
unfolding find_first spaces
find_first-spaces zero x r h = ground arith
find_first-spaces (suc n) x r h = rw (find_first-spaces n x r h)

-- Searches that start behind a known front.
not_space_at :
    (line front : Bytes) (n x : ℕ) (r : Bytes)
    → line ≡ front ++ (spaces n ++ x ∷ r)
    → x ≢ 32
    → not_space_from line (length front) ≡ some (length (front ++ spaces n))
unfolding not_space_from
not_space_at line front n x r e h = rw (
  e,
  drop-length front (spaces n ++ x ∷ r),
  find_first-spaces n x r h,
  length-append front (spaces n),
)

space_at :
    (line front q r : Bytes)
    → line ≡ front ++ (q ++ 32 ∷ r)
    → Lacks 32 q
    → find_char_from 32 line (length front) ≡ some (length (front ++ q))
space_at line front q r e h =
    rw (e, drop-length front (q ++ 32 ∷ r), find_char-append 32 q r h, length-append front q)

cut_at :
    (line front q r : Bytes)
    → line ≡ front ++ (q ++ r)
    → substr line (length front) (length (front ++ q) - length front) ≡ q
cut_at line front q r e =
    rw (e, drop-length front (q ++ r), length-append front q)
      (ap (λ (n : ℕ). take n (q ++ r)) {y = length q} (omega arith) ∙ take-length q r)

-- A request line of a method, a path and a protocol with one blank or more between them.
unfoldable pub request_line : Bytes → ℕ → Bytes → ℕ → Bytes → Bytes
unfolding spaces
request_line m a q b proto = m ++ (spaces (suc a) ++ (q ++ (spaces (suc b) ++ proto)))

-- A request line of a method and a path with no space in them and a protocol, with one space or
-- more between them, gives these three; nothing else of the object changes.
pub parse-request_line :
    (m : Bytes) (a x : ℕ) (q : Bytes) (b y : ℕ) (proto : Bytes) (p : PathInfo)
    → Lacks 32 m
    → Lacks 32 (x ∷ q)
    → y ≢ 32
    → parse (request_line m a (x ∷ q) b (y ∷ proto)) p
      ≡ (record p { method = m; path = x ∷ q; protocol = y ∷ proto }, true)
unfolding parse parse_method parse_path parse_path_end parse_protocol request_line
parse-request_line m a x q b y proto p hm (hx, hq) hy =
    rw
      (
        at_method,
        at_path,
        path_end,
        at_protocol,
        take-length m _,
        cut_at line front2 (x ∷ q) _ (sym assoc2),
      )
      (rw behind)
  where
    line : Bytes
    line = request_line m a (x ∷ q) b (y ∷ proto)

    front2 : Bytes
    front2 = m ++ spaces (suc a)

    front3 : Bytes
    front3 = front2 ++ x ∷ q

    front4 : Bytes
    front4 = front3 ++ spaces (suc b)

    assoc2 : front2 ++ (x ∷ q ++ (spaces (suc b) ++ y ∷ proto)) ≡ line
    assoc2 = append_assoc m (spaces (suc a)) _

    assoc3 : front3 ++ (spaces (suc b) ++ y ∷ proto) ≡ line
    assoc3 = append_assoc front2 (x ∷ q) _ ∙ assoc2

    assoc4 : front4 ++ y ∷ proto ≡ line
    assoc4 = append_assoc front3 (spaces (suc b)) (y ∷ proto) ∙ assoc3

    at_method : find_char 32 line ≡ some (length m)
    at_method = unfold spaces in find_char-append 32 m _ hm

    at_path : not_space_from line (length m) ≡ some (length front2)
    at_path = not_space_at line m (suc a) x _ refl hx

    path_end : find_char_from 32 line (length front2) ≡ some (length front3)
    path_end = unfold spaces in space_at line front2 (x ∷ q) _ (sym assoc2) (hx, hq)

    at_protocol : not_space_from line (length front3) ≡ some (length front4)
    at_protocol = not_space_at line front3 (suc b) y proto (sym assoc3) hy

    behind : drop (length front4) line ≡ y ∷ proto
    behind = ap (drop (length front4)) (sym assoc4) ∙ drop-length front4 (y ∷ proto)

-- A line of one word, or of two with one space or more between them, is refused. Of the second kind
-- the method is kept all the same.
pub parse_short :
    (m : Bytes) (a x : ℕ) (q : Bytes) (p : PathInfo)
    → Lacks 32 m
    → Lacks 32 (x ∷ q)
    → (parse m p ≡ (p, false))
      × (parse (m ++ (32 ∷ spaces a ++ x ∷ q)) p ≡ (record p { method = m }, false))
unfolding parse parse_method parse_path parse_path_end spaces
parse_short m a x q p hm (hx, hq) =
    (rw (find_char-Lacks 32 m hm), rw (at_method, at_path, no_end, take-length m _))
  where
    line : Bytes
    line = m ++ (spaces (suc a) ++ x ∷ q)

    front : Bytes
    front = m ++ spaces (suc a)

    assoc : front ++ x ∷ q ≡ line
    assoc = append_assoc m (spaces (suc a)) _

    at_method : find_char 32 line ≡ some (length m)
    at_method = find_char-append 32 m _ hm

    at_path : not_space_from line (length m) ≡ some (length front)
    at_path = not_space_at line m (suc a) x _ refl hx

    no_end : find_char_from 32 line (length front) ≡ none
    no_end =
        ap (λ (s : Bytes). find_char_from 32 s (length front)) (sym assoc)
        ∙ rw (drop-length front (x ∷ q), find_char-Lacks 32 (x ∷ q) (hx, hq))
