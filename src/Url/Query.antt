-- ===== src/Url/Query.antt =====
-- libraries/prio/src/url.cpp: `setQuery` on what `getQuery` writes.

use wpp.Prelude.{
  Bytes, ℕ, zero, suc, ◌+◌, ◌-◌, ◌≤◌, some, none, List, [], ◌∷◌, ◌++◌, ◌≡◌, ◌≢◌, refl, sym, ap, ◌∙◌,
  arith, All, Lacks, length, length-append, append_assoc, drop, substr, find_char_from, is_empty_ne,
}
use wpp.Prelude.Cuts.{drop-front, find_char_from-front, find_char_from-missing, substr-front}
use wpp.Url.{query_loop, parse_query, write_param, write_params, query_of}

-- A parameter that a query can carry: its key has no `=`, and its value is not empty and has no `&`.
pub record IsEntry (p : Bytes × Bytes) : Type 0 where
  pub key_free : Lacks b'=' p.0
  pub value_free : Lacks b'&' p.1
  pub has_value : p.1 ≢ []

written : (p : Bytes × Bytes) → IsEntry p → write_param p ≡ p.0 ++ b'=' ∷ p.1
unfolding write_param
written p h = rw (is_empty_ne p.1 h.has_value) refl

-- The loop at the last parameter, and at one with others behind it.
last_entry :
    (fuel : ℕ) (front : Bytes) (p : Bytes × Bytes)
    → IsEntry p
    → query_loop (suc fuel) (front ++ (p.0 ++ b'=' ∷ p.1)) (length front) ≡ some (p ∷ [])
unfolding query_loop
last_entry fuel front p h =
    rw
      (
        query_loop,
        find_char_from-front b'=' front p.0 p.1 (length front) refl h.key_free,
        at_value,
        substr-front front p.0 (b'=' ∷ p.1) (length front)
            (length front + length p.0 - length front) refl (omega arith),
        behind,
      )
      refl
  where
    head : Bytes
    head = front ++ (p.0 ++ b'=' ∷ [])

    text : head ++ p.1 ≡ front ++ (p.0 ++ b'=' ∷ p.1)
    text = append_assoc front _ p.1 ∙ ap (λ (s : Bytes). front ++ s) (append_assoc p.0 _ p.1)

    place : length front + length p.0 + 1 ≡ length head
    place = omega (arith, length-append front (p.0 ++ b'=' ∷ []), length-append {0} p.0 (b'=' ∷ []))

    at_value :
        find_char_from b'&' (front ++ (p.0 ++ b'=' ∷ p.1)) (length front + length p.0 + 1) ≡ none
    at_value =
        ap (λ (s : Bytes). find_char_from b'&' s (length front + length p.0 + 1)) (sym text)
        ∙ find_char_from-missing b'&' head p.1 _ place h.value_free

    behind : drop (length front + length p.0 + 1) (front ++ (p.0 ++ b'=' ∷ p.1)) ≡ p.1
    behind = ap (drop (length front + length p.0 + 1)) (sym text) ∙ drop-front head p.1 _ place

next_entry :
    (fuel : ℕ) (front rest : Bytes) (p : Bytes × Bytes) (ps : List (Bytes × Bytes))
    → IsEntry p
    → query_loop fuel
        ((front ++ (p.0 ++ b'=' ∷ (p.1 ++ b'&' ∷ []))) ++ rest)
        (length (front ++ (p.0 ++ b'=' ∷ (p.1 ++ b'&' ∷ []))))
      ≡ some ps
    → query_loop (suc fuel) (front ++ (p.0 ++ b'=' ∷ (p.1 ++ b'&' ∷ rest))) (length front)
      ≡ some (p ∷ ps)
unfolding query_loop
next_entry fuel front rest p ps h later =
    rw
      (
        query_loop,
        find_char_from-front b'=' front p.0 (p.1 ++ b'&' ∷ rest) (length front) refl h.key_free,
        at_value,
        substr-front front p.0 (b'=' ∷ (p.1 ++ b'&' ∷ rest)) (length front)
            (length front + length p.0 - length front) refl (omega arith),
        value,
        after,
      )
      refl
  where
    whole : Bytes
    whole = front ++ (p.0 ++ b'=' ∷ (p.1 ++ b'&' ∷ rest))

    at : ℕ
    at = length front + length p.0 + 1

    head : Bytes
    head = front ++ (p.0 ++ b'=' ∷ [])

    text : head ++ (p.1 ++ b'&' ∷ rest) ≡ whole
    text = append_assoc front _ _ ∙ ap (λ (s : Bytes). front ++ s) (append_assoc p.0 _ _)

    place : at ≡ length head
    place = omega (arith, length-append front (p.0 ++ b'=' ∷ []), length-append {0} p.0 (b'=' ∷ []))

    at_value : find_char_from b'&' whole at ≡ some (at + length p.1)
    at_value =
        ap (λ (s : Bytes). find_char_from b'&' s at) (sym text)
        ∙ find_char_from-front b'&' head p.1 rest at place h.value_free

    value : substr whole at (at + length p.1 - (length front + length p.0) - 1) ≡ p.1
    value =
        ap (λ (s : Bytes). substr s at (at + length p.1 - (length front + length p.0) - 1))
          (sym text)
        ∙ substr-front head p.1 (b'&' ∷ rest) at _ place (omega arith)

    last : Bytes
    last = front ++ (p.0 ++ b'=' ∷ (p.1 ++ b'&' ∷ []))

    last_text : last ++ rest ≡ whole
    last_text =
        append_assoc front _ rest
        ∙ ap (λ (s : Bytes). front ++ s)
            (append_assoc p.0 _ rest
              ∙ ap (λ (s : Bytes). p.0 ++ b'=' ∷ s) (append_assoc p.1 (b'&' ∷ []) rest))

    last_place : length last ≡ at + length p.1 + 1
    last_place = omega (
      arith,
      length-append front (p.0 ++ b'=' ∷ (p.1 ++ b'&' ∷ [])),
      length-append {0} p.0 (b'=' ∷ (p.1 ++ b'&' ∷ [])),
      length-append {0} p.1 (b'&' ∷ []),
    )

    after : query_loop fuel whole (at + length p.1 + 1) ≡ some ps
    after = (λ i. query_loop fuel (sym last_text i) (sym last_place i)) ∙ later

entries :
    (fuel : ℕ) (front : Bytes) (p : Bytes × Bytes) (ps : List (Bytes × Bytes))
    → All IsEntry (p ∷ ps)
    → length (p ∷ ps) ≤ fuel
    → query_loop fuel (front ++ write_params (p ∷ ps)) (length front) ≡ some (p ∷ ps)
unfolding write_params
entries zero front p ps h le = absurd (omega arith)
entries (suc fuel) front p [] (h, _) le = rw (written p h) (last_entry fuel front p h)
entries (suc fuel) front p (q ∷ qs) (h, hs) le =
    ap (λ (s : Bytes). query_loop (suc fuel) (front ++ s) (length front))
      (rw (written p h) (append_assoc p.0 _ _))
    ∙ next_entry fuel front (write_params (q ∷ qs)) p (q ∷ qs) h
        (entries fuel _ q qs hs (omega arith))

length-write_params :
    (ps : List (Bytes × Bytes)) → All IsEntry ps → length ps ≤ length (write_params ps)
unfolding write_params
length-write_params [] h = omega arith
length-write_params (p ∷ []) (h, _) =
    rw (written p h) (omega (arith, length-append {0} p.0 (b'=' ∷ p.1)))
length-write_params (p ∷ q ∷ qs) (h, hs) = omega (
  arith,
  length-append {0} (write_param p) (b'&' ∷ write_params (q ∷ qs)),
  length-write_params (q ∷ qs) hs,
)

-- `setQuery` on what `getQuery` writes gives the parameters back, if each key has no `=`, and each
-- value is not empty and has no `&`.
pub parse_query-query_of :
    (ps : List (Bytes × Bytes)) → All IsEntry ps → parse_query (query_of ps) ≡ some ps
unfolding parse_query query_of
parse_query-query_of [] h = refl
parse_query-query_of (p ∷ ps) h =
    entries (suc (length (b'?' ∷ write_params (p ∷ ps)))) (b'?' ∷ []) p ps h
      (omega (arith, length-write_params (p ∷ ps) h))
