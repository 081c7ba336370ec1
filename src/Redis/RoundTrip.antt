-- ===== src/Redis/RoundTrip.antt =====
-- Replies as the protocol writes them, against the parser of libraries/repro-redis/src/redis.cpp.
use wpp.Prelude.{
  Bytes, ℕ, zero, suc, ◌+◌, ◌-◌, ◌^◌, ◌≤◌, ◌<◌, true, false, [], ◌∷◌, ◌++◌, append_assoc,
  append-nil, length, length-append, Lacks, ◌==◌, ◌≡◌, refl, sym, ap, ◌∙◌, ◌≢◌, arith,
}
use wpp.Prelude.Decimal.{pos, negsuc, print_nat, print_int, print_int-Lacks}
use wpp.Prelude.Long.{read_long-print_nat, read_long_minus_one}
use wpp.Redis.{
  Reply, Replies, error, simple, integer, bulk, nil_bulk, array, nil_array, no_more, item, count,
  Input, Parse, resolved, rejected, fault, out_of_fuel, and_then, crlf, read_line, read_bulk,
  read_array, make_reply, read_reply, read_items,
}
use wpp.Redis.Lines.{stream, IsInput, Gives, line_from-Gives, bulk_from-Gives}
use wpp.Redis.Printer.{line, print, print_items, IsReply, AreReplies}

and_then-Gives :
    {A B : Type 0} (p : Parse A) (f : A → Input → Parse B) (a : A) (b : B) (left rest : Bytes)
    → Gives p a left
    → ((j : Input) → IsInput j → stream j ≡ left → Gives (f a j) b rest)
    → Gives (and_then p f) b rest
and_then-Gives (resolved x j) f a b left rest (e, (inside, l)) next = rw e (next j inside l)
and_then-Gives rejected f a b left rest h next = elim h [ ]
and_then-Gives fault f a b left rest h next = elim h [ ]
and_then-Gives out_of_fuel f a b left rest h next = elim h [ ]

-- A line is read, and made a reply of.
pub read_reply-line :
    (fuel : ℕ) (c : ℕ) (cmd rest left : Bytes) (r : Reply) (i : Input)
    → b'\r' ≢ c
    → Lacks b'\r' cmd
    → IsInput i
    → stream i ≡ line c cmd ++ left
    → ((j : Input)
        → IsInput j
        → stream j ≡ left
        → Gives (make_reply (λ size. read_items fuel size 0) (c ∷ cmd) j) r rest)
    → Gives (read_reply (suc fuel) i) r rest
unfolding read_reply read_line
read_reply-line fuel c cmd rest left r i hc h inside e next =
    and_then-Gives (read_line i) (λ cmd j. make_reply (λ size. read_items fuel size 0) cmd j)
      (c ∷ cmd) r left rest
      (line_from-Gives (c ∷ cmd) left ((λ k. hc (sym k)), h) i.incoming i.buffer i.pos inside
        (e ∙ ap (λ (t : Bytes). c ∷ t) (append_assoc cmd crlf left)))
      next

read_bulk-Gives :
    (size : ℕ) (q rest : Bytes) (i : Input)
    → size ≡ length q
    → q ≢ []
    → size < 2 ^ 63
    → IsInput i
    → stream i ≡ (q ++ crlf) ++ rest
    → Gives (read_bulk size i) (bulk size q) rest
unfolding read_bulk
read_bulk-Gives size [] rest i len ne small inside e = absurd (ne refl)
read_bulk-Gives size (c ∷ q) rest i len ne small inside e =
    let m : (suc (length q) == 2 ^ 64 - 1) ≡ false = ground arith in
    let z : (suc (length q) == 0) ≡ false = ground arith in
    rw (len, m, z)
      (bulk_from-Gives (c ∷ q) rest (omega arith) i.incoming i.buffer i.pos inside
        (e ∙ append_assoc (c ∷ q) crlf rest))

-- What each amount of fuel is enough for.
abbrev Reads : ℕ → Type 0
Reads fuel =
    ((r : Reply) (rest : Bytes) (i : Input)
      → length (print r) ≤ suc fuel
      → IsReply r
      → IsInput i
      → stream i ≡ print r ++ rest
      → Gives (read_reply fuel i) r rest)
    × ((r : Reply) (rs : Replies) (rest : Bytes) (size k : ℕ) (i : Input)
        → length (print_items (item r rs)) ≤ fuel
        → AreReplies (item r rs)
        → IsInput i
        → size ≡ k + suc (count rs)
        → stream i ≡ print_items (item r rs) ++ rest
        → Gives (read_items fuel (pos size) k i) (item r rs) rest)

length-line : (c : ℕ) (s : Bytes) → length (line c s) ≡ length s + 3
length-line c s = omega (arith, length-append {0} s crlf)

pub line-append : (c : ℕ) (s r : Bytes) → line c s ++ r ≡ c ∷ (s ++ (crlf ++ r))
line-append c s r = ap (λ (t : Bytes). c ∷ t) (append_assoc s crlf r)

-- A printed reply has three bytes at least.
length-print : (r : Reply) → 3 ≤ length (print r)
unfolding print
length-print (error s) = omega (arith, length-line 0 s)
length-print (simple s) = omega (arith, length-line 0 s)
length-print (integer s) = omega (arith, length-line 0 s)
length-print (bulk size s) = omega (
  arith,
  length-line 0 (print_nat size),
  length-append {0} (line b'$' (print_nat size)) (s ++ crlf),
)
length-print nil_bulk = omega (arith, length-line 0 (print_int (negsuc 0)))
length-print (array rs) = omega (
  arith,
  length-line 0 (print_nat (count rs)),
  length-append {0} (line b'*' (print_nat (count rs))) (print_items rs),
)
length-print nil_array = omega (arith, length-line 0 (print_int (negsuc 0)))

module _ (fuel : ℕ) (smaller : Reads fuel) where
  array-Gives :
      (rs : Replies) (rest : Bytes) (j : Input)
      → length (print (array rs)) ≤ suc (suc fuel)
      → IsReply (array rs)
      → IsInput j
      → stream j ≡ print_items rs ++ rest
      → Gives (read_array (λ size. read_items fuel size 0) (pos (count rs)) j) (array rs) rest
  unfolding read_array print IsReply
  array-Gives no_more rest j enough (small, h) inside e = (refl, (inside, e))
  array-Gives (item r rs) rest j enough (small, h) inside e =
      and_then-Gives (read_items fuel (pos (suc (count rs))) 0 j) (λ rs' l. resolved (array rs') l)
        (item r rs) (array (item r rs)) rest rest
        (smaller.1 r rs rest (suc (count rs)) 0 j
          (omega (
            arith,
            length-line b'*' (print_nat (suc (count rs))),
            length-append {0} (line b'*' (print_nat (suc (count rs)))) (print r ++ print_items rs),
          ))
          h inside (omega arith) e)
        (λ l inside' e'. (refl, (inside', e')))

  reply-Gives :
      (r : Reply) (rest : Bytes) (i : Input)
      → length (print r) ≤ suc (suc fuel)
      → IsReply r
      → IsInput i
      → stream i ≡ print r ++ rest
      → Gives (read_reply (suc fuel) i) r rest
  unfolding print IsReply make_reply
  reply-Gives (error s) rest i enough h inside e =
      read_reply-line fuel b'-' s rest rest (error s) i (ground arith) h inside e
        (λ j inside' e'. (refl, (inside', e')))
  reply-Gives (simple s) rest i enough h inside e =
      read_reply-line fuel b'+' s rest rest (simple s) i (ground arith) h inside e
        (λ j inside' e'. (refl, (inside', e')))
  reply-Gives (integer s) rest i enough h inside e =
      read_reply-line fuel b':' s rest rest (integer s) i (ground arith) h inside e
        (λ j inside' e'. (refl, (inside', e')))
  reply-Gives (bulk size s) rest i enough (len, (ne, small)) inside e =
      read_reply-line fuel b'$' (print_nat size) rest ((s ++ crlf) ++ rest) (bulk size s) i
        (ground arith) (unfold print_int in print_int-Lacks b'\r' (pos size) refl (ground arith))
        inside (e ∙ append_assoc (line b'$' (print_nat size)) (s ++ crlf) rest)
        (λ j inside' e'.
          rw (read_long-print_nat size small)
            (read_bulk-Gives size s rest j len ne small inside' e'))
  reply-Gives nil_bulk rest i enough h inside e =
      read_reply-line fuel b'$' (print_int (negsuc 0)) rest rest nil_bulk i (ground arith)
        (print_int-Lacks b'\r' (negsuc 0) refl (ground arith)) inside e
        (λ j inside' e'.
          rw (make_reply, read_long_minus_one) (unfold read_bulk in (refl, (inside', e'))))
  reply-Gives (array rs) rest i enough h inside e =
      read_reply-line fuel b'*' (print_nat (count rs)) rest (print_items rs ++ rest) (array rs) i
        (ground arith)
        (unfold print_int in print_int-Lacks b'\r' (pos (count rs)) refl (ground arith)) inside
        (e ∙ append_assoc (line b'*' (print_nat (count rs))) (print_items rs) rest)
        (λ j inside' e'.
          rw (read_long-print_nat (count rs) h.0) (array-Gives rs rest j enough h inside' e'))
  reply-Gives nil_array rest i enough h inside e =
      read_reply-line fuel b'*' (print_int (negsuc 0)) rest rest nil_array i (ground arith)
        (print_int-Lacks b'\r' (negsuc 0) refl (ground arith)) inside e
        (λ j inside' e'.
          rw (make_reply, read_long_minus_one) (unfold read_array in (refl, (inside', e'))))

  items-Gives :
      (r : Reply) (rs : Replies) (rest : Bytes) (size k : ℕ) (i : Input)
      → length (print_items (item r rs)) ≤ suc fuel
      → AreReplies (item r rs)
      → IsInput i
      → size ≡ k + suc (count rs)
      → stream i ≡ print_items (item r rs) ++ rest
      → Gives (read_items (suc fuel) (pos size) k i) (item r rs) rest
  unfolding print IsReply read_reply
  items-Gives r no_more rest size k i enough (h, _) inside len e =
      and_then-Gives (read_reply fuel i) _ r (item r no_more) rest rest
        (smaller.0 r rest i (omega (arith, length-append {0} (print r) [])) h inside
          (e ∙ ap (λ (t : Bytes). t ++ rest) (append-nil (print r))))
        (λ j inside' e'.
          let last : (size == suc k) ≡ true = ground arith in
          rw (Gives, last) (refl, (inside', e')))
  items-Gives r (item q rs) rest size k i enough (h, hs) inside len e =
      and_then-Gives (read_reply fuel i) _ r (item r (item q rs)) (print_items (item q rs) ++ rest)
        rest
        (smaller.0 r (print_items (item q rs) ++ rest) i
          (omega (arith, length-append {0} (print r) (print_items (item q rs)))) h inside
          (e ∙ append_assoc (print r) (print_items (item q rs)) rest))
        (λ j inside' e'.
          let last : (size == suc k) ≡ false = ground arith in
          rw (Gives, last)
            (and_then-Gives (read_items fuel (pos size) (suc k) j) _ (item q rs)
              (item r (item q rs)) rest rest
              (smaller.1 q rs rest size (suc k) j
                (omega
                  (arith, length-append {0} (print r) (print_items (item q rs)), length-print r))
                hs inside' (omega arith) e')
              (λ l inside'' e''. (refl, (inside'', e'')))))

reads : (fuel : ℕ) → Reads fuel
unfolding print IsReply
reads zero = (
  (λ r rest i enough h inside e.
      let n : 3 ≤ length (print r) = length-print r in absurd (omega arith)),
  (λ r rs rest size k i enough h inside len e.
      let n : 3 ≤ length (print r) = length-print r in
      absurd (omega (arith, length-append {0} (print r) (print_items rs)))),
)
reads (suc fuel) = (reply-Gives fuel (reads fuel), items-Gives fuel (reads fuel))

-- A reply as the protocol writes it, arrays in arrays included, is read back whatever the chunks it
-- comes in, and what follows it is left. Lines must hold no carriage return, and bulk strings must
-- not be empty. The length of the text is enough fuel.
pub read_reply-print :
    (r : Reply) (rest : Bytes) (i : Input) (fuel : ℕ)
    → length (print r) ≤ fuel
    → IsReply r
    → IsInput i
    → stream i ≡ print r ++ rest
    → Gives (read_reply fuel i) r rest
read_reply-print r rest i fuel enough h inside e = (reads fuel).0 r rest i (omega arith) h inside e
