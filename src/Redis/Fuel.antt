-- ===== src/Redis/Fuel.antt =====
-- How far the parser of libraries/repro-redis/src/redis.cpp comes in its input, on any bytes.
use wpp.Prelude.{
  Bytes, ℕ, zero, suc, ◌+◌, ◌-◌, ◌*◌, ◌^◌, ◌≤◌, ◌<◌, Bool, true, false, List, [], ◌∷◌, ◌++◌, length,
  length-append, drop, find_str, find_str-bound, leb, Option, none, some, ◌==◌, if◌then◌else◌,
  Bool-cases, Option-cases, refl, inl, inr, arith,
}
use wpp.Prelude.Decimal.{ℤ, pos, negsuc}
use wpp.Prelude.Long.{read_long, to_size}
use wpp.Prelude.Cuts.{length-drop}
use mathlib.Core.List.{flatten}
use wpp.Redis.{
  Reply, Replies, of_size, array, Input, Parse, nil_bulk, error, simple, integer, is_size, resolved,
  rejected, fault, out_of_fuel, and_then, crlf, read_line, line_from, bulk_from, with_end,
  make_reply, read_bulk, read_array, read_reply, read_items,
}
use wpp.Redis.Lines.{stream, IsInput, later}

-- Not out of fuel, and a valid rest of less than `n` bytes where it is resolved.
abbrev pub LeavesBelow : ℕ → {A : Type 0} → Parse A → Type 0
LeavesBelow n (resolved a j) = IsInput j × (length (stream j) < n)
LeavesBelow n rejected = Unit
LeavesBelow n fault = Unit
LeavesBelow n out_of_fuel = ⊥

and_then-LeavesBelow :
    (n m : ℕ) {A B : Type 0} (p : Parse A) (f : A → Input → Parse B)
    → LeavesBelow n p
    → ((a : A) (j : Input) → IsInput j → length (stream j) < n → LeavesBelow m (f a j))
    → LeavesBelow m (and_then p f)
and_then-LeavesBelow n m (resolved a j) f (inside, less) next = next a j inside less
and_then-LeavesBelow n m rejected f h next = tt
and_then-LeavesBelow n m fault f h next = tt
and_then-LeavesBelow n m out_of_fuel f h next = elim h [ ]

if-LeavesBelow :
    (n : ℕ) (b : Bool) {A : Type 0} (p q : Parse A)
    → LeavesBelow n p
    → LeavesBelow n q
    → LeavesBelow n (if b then p else q)
if-LeavesBelow n true p q h k = h
if-LeavesBelow n false p q h k = k

-- The input behind `k` bytes of the buffer.
skip-LeavesBelow :
    (n k start : ℕ) (buffer : Bytes) (chunks : List Bytes) {A : Type 0} (a : A)
    → k ≤ length buffer - start
    → start ≤ length buffer
    → length (drop start buffer ++ flatten chunks) < n + k
    → LeavesBelow n (resolved a (record { buffer = buffer; pos = start + k; incoming = chunks }))
skip-LeavesBelow n k start buffer chunks a inside valid less = (
  omega arith,
  omega (
    arith,
    length-append {0} (drop start buffer) (flatten chunks),
    length-append {0} (drop (start + k) buffer) (flatten chunks),
    length-drop start buffer,
    length-drop (start + k) buffer,
  ),
)

line_from-LeavesBelow :
    (n : ℕ) (chunks : List Bytes) (buffer : Bytes) (start : ℕ)
    → start ≤ length buffer
    → length (drop start buffer ++ flatten chunks) < n + 2
    → LeavesBelow n (line_from chunks buffer start)
unfolding line_from flatten
line_from-LeavesBelow n [] buffer start valid less =
    elim (Option-cases (find_str crlf (drop start buffer))) [
      | inl f ↦ rw (LeavesBelow, f) tt
      | inr (i, f) ↦
          rw (LeavesBelow, f)
            (skip-LeavesBelow n (i + 2) start buffer [] buffer
              (omega (arith, find_str-bound crlf (drop start buffer) i f, length-drop start buffer))
              valid (omega arith))
    ]
line_from-LeavesBelow n (s ∷ ss) buffer start valid less =
    elim (Option-cases (find_str crlf (drop start buffer))) [
      | inl f ↦
          rw (LeavesBelow, f)
            (line_from-LeavesBelow n ss (buffer ++ s) start
              (omega (arith, length-append {0} buffer s))
              (rw (later buffer s ss start valid refl) less))
      | inr (i, f) ↦
          rw (LeavesBelow, f)
            (skip-LeavesBelow n (i + 2) start buffer (s ∷ ss) buffer
              (omega (arith, find_str-bound crlf (drop start buffer) i f, length-drop start buffer))
              valid (omega arith))
    ]

bulk_from-LeavesBelow :
    (n size : ℕ) (chunks : List Bytes) (buffer : Bytes) (start : ℕ)
    → start ≤ length buffer
    → length (drop start buffer ++ flatten chunks) < n
    → LeavesBelow n (bulk_from size chunks buffer start)
unfolding bulk_from flatten
bulk_from-LeavesBelow n size [] buffer start valid less =
    elim (Bool-cases (leb (with_end size) (length buffer - start))) [
      | inl f ↦
          rw (LeavesBelow, f)
            (skip-LeavesBelow n (with_end size) start buffer [] nil_bulk (ground arith) valid
              (omega arith))
      | inr f ↦ rw (LeavesBelow, f) tt
    ]
bulk_from-LeavesBelow n size (s ∷ ss) buffer start valid less =
    elim (Bool-cases (leb (with_end size) (length buffer - start))) [
      | inl f ↦
          rw (LeavesBelow, f)
            (skip-LeavesBelow n (with_end size) start buffer (s ∷ ss) nil_bulk (ground arith) valid
              (omega arith))
      | inr f ↦
          rw (LeavesBelow, f)
            (bulk_from-LeavesBelow n size ss (buffer ++ s) start
              (omega (arith, length-append {0} buffer s))
              (rw (later buffer s ss start valid refl) less))
    ]

module _ (n : ℕ) (elements : ℤ → Input → Parse Replies)
    (bounded : (size : ℤ) (j : Input)
      → IsInput j
      → length (stream j) < n
      → LeavesBelow n (elements size j)) where
  read_bulk-LeavesBelow :
      (size : ℕ) (j : Input) → IsInput j → length (stream j) < n → LeavesBelow n (read_bulk size j)
  unfolding read_bulk
  read_bulk-LeavesBelow size j valid less = elim (Bool-cases (size == 2 ^ 64 - 1)) [
    | inl f ↦ rw (LeavesBelow, f) (valid, less)
    | inr f ↦ elim (Bool-cases (size == 0)) [
      | inl g ↦ rw (LeavesBelow, f, g) (valid, less)
      | inr g ↦
          rw (LeavesBelow, f, g) (bulk_from-LeavesBelow n size j.incoming j.buffer j.pos valid less)
    ]
  ]

  some_elements :
      (size : ℤ) (j : Input)
      → IsInput j
      → length (stream j) < n
      → LeavesBelow n (and_then (elements size j) (λ rs l. resolved (array rs) l))
  some_elements size j valid less =
      and_then-LeavesBelow n n (elements size j) (λ rs l. resolved (array rs) l)
        (bounded size j valid less) (λ rs l valid' less'. (valid', less'))

  read_array-LeavesBelow :
      (size : ℤ) (j : Input)
      → IsInput j
      → length (stream j) < n
      → LeavesBelow n (read_array elements size j)
  unfolding read_array
  read_array-LeavesBelow (negsuc zero) j valid less = (valid, less)
  read_array-LeavesBelow (pos zero) j valid less = (valid, less)
  read_array-LeavesBelow (negsuc (suc k)) j valid less = some_elements (negsuc (suc k)) j valid less
  read_array-LeavesBelow (pos (suc k)) j valid less = some_elements (pos (suc k)) j valid less

  of_size-LeavesBelow :
      (next : ℤ → Parse Reply) (o : Option ℤ)
      → ((size : ℤ) → LeavesBelow n (next size))
      → LeavesBelow n (of_size next o)
  of_size-LeavesBelow next none h = tt
  of_size-LeavesBelow next (some size) h = h size

  make_reply-LeavesBelow :
      (cmd : Bytes) (j : Input)
      → IsInput j
      → length (stream j) < n
      → LeavesBelow n (make_reply elements cmd j)
  unfolding make_reply
  make_reply-LeavesBelow [] j valid less = tt
  make_reply-LeavesBelow (c ∷ cmd) j valid less =
      if-LeavesBelow n (c == b'-') (resolved (error cmd) j) _ (valid, less)
        (if-LeavesBelow n (c == b'+') (resolved (simple cmd) j) _ (valid, less)
          (if-LeavesBelow n (c == b':') (resolved (integer cmd) j) _ (valid, less)
            (if-LeavesBelow n (c == b'$') _ _
              (of_size-LeavesBelow (λ size. read_bulk (to_size size) j) (read_long cmd)
                (λ size. read_bulk-LeavesBelow (to_size size) j valid less))
              (if-LeavesBelow n (c == b'*') _ fault
                (of_size-LeavesBelow (λ size. read_array elements size j) (read_long cmd)
                  (λ size. read_array-LeavesBelow size j valid less))
                tt))))

read_line-LeavesBelow : (i : Input) → IsInput i → LeavesBelow (length (stream i) - 1) (read_line i)
unfolding read_line
read_line-LeavesBelow i valid =
    line_from-LeavesBelow (length (stream i) - 1) i.incoming i.buffer i.pos valid (omega arith)

-- What each amount of fuel is enough for.
abbrev Bounded : ℕ → Type 0
Bounded fuel =
    ((i : Input)
      → IsInput i
      → 2 * length (stream i) < fuel
      → LeavesBelow (length (stream i)) (read_reply fuel i))
    × ((size : ℤ) (k : ℕ) (i : Input)
        → IsInput i
        → 2 * length (stream i) + 1 < fuel
        → LeavesBelow (length (stream i)) (read_items fuel size k i))

module _ (fuel : ℕ) (smaller : Bounded fuel) where
  raise : (n m : ℕ) {A : Type 0} (p : Parse A) → n ≤ m → LeavesBelow n p → LeavesBelow m p
  raise n m (resolved a j) e (valid, less) = (valid, omega arith)
  raise n m rejected e h = tt
  raise n m fault e h = tt
  raise n m out_of_fuel e h = h

  reply-LeavesBelow :
      (i : Input)
      → IsInput i
      → 2 * length (stream i) < suc fuel
      → LeavesBelow (length (stream i)) (read_reply (suc fuel) i)
  unfolding read_reply
  reply-LeavesBelow i valid enough =
      and_then-LeavesBelow (length (stream i) - 1) (length (stream i)) (read_line i) _
        (read_line-LeavesBelow i valid)
        (λ cmd j valid' less.
          raise (length (stream i) - 1) (length (stream i))
            (make_reply (λ size. read_items fuel size 0) cmd j) (omega arith)
            (make_reply-LeavesBelow (length (stream i) - 1) (λ size. read_items fuel size 0)
              (λ size l valid'' less'.
                raise (length (stream l)) (length (stream i) - 1) (read_items fuel size 0 l)
                  (omega arith) (smaller.1 size 0 l valid'' (omega arith)))
              cmd j valid' less))

  items-LeavesBelow :
      (size : ℤ) (k : ℕ) (i : Input)
      → IsInput i
      → 2 * length (stream i) + 1 < suc fuel
      → LeavesBelow (length (stream i)) (read_items (suc fuel) size k i)
  unfolding read_reply
  items-LeavesBelow size k i valid enough =
      and_then-LeavesBelow (length (stream i)) (length (stream i)) (read_reply fuel i) _
        (smaller.0 i valid (omega arith))
        (λ r j valid' less. elim (Bool-cases (is_size size (suc k))) [
          | inl f ↦ rw (LeavesBelow, f) (valid', less)
          | inr f ↦
              rw (LeavesBelow, f)
                (and_then-LeavesBelow (length (stream j)) (length (stream i))
                  (read_items fuel size (suc k) j) _ (smaller.1 size (suc k) j valid' (omega arith))
                  (λ rs l valid'' less'. (valid'', omega arith)))
        ])

bounded : (fuel : ℕ) → Bounded fuel
bounded zero =
    ((λ i valid enough. absurd (omega arith)), (λ size k i valid enough. absurd (omega arith)))
bounded (suc fuel) = (reply-LeavesBelow fuel (bounded fuel), items-LeavesBelow fuel (bounded fuel))

-- On any bytes in any chunks, twice as many rounds as there are bytes, and one, are enough for the
-- parser: it resolves with less input left, at a valid position, or is rejected, or its behaviour
-- is undefined, by a null result or by a size that is read from blank text.
pub read_reply-LeavesBelow :
    (i : Input) (fuel : ℕ)
    → IsInput i
    → 2 * length (stream i) < fuel
    → LeavesBelow (length (stream i)) (read_reply fuel i)
read_reply-LeavesBelow i fuel valid enough = (bounded fuel).0 i valid enough
