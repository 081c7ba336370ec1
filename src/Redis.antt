-- ===== src/Redis.antt =====
-- libraries/repro-redis/src/redis.cpp: the parser of replies, and libraries/repro-redis/include/
-- reproredis/redis.h: the serializer of commands. A promise that waits for `con->read()` is a recursion
-- on the chunks that are still to come; the read that fails is the end of these.
pub mod Lines
pub mod Printer
pub mod RoundTrip
pub mod Commands
pub mod Fuel
pub mod Listen
use wpp.Prelude.{
  Bytes, ℕ, zero, suc, ◌+◌, ◌-◌, ◌%◌, ◌^◌, Bool, true, false, Option, none, some, List, [], ◌∷◌,
  ◌++◌, if◌then◌else◌, codes, find_str, take, drop, substr, length, leb, ◌==◌, str_eq, not, ◌||◌,
  ltb,
}
use wpp.Prelude.Decimal.{ℤ, pos, negsuc, print_nat}
use wpp.Prelude.Long.{scan_long, read_long, to_size}

mutual
  -- The subclasses of `RedisResult`. A bulk string has its size, and a null one or a null array none.
  pub data Reply : Type 0 where
    error : Bytes → Reply
    simple : Bytes → Reply
    integer : Bytes → Reply
    bulk : ℕ → Bytes → Reply
    nil_bulk : Reply
    array : Replies → Reply
    nil_array : Reply

  pub data Replies : Type 0 where
    no_more : Replies
    item : Reply → Replies → Replies

abbrev pub count : Replies → ℕ
count no_more = 0
count (item r rs) = suc (count rs)

-- `buffer` and `pos` of a `RedisParser`, and what its connection is still going to read.
pub record Input : Type 0 where
  pub buffer : Bytes
  pub pos : ℕ
  pub incoming : List Bytes

-- A promise: resolved, rejected since a read failed, undefined behaviour (a null result, or a size that
-- was not set), or a model out of fuel.
pub data Parse {ℓ} (A : Type ℓ) : Type ℓ where
  resolved : A → Input → Parse A
  rejected : Parse A
  fault : Parse A
  out_of_fuel : Parse A

abbrev pub and_then {ℓ κ} : {A : Type ℓ} {B : Type κ} → Parse A → (A → Input → Parse B) → Parse B
and_then (resolved a i) f = f a i
and_then rejected f = rejected
and_then fault f = fault
and_then out_of_fuel f = out_of_fuel

abbrev pub crlf : Bytes
crlf = codes "\r\n"

-- `RedisArrayResult::read` up to the line that it hands to `parse_response`.
unfoldable pub line_from : List Bytes → Bytes → ℕ → Parse Bytes
line_from [] buffer start = elim (find_str crlf (drop start buffer)) [
  | some i ↦
      resolved (substr buffer start i)
        (record { buffer = buffer; pos = start + (i + 2); incoming = [] })
  | none ↦ rejected
]
line_from (s ∷ ss) buffer start = elim (find_str crlf (drop start buffer)) [
  | some i ↦
      resolved (substr buffer start i)
        (record { buffer = buffer; pos = start + (i + 2); incoming = s ∷ ss })
  | none ↦ line_from ss (buffer ++ s) start
]

unfoldable pub read_line : Input → Parse Bytes
unfolding line_from find_str
read_line i = line_from i.incoming i.buffer i.pos

-- `RedisBulkStringResult::parse_response`; the sum `size_ + 2` is one of `size_t`.
abbrev pub with_end : ℕ → ℕ
with_end size = (size + 2) % 2 ^ 64

unfoldable pub bulk_from : ℕ → List Bytes → Bytes → ℕ → Parse Reply
bulk_from size [] buffer start = elim (leb (with_end size) (length buffer - start)) [
  | true ↦
      resolved (bulk size (substr buffer start size))
        (record { buffer = buffer; pos = start + with_end size; incoming = [] })
  | false ↦ rejected
]
bulk_from size (s ∷ ss) buffer start = elim (leb (with_end size) (length buffer - start)) [
  | true ↦
      resolved (bulk size (substr buffer start size))
        (record { buffer = buffer; pos = start + with_end size; incoming = s ∷ ss })
  | false ↦ bulk_from size ss (buffer ++ s) start
]

-- `RedisBulkStringResult::parse`.
unfoldable pub read_bulk : ℕ → Input → Parse Reply
unfolding bulk_from
read_bulk size i =
    if size == 2 ^ 64 - 1
    then resolved nil_bulk i
    else if size == 0
    then resolved (bulk 0 []) i
    else bulk_from size i.incoming i.buffer i.pos

abbrev pub is_size : ℤ → ℕ → Bool
is_size (pos n) k = n == k
is_size (negsuc n) k = false

-- `RedisArrayResult::parse`, with the loop over its elements as an argument.
unfoldable pub read_array : (ℤ → Input → Parse Replies) → ℤ → Input → Parse Reply
read_array elements (negsuc zero) i = resolved nil_array i
read_array elements (pos zero) i = resolved (array no_more) i
read_array elements size i = and_then (elements size i) (λ rs j. resolved (array rs) j)

-- The result of a size that `resultFactory` reads.
abbrev pub of_size : (ℤ → Parse Reply) → Option ℤ → Parse Reply
of_size next none = fault
of_size next (some size) = next size

-- `resultFactory(cmd)` and the `parse` of the result. Another first byte leaves a null pointer.
unfoldable pub make_reply : (ℤ → Input → Parse Replies) → Bytes → Input → Parse Reply
unfolding read_bulk read_array read_long
make_reply elements [] i = fault
make_reply elements (c ∷ cmd) i =
    if c == b'-'
    then resolved (error cmd) i
    else if c == b'+'
    then resolved (simple cmd) i
    else if c == b':'
    then resolved (integer cmd) i
    else if c == b'$'
    then of_size (λ size. read_bulk (to_size size) i) (read_long cmd)
    else if c == b'*'
    then of_size (λ size. read_array elements size i) (read_long cmd)
    else fault

unfoldable mutual
  unfolding make_reply read_line

  -- One element, and the elements of an array of which `k` are there.
  pub read_reply : ℕ → Input → Parse Reply
  read_reply zero i = out_of_fuel
  read_reply (suc fuel) i =
      and_then (read_line i) (λ cmd j. make_reply (λ size. read_items fuel size 0) cmd j)

  pub read_items : ℕ → ℤ → ℕ → Input → Parse Replies
  read_items zero size k i = out_of_fuel
  read_items (suc fuel) size k i = and_then (read_reply fuel i) (λ r j.
      elim (is_size size (suc k)) [
        | true ↦ resolved (item r no_more) j
        | false ↦ and_then (read_items fuel size (suc k) j) (λ rs l. resolved (item r rs) l)
      ])

-- The virtual functions of `RedisResult`; no subclass overrides `isError`.
abbrev pub is_error : Reply → Bool
is_error r = false

abbrev pub is_array : Reply → Bool
is_array (array rs) = true
is_array nil_array = true
is_array _ = false

abbrev pub is_nill : Reply → Bool
is_nill nil_bulk = true
is_nill nil_array = true
is_nill _ = false

abbrev pub str : Reply → Bytes
str (error s) = s
str (simple s) = s
str (integer s) = s
str (bulk size s) = s
str _ = []

-- `integer()`. `none`: it returns a number that was not set.
abbrev pub integer_of : Reply → Option ℤ
integer_of (array rs) = some (pos 0)
integer_of nil_array = some (pos 0)
integer_of r = read_long (str r)

abbrev pub size_of : Reply → ℕ
size_of (error s) = length s
size_of (simple s) = length s
size_of (integer s) = length s
size_of (bulk size s) = size
size_of nil_bulk = 2 ^ 64 - 1
size_of (array rs) = count rs
size_of nil_array = 2 ^ 64 - 1

-- What `listen` makes of one reply: the channel and the message, or a throw (`none`).
unfoldable pub listen_items : Replies → Option (Bytes × Bytes)
listen_items (item a (item b (item c rs))) =
    if str_eq (str a) (codes "message") then some (str b, str c) else none
listen_items _ = none

unfoldable pub listen_turn : Reply → Option (Bytes × Bytes)
unfolding listen_items
listen_turn (array rs) = listen_items rs
listen_turn _ = none

-- The callback of one turn, and the callbacks of the next turns behind it.
abbrev pub on_message : Option (Bytes × Bytes) → List (Bytes × Bytes) → List (Bytes × Bytes)
on_message none next = []
on_message (some message) next = message ∷ next

unfoldable pub on_reply : Parse Reply → (Input → List (Bytes × Bytes)) → List (Bytes × Bytes)
unfolding listen_turn
on_reply (resolved r j) next = on_message (listen_turn r) (next j)
on_reply rejected next = []
on_reply fault next = []
on_reply out_of_fuel next = []

-- `listen` for the values of `shutdown` at its turns: the callbacks in order, until a throw, a failed
-- read or a shutdown ends it.
unfoldable pub listen : ℕ → List Bool → Input → List (Bytes × Bytes)
unfolding on_reply read_reply
listen fuel [] i = []
listen fuel (true ∷ later) i = []
listen fuel (false ∷ later) i = on_reply (read_reply fuel i) (λ j. listen fuel later j)

-- `Serializer::serialize` of the arguments as they are printed.
unfoldable pub serialize_args : List Bytes → Bytes
serialize_args [] = []
serialize_args (s ∷ args) =
    b'$' ∷ (print_nat (length s) ++ (crlf ++ (s ++ (crlf ++ serialize_args args))))

unfoldable pub serialize : List Bytes → Bytes
unfolding serialize_args
serialize args = b'*' ∷ (print_nat (length args) ++ (crlf ++ serialize_args args))
