-- ===== src/Redis/Commands.antt =====
-- Commands as `Serializer` of libraries/repro-redis/include/reproredis/redis.h writes them.
use wpp.Prelude.{
  Bytes, ℕ, suc, ◌^◌, ◌≤◌, ◌<◌, List, [], ◌∷◌, ◌++◌, append_assoc, length, All, ◌≡◌, refl, sym, ap,
  ◌∙◌, ◌≢◌,
}
use wpp.Prelude.Decimal.{print_nat}
use wpp.Redis.{
  Replies, bulk, array, no_more, item, count, Input, crlf, read_reply, serialize, serialize_args,
}
use wpp.Redis.Lines.{stream, IsInput, Gives}
use wpp.Redis.Printer.{line, print, print_items, IsReply, AreReplies}
use wpp.Redis.RoundTrip.{line-append, read_reply-print}

-- The arguments of a command as a server reads them.
abbrev pub bulks : List Bytes → Replies
bulks [] = no_more
bulks (s ∷ args) = item (bulk (length s) s) (bulks args)

-- What is no problem for a bulk string.
abbrev pub IsArgument : Bytes → Type 0
IsArgument s = (s ≢ []) × (length s < 2 ^ 63)

pub bulks-AreReplies : (args : List Bytes) → All IsArgument args → AreReplies (bulks args)
unfolding IsReply
bulks-AreReplies [] h = tt
bulks-AreReplies (s ∷ args) ((ne, small), h) = ((refl, (ne, small)), bulks-AreReplies args h)

count-bulks : (args : List Bytes) → count (bulks args) ≡ length args
count-bulks [] = refl
count-bulks (s ∷ args) = ap suc (count-bulks args)

serialize_args-bulks : (args : List Bytes) → serialize_args args ≡ print_items (bulks args)
unfolding print serialize_args
serialize_args-bulks [] = refl
serialize_args-bulks (s ∷ args) = rw (serialize_args-bulks args) (
    sym (
      append_assoc (line b'$' (print_nat (length s))) (s ++ crlf) (print_items (bulks args))
      ∙ line-append b'$' (print_nat (length s)) ((s ++ crlf) ++ print_items (bulks args))
      ∙ ap (λ (t : Bytes). b'$' ∷ (print_nat (length s) ++ (crlf ++ t)))
          (append_assoc s crlf (print_items (bulks args)))))

pub serialize-bulks : (args : List Bytes) → serialize args ≡ print (array (bulks args))
unfolding print serialize
serialize-bulks args =
    rw (serialize_args-bulks args, count-bulks args)
      (sym (line-append b'*' (print_nat (length args)) (print_items (bulks args))))

-- A command as `Serializer` writes it reads, in the protocol, as the array of its arguments, none
-- of which is empty, whatever the chunks.
pub read_reply-serialize :
    (args : List Bytes) (rest : Bytes) (i : Input) (fuel : ℕ)
    → length (serialize args) ≤ fuel
    → length args < 2 ^ 63
    → All IsArgument args
    → IsInput i
    → stream i ≡ serialize args ++ rest
    → Gives (read_reply fuel i) (array (bulks args)) rest
read_reply-serialize args rest i fuel enough small h inside e =
    let s : serialize args ≡ print (array (bulks args)) = serialize-bulks args in
    read_reply-print (array (bulks args)) rest i fuel (rw (sym s) enough)
      (unfold IsReply in (rw (count-bulks args) small, bulks-AreReplies args h)) inside
      (e ∙ ap (λ (t : Bytes). t ++ rest) s)
