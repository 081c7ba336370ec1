-- ===== src/Tests/Replies.antt =====
-- Redis replies and commands at concrete inputs.
use wpp.Prelude.{Bytes, false, List, [], ◌∷◌, ◌≡◌, refl, codes, arith}
use mathlib.Core.List.{flatten}
use wpp.Prelude.Decimal.{print_nat, print_int}
use wpp.Redis.{
  Input, Reply, bulk, integer, nil_bulk, array, no_more, item, read_reply, listen, serialize,
  serialize_args,
}
use wpp.Redis.Lines.{Gives}
use wpp.Redis.Printer.{print, IsReply}
use wpp.Redis.RoundTrip.{read_reply-print}
use wpp.Redis.Commands.{bulks, read_reply-serialize}
use wpp.Redis.Listen.{listen-pushes}
use wpp.Redis.Fuel.{LeavesBelow, read_reply-LeavesBelow}
use wpp.Tests.Checks.{lacks_sound}

abbrev chunked : List Bytes → Input
chunked chunks = record { buffer = []; pos = 0; incoming = chunks }

-- An array of a bulk string, an integer and a null.
abbrev answer : Reply
answer = array (item (bulk 2 (codes "hi")) (item (integer (codes "7")) (item nil_bulk no_more)))

read_reply-print_example :
    Gives
      (read_reply 30
        (chunked (codes "*3\r" ∷ codes "\n$2\r\nh" ∷ codes "i\r\n:7\r\n$-1\r\n+OK" ∷ [])))
      answer
      (codes "+OK")
unfolding print print_int print_nat flatten IsReply serialize serialize_args
read_reply-print_example =
    read_reply-print answer (codes "+OK")
      (chunked (codes "*3\r" ∷ codes "\n$2\r\nh" ∷ codes "i\r\n:7\r\n$-1\r\n+OK" ∷ [])) 30
      (omega arith)
      ((
        (omega arith),
        ((refl, ((λ e. cc e), omega arith)), (lacks_sound b'\r' (codes "7") refl, (tt, tt))),
      ))
      (omega arith) (refl)

read_reply-serialize_example :
    Gives
      (read_reply 40 (chunked (serialize (codes "GET" ∷ codes "key" ∷ []) ∷ [])))
      (array (bulks (codes "GET" ∷ codes "key" ∷ [])))
      []
unfolding print print_int print_nat flatten IsReply serialize serialize_args
read_reply-serialize_example =
    read_reply-serialize (codes "GET" ∷ codes "key" ∷ []) []
      (chunked (serialize (codes "GET" ∷ codes "key" ∷ []) ∷ [])) 40 (omega arith) (omega arith)
      (((λ e. cc e), omega arith), (((λ e. cc e), omega arith), tt)) (omega arith) (refl)

-- Two messages on one channel, cut in the second.
abbrev first_chunk : Bytes
first_chunk = codes "*3\r\n$7\r\nmessage\r\n$2\r\nch\r\n$1\r\na\r\n*3\r\n$7\r\nmess"

abbrev second_chunk : Bytes
second_chunk = codes "age\r\n$2\r\nch\r\n$1\r\nb\r\n"

abbrev two_messages : List (Bytes × Bytes)
two_messages = (codes "ch", codes "a") ∷ (codes "ch", codes "b") ∷ []

listen-pushes_example :
    listen 100 (false ∷ false ∷ []) (chunked (first_chunk ∷ second_chunk ∷ [])) ≡ two_messages
unfolding print print_int print_nat flatten IsReply serialize serialize_args
listen-pushes_example =
    listen-pushes two_messages [] (chunked (first_chunk ∷ second_chunk ∷ [])) 100 (omega arith)
      (
        (((λ e. cc e), omega arith), ((λ e. cc e), omega arith)),
        ((((λ e. cc e), omega arith), ((λ e. cc e), omega arith)), tt),
      )
      (omega arith) (refl)

read_reply-LeavesBelow_example : LeavesBelow 5 (read_reply 11 (chunked (codes "*-2\r\n" ∷ [])))
unfolding print print_int print_nat flatten IsReply serialize serialize_args
read_reply-LeavesBelow_example =
    read_reply-LeavesBelow (chunked (codes "*-2\r\n" ∷ [])) 11 (omega arith) (omega arith)
