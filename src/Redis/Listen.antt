-- ===== src/Redis/Listen.antt =====
-- Replies in a row: the loop of `RedisParser::listen`, and what an empty bulk string leaves behind
-- (libraries/repro-redis/src/redis.cpp).
use wpp.Prelude.{
  Bytes, ℕ, suc, ◌≤◌, Bool, false, List, [], ◌∷◌, ◌++◌, append_assoc, length, length-append, map,
  All, some, codes, str_eq, ◌≡◌, refl, ◌∙◌, arith,
}
use wpp.Redis.{
  Reply, bulk, array, Input, Parse, resolved, rejected, fault, out_of_fuel, and_then, crlf,
  read_line, make_reply, read_bulk, read_reply, read_items, listen, on_reply, listen_turn,
  listen_items,
}
use wpp.Prelude.Decimal.{print_nat, skip_space}
use wpp.Prelude.Long.{read_long, scan_long, clamp_long}
use wpp.Redis.Lines.{stream, IsInput, Gives, line_from-Gives}
use wpp.Redis.Printer.{print, IsReply}
use wpp.Redis.RoundTrip.{read_reply-line, read_reply-print}
use wpp.Redis.Commands.{bulks, IsArgument, bulks-AreReplies}

-- The push of a message on a channel.
abbrev pub push : Bytes × Bytes → Reply
push (channel, message) = array (bulks (codes "message" ∷ channel ∷ message ∷ []))

abbrev pub pushes : List (Bytes × Bytes) → Bytes
pushes [] = []
pushes (m ∷ ms) = print (push m) ++ pushes ms

abbrev pub IsMessage : Bytes × Bytes → Type 0
IsMessage (channel, message) = IsArgument channel × IsArgument message

-- A turn of `shutdown` that stays unset for each message.
abbrev pub running : List (Bytes × Bytes) → List Bool
running ms = map (λ m. false) ms

push-IsReply : (m : Bytes × Bytes) → IsMessage m → IsReply (push m)
unfolding IsReply
push-IsReply (channel, message) (hc, hm) = (
  omega arith,
  bulks-AreReplies (codes "message" ∷ channel ∷ message ∷ [])
      (((λ e. cc e), omega arith), (hc, (hm, tt))),
)

listen_turn-push : (m : Bytes × Bytes) → listen_turn (push m) ≡ some m
unfolding listen_turn listen_items str_eq
listen_turn-push (channel, message) = refl

-- The turn of the loop that takes the first message.
on_reply-push :
    (p : Parse Reply) (m : Bytes × Bytes) (ms : List (Bytes × Bytes)) (rest : Bytes)
    (next : Input → List (Bytes × Bytes))
    → Gives p (push m) rest
    → ((j : Input) → IsInput j → stream j ≡ rest → next j ≡ ms)
    → on_reply p next ≡ m ∷ ms
unfolding on_reply
on_reply-push (resolved r j) m ms rest next (e, (inside, left)) then_ms =
    rw (e, listen_turn-push m, then_ms j inside left) refl
on_reply-push rejected m ms rest next h then_ms = elim h [ ]
on_reply-push fault m ms rest next h then_ms = elim h [ ]
on_reply-push out_of_fuel m ms rest next h then_ms = elim h [ ]

-- Messages that are pushed one behind the other, with channels and texts that are not empty, are
-- handed on by `listen`, all and in order, as long as it is not shut down.
pub listen-pushes :
    (ms : List (Bytes × Bytes)) (rest : Bytes) (i : Input) (fuel : ℕ)
    → length (pushes ms) ≤ fuel
    → All IsMessage ms
    → IsInput i
    → stream i ≡ pushes ms ++ rest
    → listen fuel (running ms) i ≡ ms
unfolding listen
listen-pushes [] rest i fuel enough h inside e = refl
listen-pushes (m ∷ ms) rest i fuel enough (hm, h) inside e =
    on_reply-push (read_reply fuel i) m ms (pushes ms ++ rest) (λ j. listen fuel (running ms) j)
      (read_reply-print (push m) (pushes ms ++ rest) i fuel
        (omega (arith, length-append {0} (print (push m)) (pushes ms))) (push-IsReply m hm) inside
        (e ∙ append_assoc (print (push m)) (pushes ms) rest))
      (λ j inside' e'.
        listen-pushes ms rest j fuel (omega (arith, length-append {0} (print (push m)) (pushes ms)))
          h inside' e')

fault_after :
    {A B : Type 0} (p : Parse A) (a : A) (rest : Bytes) (f : A → Input → Parse B)
    → Gives p a rest
    → ((j : Input) → IsInput j → stream j ≡ rest → f a j ≡ fault)
    → and_then p f ≡ fault
fault_after (resolved b j) a rest f (e, (inside, left)) next = rw e (next j inside left)
fault_after rejected a rest f h next = elim h [ ]
fault_after fault a rest f h next = refl
fault_after out_of_fuel a rest f h next = elim h [ ]

-- What stands behind the two lines of an empty bulk string.
after_empty :
    (rest : Bytes) (fuel : ℕ) (j : Input)
    → IsInput j
    → stream j ≡ crlf ++ rest
    → read_reply (suc fuel) j ≡ fault
unfolding read_reply read_line make_reply
after_empty rest fuel j inside e =
    fault_after (read_line j) [] rest (λ cmd l. make_reply (λ size. read_items fuel size 0) cmd l)
      (line_from-Gives [] rest tt j.incoming j.buffer j.pos inside e) (λ l inside' left. refl)

empty-Gives :
    (rest : Bytes) (fuel : ℕ) (i : Input)
    → IsInput i
    → stream i ≡ print (bulk 0 []) ++ rest
    → Gives (read_reply (suc fuel) i) (bulk 0 []) (crlf ++ rest)
unfolding print print_nat make_reply read_long scan_long clamp_long skip_space read_bulk
empty-Gives rest fuel i inside e =
    read_reply-line fuel b'$' (codes "0") (crlf ++ rest) (crlf ++ rest) (bulk 0 []) i (ground arith)
      (ground arith, tt) inside e (λ j inside' left. (refl, (inside', left)))

-- Behind an empty bulk string its line end is left, and the next read of the parser has a null
-- result.
pub read_reply-empty_bulk :
    (rest : Bytes) (fuel : ℕ) (i : Input)
    → IsInput i
    → stream i ≡ print (bulk 0 []) ++ rest
    → and_then (read_reply (suc fuel) i) (λ r j. read_reply (suc fuel) j) ≡ fault
read_reply-empty_bulk rest fuel i inside e =
    fault_after (read_reply (suc fuel) i) (bulk 0 []) (crlf ++ rest)
      (λ r j. read_reply (suc fuel) j) (empty-Gives rest fuel i inside e)
      (λ j inside' left. after_empty rest fuel j inside' left)
