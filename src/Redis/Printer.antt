-- ===== src/Redis/Printer.antt =====
-- The protocol's text of a reply, and which replies it can carry.
use wpp.Prelude.{Bytes, ℕ, ◌^◌, ◌<◌, [], ◌∷◌, ◌++◌, length, Lacks, ◌≡◌, ◌≢◌}
use wpp.Prelude.Decimal.{negsuc, print_nat, print_int}
use wpp.Redis.{
  Reply, Replies, error, simple, integer, bulk, nil_bulk, array, nil_array, no_more, item, count,
  crlf,
}

-- A line behind its first byte.
abbrev pub line : ℕ → Bytes → Bytes
line c s = c ∷ (s ++ crlf)

unfoldable mutual
  -- The reference printer.
  pub print : Reply → Bytes
  print (error s) = line b'-' s
  print (simple s) = line b'+' s
  print (integer s) = line b':' s
  print (bulk size s) = line b'$' (print_nat size) ++ (s ++ crlf)
  print nil_bulk = line b'$' (print_int (negsuc 0))
  print (array rs) = line b'*' (print_nat (count rs)) ++ print_items rs
  print nil_array = line b'*' (print_int (negsuc 0))

  pub print_items : Replies → Bytes
  print_items no_more = []
  print_items (item r rs) = print r ++ print_items rs

unfoldable mutual
  pub IsReply : Reply → Type 0
  IsReply (error s) = Lacks b'\r' s
  IsReply (simple s) = Lacks b'\r' s
  IsReply (integer s) = Lacks b'\r' s
  IsReply (bulk size s) = (size ≡ length s) × ((s ≢ []) × (size < 2 ^ 63))
  IsReply nil_bulk = Unit
  IsReply (array rs) = (count rs < 2 ^ 63) × AreReplies rs
  IsReply nil_array = Unit

  pub AreReplies : Replies → Type 0
  AreReplies no_more = Unit
  AreReplies (item r rs) = IsReply r × AreReplies rs
