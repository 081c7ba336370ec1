-- ===== src/Text.antt =====
-- libraries/prio/src/common.cpp (`trim`) and libraries/prio-http/src/common.cpp (`unquote`,
-- `escape_html`, `unescape_html`, the `split` functions). A string is the list of its bytes.
-- The loops over an output stream return what they write.
pub mod Trim
pub mod Split
pub mod Words
pub mod Html
use wpp.Prelude.{
  Bytes, ℕ, suc, zero, ◌+◌, ◌-◌, Bool, true, false, not, ◌&&◌, ◌||◌, Option, none, some, List, [],
  ◌∷◌, ◌++◌, ◌==◌, leb, if◌then◌else◌, codes, length, take, drop, substr, str_eq, find_first,
  find_last, find_str, is_empty, get_or,
}

-- The bytes of " \t\r\n".
unfoldable pub is_blank : ℕ → Bool
is_blank c = c == 32 || c == 9 || c == 13 || c == 10

-- The cut of `trim`, at the positions that the two searches return.
pub trim_between : Bytes → Option ℕ → Option ℕ → Bytes
trim_between input none end = []
trim_between input (some start) none = substr input start (length input - 1 - start + 1)
trim_between input (some start) (some end) = substr input start (end - start + 1)

unfoldable pub trim : Bytes → Bytes
unfolding find_first find_last is_blank trim_between
trim input =
    trim_between input (find_first (λ c. not (is_blank c)) input)
      (find_last (λ c. not (is_blank c)) input)

-- A string of two bytes or more that begins and ends with `q`.
abbrev pub quoted_by : ℕ → Bytes → Bool
quoted_by q str = leb 2 (length str) && get_or str 0 0 == q && get_or str (length str - 1) 0 == q

unfoldable pub unquote : Bytes → Bytes
unquote str =
    if quoted_by b'"' str
    then substr str 1 (length str - 2)
    else if quoted_by b'\'' str
    then substr str 1 (length str - 2)
    else str

pub escape_char : ℕ → Bytes
escape_char c =
    if c == b'&'
    then codes "&amp;"
    else if c == b'<'
    then codes "&lt;"
    else if c == b'>'
    then codes "&gt;"
    else c ∷ []

unfoldable pub escape_html : Bytes → Bytes
unfolding escape_char
escape_html [] = []
escape_html (c ∷ s) = escape_char c ++ escape_html s

-- One round of the loop at a text that begins with `c`: what it writes, and how many bytes more
-- its `i += n` leaves out. A `&` that begins none of the three entities writes nothing.
pub unescape_char : ℕ → Bytes → Bytes × ℕ
unfolding str_eq
unescape_char c s =
    if c == b'&'
    then if str_eq (take 4 (c ∷ s)) (codes "&lt;")
      then (b'<' ∷ [], 3)
      else if str_eq (take 4 (c ∷ s)) (codes "&gt;")
      then (b'>' ∷ [], 3)
      else if str_eq (take 5 (c ∷ s)) (codes "&amp;")
      then (b'&' ∷ [], 4)
      else ([], 0)
    else (c ∷ [], 0)

-- The loop over `i`, with the bytes still to leave out.
pub unescape_loop : ℕ → Bytes → Bytes
unfolding unescape_char
unescape_loop skip [] = []
unescape_loop (suc skip) (c ∷ s) = unescape_loop skip s
unescape_loop zero (c ∷ s) = (unescape_char c s).0 ++ unescape_loop (unescape_char c s).1 s

unfoldable pub unescape_html : Bytes → Bytes
unfolding unescape_loop
unescape_html = unescape_loop 0

abbrev pub push_part : Bytes → List Bytes → List Bytes
push_part item elems = if is_empty item then elems else elems ++ item ∷ []

-- `getline(ss, item, delim)` in a loop. At the end of the stream an item with no byte is a failed
-- `getline`, which ends the loop as a dropped item would.
unfoldable pub split_loop : ℕ → Bytes → Bytes → List Bytes → List Bytes
split_loop delim [] item elems = push_part item elems
split_loop delim (c ∷ s) item elems = elim (c == delim) [
  | true ↦ split_loop delim s [] (push_part item elems)
  | false ↦ split_loop delim s (item ++ c ∷ []) elems
]

-- `split(s, char)`.
unfoldable pub split : Bytes → ℕ → List Bytes
unfolding split_loop
split s delim = split_loop delim s [] []

-- The loop of `split(s, string)` for a delimiter that is not empty. `none`: out of fuel.
unfoldable pub split_str_loop : ℕ → Bytes → Bytes → ℕ → List Bytes → Option (List Bytes)
unfolding find_str
split_str_loop zero s delim last elems = none
split_str_loop (suc fuel) s delim last elems = elim (find_str delim (drop last s)) [
  | none ↦ some (elems ++ (if leb (length s) last then [] else drop last s ∷ []))
  | some i ↦
      let tmp = substr s last i in
      split_str_loop fuel s delim (last + i + length delim)
        (if last + i == 0 then elems else push_part tmp elems)
]

-- `split(s, string)`.
unfoldable pub split_str : Bytes → Bytes → Option (List Bytes)
unfolding split_str_loop
split_str s delim = split_str_loop (suc (length s)) s delim 0 []
