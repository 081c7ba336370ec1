-- ===== src/Client/Parsing.antt =====
-- libraries/prio-http/src/client_conversation.cpp: `parse_headers` on the head of a response.

use wpp.Prelude.{
  Bytes, ℕ, suc, ◌+◌, ◌-◌, false, not, none, some, List, [], ◌∷◌, ◌++◌, ◌==◌, append_assoc, length,
  length-append, is_empty_ne, take, drop, take-length, drop-length, drop-suc-length, find_char,
  find_char-append, find_char_from, find_first, substr, All-append, Lacks, ◌≡◌, ◌≢◌, refl, sym, ap,
  ◌∙◌, arith,
}
use wpp.Prelude.Cuts.{find_char_from-front, find_char_from-missing, substr-front}
use wpp.Prelude.Decimal.{scan_int, skip_space}
use wpp.Text.{trim}
use wpp.Text.Trim.{StartsClear, EndsClear, trim_unique}
use wpp.Headers
use wpp.Headers.{Header, no_headers}
use wpp.Headers.RoundTrip.{block}
use wpp.Request.Stream.{head_of}
use wpp.Response.{Response, set_status}
use wpp.Client.{parsed, threw, framing, status_parts, parse_fields, parse_status, parse_headers}

-- A status line with a reason.
abbrev pub status_line : Bytes → Bytes → Bytes → Bytes
status_line proto code reason = proto ++ b' ' ∷ (code ++ b' ' ∷ reason)

status_parts_lem :
    (proto code reason : Bytes) (c : ℕ)
    → Lacks b' ' proto
    → Lacks b' ' (c ∷ code)
    → status_parts (status_line proto (c ∷ code) reason) ≡ some (proto, c ∷ code)
unfolding status_parts find_first
status_parts_lem proto code reason c hp (hc, h) =
    rw (status_parts, find_char-append b' ' proto ((c ∷ code) ++ b' ' ∷ reason) hp, second, third)
      (λ i. some (take-length proto (b' ' ∷ ((c ∷ code) ++ b' ' ∷ reason)) i, code_text i))
  where
    front : length proto + 1 ≡ length (proto ++ b' ' ∷ [])
    front = omega (arith, length-append {0} proto (b' ' ∷ []))

    line :
        status_line proto (c ∷ code) reason ≡ (proto ++ b' ' ∷ []) ++ ((c ∷ code) ++ b' ' ∷ reason)
    line = sym (append_assoc proto (b' ' ∷ []) ((c ∷ code) ++ b' ' ∷ reason))

    word_starts : find_first (λ d. not (d == b' ')) (b' ' ∷ ((c ∷ code) ++ b' ' ∷ reason)) ≡ some 1
    word_starts = let other : (c == b' ') ≡ false = ground arith in rw other refl

    second :
        find_first
          (λ d. not (d == b' '))
          (drop (length proto) (status_line proto (c ∷ code) reason))
        ≡ some 1
    second =
        ap (find_first (λ d. not (d == b' ')))
          (drop-length proto (b' ' ∷ ((c ∷ code) ++ b' ' ∷ reason)))
        ∙ word_starts

    third :
        find_char_from b' ' (status_line proto (c ∷ code) reason) (length proto + 1)
        ≡ some (length proto + 1 + length (c ∷ code))
    third =
        ap (λ (t : Bytes). find_char_from b' ' t (length proto + 1)) line
        ∙ find_char_from-front b' ' (proto ++ b' ' ∷ []) (c ∷ code) reason (length proto + 1) front
            (hc, h)

    code_text :
        substr
          (status_line proto (c ∷ code) reason)
          (length proto + 1)
          (length proto + 1 + length (c ∷ code) - (length proto + 1))
        ≡ c ∷ code
    code_text =
        ap
          (λ (t : Bytes).
            substr t (length proto + 1) (length proto + 1 + length (c ∷ code) - (length proto + 1)))
          line
        ∙ substr-front (proto ++ b' ' ∷ []) (c ∷ code) (b' ' ∷ reason) (length proto + 1)
            (length proto + 1 + length (c ∷ code) - (length proto + 1)) front (omega arith)

-- A line with two words only.
pub status_parts_short :
    (proto code : Bytes) (c : ℕ)
    → Lacks b' ' proto
    → Lacks b' ' (c ∷ code)
    → status_parts (proto ++ b' ' ∷ c ∷ code) ≡ none
unfolding status_parts find_first
status_parts_short proto code c hp (hc, h) =
    rw (status_parts, find_char-append b' ' proto (c ∷ code) hp, second, third) refl
  where
    front : length proto + 1 ≡ length (proto ++ b' ' ∷ [])
    front = omega (arith, length-append {0} proto (b' ' ∷ []))

    word_starts : find_first (λ d. not (d == b' ')) (b' ' ∷ c ∷ code) ≡ some 1
    word_starts = let other : (c == b' ') ≡ false = ground arith in rw other refl

    second :
        find_first (λ d. not (d == b' ')) (drop (length proto) (proto ++ b' ' ∷ c ∷ code)) ≡ some 1
    second =
        ap (find_first (λ d. not (d == b' '))) (drop-length proto (b' ' ∷ c ∷ code)) ∙ word_starts

    third : find_char_from b' ' (proto ++ b' ' ∷ c ∷ code) (length proto + 1) ≡ none
    third =
        ap (λ (t : Bytes). find_char_from b' ' t (length proto + 1))
          (sym (append_assoc proto (b' ' ∷ []) (c ∷ code)))
        ∙ find_char_from-missing b' ' (proto ++ b' ' ∷ []) (c ∷ code) (length proto + 1) front
            (hc, h)

first_cut :
    (status : Bytes) (hs : List Header)
    → Lacks b'\n' status
    → find_char b'\n' (head_of status hs) ≡ some (length (status ++ b'\r' ∷ []))
first_cut status hs free =
    ap (find_char b'\n') (sym (append_assoc status (b'\r' ∷ []) (b'\n' ∷ block hs)))
    ∙ find_char-append b'\n' (status ++ b'\r' ∷ []) (block hs)
        (All-append (λ c. c ≢ b'\n') status (b'\r' ∷ []) free (omega arith, tt))

-- The first line of a head, and what is behind it.
module _ (status : Bytes) (hs : List Header) (free : Lacks b'\n' status)
    (start : StartsClear status) (end : EndsClear status) (r : Response) where
  line_text : trim (take (length (status ++ b'\r' ∷ [])) (head_of status hs)) ≡ status
  line_text =
      ap (λ (t : Bytes). trim (take (length (status ++ b'\r' ∷ [])) t))
        (sym (append_assoc status (b'\r' ∷ []) (b'\n' ∷ block hs)))
      ∙ ap trim (take-length (status ++ b'\r' ∷ []) (b'\n' ∷ block hs))
      ∙ trim_unique [] status (b'\r' ∷ []) tt (unfold wpp.Text.is_blank in (refl, tt)) start end

  fields_text : drop (suc (length (status ++ b'\r' ∷ []))) (head_of status hs) ≡ block hs
  fields_text =
      ap (drop (suc (length (status ++ b'\r' ∷ []))))
        (sym (append_assoc status (b'\r' ∷ []) (b'\n' ∷ block hs)))
      ∙ drop-suc-length (status ++ b'\r' ∷ []) b'\n' (block hs)

  pub parse_headers_head :
      parse_headers (head_of status hs) r
      ≡ parse_status (status_parts status) (block hs) (set_status status (record r { size = 0 }))
  unfolding parse_headers
  parse_headers_head =
      rw (parse_headers, first_cut status hs free)
        (λ i.
          parse_status (status_parts (line_text i)) (fields_text i)
            (set_status (line_text i) (record r { size = 0 })))

  -- A head without a reason in its status line is thrown at.
  pub parse_headers_short : status_parts status ≡ none → parse_headers (head_of status hs) r ≡ threw
  unfolding parse_status
  parse_headers_short e =
      parse_headers_head
      ∙ ap (λ o. parse_status o (block hs) (set_status status (record r { size = 0 }))) e

-- What `parse_headers` makes of a head whose status line has its three parts.
pub parse_headers_lem :
    (proto code reason : Bytes) (c : ℕ) (hs : List Header) (r : Response)
    → Lacks b' ' proto
    → Lacks b' ' (c ∷ code)
    → skip_space (c ∷ code) ≢ []
    → Lacks b'\n' (status_line proto (c ∷ code) reason)
    → StartsClear (status_line proto (c ∷ code) reason)
    → EndsClear (status_line proto (c ∷ code) reason)
    → Headers.parse (block hs) ≡ some (record no_headers { headers = hs })
    → parse_headers (head_of (status_line proto (c ∷ code) reason) hs) r
      ≡ parsed (
          framing
            (record (set_status (status_line proto (c ∷ code) reason) (record r { size = 0 })) {
              proto = proto;
              status_code = scan_int (c ∷ code);
              headers = record no_headers { headers = hs };
            }))
unfolding parse_status parse_fields Headers.parse
parse_headers_lem proto code reason c hs r hp hc visible free start end e =
    let status = status_line proto (c ∷ code) reason in
    parse_headers_head (status_line proto (c ∷ code) reason) hs free start end r
    ∙ ap (λ o. parse_status o (block hs) (set_status status (record r { size = 0 })))
        (status_parts_lem proto code reason c hp hc)
    ∙ rw (parse_status, is_empty_ne (skip_space (c ∷ code)) visible, parse_fields, e) refl
