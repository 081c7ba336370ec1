-- ===== src/Translations.antt =====
-- libraries/repro-web/src/i18n.cpp: class `I18N`, from the lines of its files on. The regular expression of
-- a key is a parameter: `regex_search` gives the submatches behind the whole match.
pub mod Render
use wpp.Prelude.{
  Bytes, ℕ, zero, suc, ◌+◌, Bool, true, false, Option, none, some, List, [], ◌∷◌, ◌++◌,
  if◌then◌else◌, codes, find_str, take, drop, length, find_char,
}
use wpp.Prelude.Maps.{find, put, is_some}
use wpp.Text.{split}

-- `map_`: for each locale its texts; the empty locale has the base texts.
abbrev pub Texts : Type 0
Texts = List (Bytes × List (Bytes × Bytes))

abbrev pub or_no_texts : Option (List (Bytes × Bytes)) → List (Bytes × Bytes)
or_no_texts none = []
or_no_texts (some m) = m

-- `map_[locale]`.
abbrev pub texts_of : Bytes → Texts → List (Bytes × Bytes)
texts_of locale m = or_no_texts (find locale m)

-- The language of a locale that is not there.
abbrev pub language_of : List Bytes → Texts → Bytes
language_of (lang ∷ country ∷ []) m = if is_some (find lang m) then lang else []
language_of _ m = []

unfoldable pub find_locale : Bytes → Texts → Bytes
find_locale locale m = if is_some (find locale m) then locale else language_of (split locale b'_') m

-- `get_key`: the text of the locale, the base text, or the key.
abbrev pub first_text : Option Bytes → Option Bytes → Bytes → Bytes
first_text (some v) base k = v
first_text none (some v) k = v
first_text none none k = k

unfoldable pub get_key : Bytes → Bytes → Texts → Bytes
get_key locale k m = first_text (find k (texts_of locale m)) (find k (texts_of [] m)) k

unfoldable pub key : Bytes → Bytes → Texts → Bytes
unfolding find_locale get_key
key locale k m = get_key (find_locale locale m) k m

-- One line `key=value`, and all lines of a file, comments and continuations being resolved.
abbrev pub set_text : Option ℕ → Bytes → Bytes → Texts → Texts
set_text none locale line m = m
set_text (some pos) locale line m =
    put locale (put (take pos line) (drop (suc pos) line) (texts_of locale m)) m

unfoldable pub set_texts : Bytes → List Bytes → Texts → Texts
set_texts locale [] m = m
set_texts locale (line ∷ lines) m =
    set_texts locale lines (set_text (find_char b'=' line) locale line m)

abbrev pub opening : Bytes
opening = codes "<!--#i18n"

-- A text that is rendered, or the message that takes its place.
pub data Rendered : Type 0 where
  text : Bytes → Rendered
  message : Bytes → Rendered
  out_of_fuel : Rendered

abbrev pub in_front : Bytes → Rendered → Rendered
in_front p (text s) = text (p ++ s)
in_front p (message s) = message s
in_front p out_of_fuel = out_of_fuel

-- What a key becomes: itself, where neither map has it.
abbrev pub value_of : Bytes → Bytes → Texts → Bytes
value_of locale k m =
    if is_some (find k (texts_of locale m))
    then get_key locale k m
    else if is_some (find k (texts_of [] m))
    then get_key locale k m
    else k

module _ (regex_search : Bytes → Option (List Bytes)) (value : Bytes → Bytes) where
  -- A comment behind `p`, with `rest` rendered behind it.
  abbrev pub put_value : Option (List Bytes) → Bytes → Rendered → Rendered
  put_value none p rest = message (codes "invalid i18n comment")
  put_value (some []) p rest = message (codes "invalid i18n key")
  put_value (some (k ∷ ms)) p rest = in_front (p ++ value k) rest

  unfoldable pub render_loop : ℕ → Bytes → Rendered
  unfolding find_str
  render_loop zero txt = out_of_fuel
  render_loop (suc fuel) txt = elim (find_str opening txt) [
    | none ↦ text txt
    | some i ↦ elim (find_str (codes "-->") (drop (i + 9) txt)) [
      | none ↦ message (codes "error unterminated i18n comment")
      | some e ↦
          put_value (regex_search (take (9 + e + 3) (drop i txt))) (take i txt)
            (render_loop fuel (drop (i + 9 + e + 3) txt))
    ]
  ]

-- `render`.
unfoldable pub render : (Bytes → Option (List Bytes)) → Bytes → Bytes → Texts → Rendered
unfolding find_locale render_loop get_key
render regex_search locale txt m =
    let found = find_locale locale m in
    render_loop regex_search (λ k. value_of found k m) (suc (length txt)) txt
