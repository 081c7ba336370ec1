-- ===== src/Tests/Templates.antt =====
-- Templates with includes at concrete inputs.
use wpp.Prelude.{
  Bytes, ℕ, zero, suc, Option, some, none, List, [], ◌∷◌, ◌≡◌, refl, codes, str_eq, if◌then◌else◌,
  arith,
}
use wpp.Ssi.{resolve, reject, run, started, fetched, failed}
use wpp.Ssi.Orders.{arrivals, run-arrivals}
use wpp.Ssi.Parts.{tag}
use wpp.Prelude.Maps.{find}
use wpp.Text.{split, split_loop}
use wpp.Translations.{Texts, key, get_key, find_locale, render, text}
use wpp.Translations.Render.{render-weave}
use wpp.Tests.Checks.{lacks_sound}

-- The page of an include, by its number.
abbrev page : ℕ → Bytes
page zero = codes "head"
page (suc n) = codes "foot"

run-arrivals_example :
    run (arrivals page (1 ∷ 0 ∷ [])) (started (codes "<" ∷ codes "|" ∷ codes ">" ∷ []) 2)
    ≡ resolve (codes "<head|foot>") ∷ []
run-arrivals_example =
    run-arrivals (codes "<" ∷ codes "|" ∷ codes ">" ∷ []) 2 page 1 (0 ∷ []) refl
      (λ i l. ground arith)

-- One include fails, and the promise is settled twice.
settled_twice :
    run
      (failed 0 ∷ fetched 1 (codes "foot") ∷ [])
      (started (codes "<" ∷ codes "|" ∷ codes ">" ∷ []) 2)
    ≡ reject ∷ resolve (codes "<|foot>") ∷ []
unfolding run
settled_twice = refl

-- The expression on one tag.
abbrev search_menu : Bytes → Option (List Bytes)
search_menu s =
    if str_eq s (tag (codes " virtual=\"/menu\" ")) then some (codes "/menu" ∷ []) else none

abbrev menu_page : Bytes
menu_page = codes "body:<!--#include virtual=\"/menu\" -->text"

-- Two languages, and base texts.
abbrev texts : Texts
texts =
    ([], (codes "hi", codes "Hello") ∷ []) ∷ (codes "de", (codes "bye", codes "Tschuess") ∷ []) ∷ []

abbrev search_key : Bytes → Option (List Bytes)
search_key s = if str_eq s (codes "<!--#i18n key=\"hi\"-->") then some (codes "hi" ∷ []) else none

render-weave_example :
    render search_key (codes "de_AT") (codes "A: <!--#i18n key=\"hi\"-->!") texts
    ≡ text (codes "A: Hello!")
unfolding key get_key find_locale find str_eq split split_loop
render-weave_example =
    render-weave search_key (codes "de_AT") (codes "A: ")
      ((codes " key=\"hi\"", (codes "hi", codes "!")) ∷ []) texts
      (lacks_sound b'<' (codes "A: ") refl)
      ((lacks_sound b'-' (codes " key=\"hi\"") refl, (lacks_sound b'<' (codes "!") refl, refl)), tt)
