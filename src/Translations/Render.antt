-- ===== src/Translations/Render.antt =====
-- libraries/repro-web/src/i18n.cpp: texts with keys in comments.
use wpp.Prelude.{
  Bytes, ℕ, zero, suc, ◌≤◌, ◌<◌, Option, none, some, List, [], ◌∷◌, ◌++◌, append_assoc,
  if◌then◌else◌, codes, find_str, starts_with, length, length-append, take-length, Lacks, All, ◌≡◌,
  refl, ap, ◌∙◌, arith,
}
use wpp.Prelude.Marks.{find_behind, find_missing, behind_opening, tag_at, behind_tag}
use wpp.Prelude.Maps.{find, is_some}
use wpp.Translations.{
  Texts, texts_of, find_locale, get_key, key, first_text, value_of, opening, text, render_loop,
  render,
}

-- A comment: what stands between `<!--#i18n` and `-->`, its key, and the text behind it.
abbrev pub Comment : Type 0
Comment = Bytes × (Bytes × Bytes)

abbrev closing : Bytes
closing = codes "-->"

-- The text with its comments, and with values in their place.
abbrev pub weave : Bytes → List Comment → Bytes
weave p [] = p
weave p ((mid, (k, q)) ∷ more) = p ++ (opening ++ (mid ++ (closing ++ weave q more)))

abbrev pub filled : (Bytes → Bytes) → Bytes → List Comment → Bytes
filled value p [] = p
filled value p ((mid, (k, q)) ∷ more) = p ++ (value k ++ filled value q more)

length-weave : (p : Bytes) (cs : List Comment) → length cs ≤ length (weave p cs)
length-weave p [] = omega arith
length-weave p ((mid, (k, q)) ∷ more) = omega (
  arith,
  length-append {0} p (opening ++ (mid ++ (closing ++ weave q more))),
  length-append {0} mid (closing ++ weave q more),
  length-weave q more,
)

-- Both tests of `render` come to what `get_key` does.
value_of-get_key : (locale k : Bytes) (m : Texts) → value_of locale k m ≡ get_key locale k m
unfolding get_key
value_of-get_key locale k m = both (find k (texts_of locale m)) (find k (texts_of [] m))
  where
    both :
        (o u : Option Bytes)
        → (if is_some o then first_text o u k else if is_some u then first_text o u k else k)
          ≡ first_text o u k
    both none none = refl
    both none (some v) = refl
    both (some v) u = refl

module _ (regex_search : Bytes → Option (List Bytes)) where
  -- A comment that the expression finds, with its key as the first submatch.
  abbrev pub IsComment : Comment → Type 0
  IsComment (mid, (k, q)) =
      Lacks b'-' mid × (Lacks b'<' q × (regex_search (opening ++ (mid ++ closing)) ≡ some (k ∷ [])))

  loop-weave :
      (value : Bytes → Bytes) (fuel : ℕ) (p : Bytes) (cs : List Comment)
      → length cs < fuel
      → Lacks b'<' p
      → All IsComment cs
      → render_loop regex_search value fuel (weave p cs) ≡ text (filled value p cs)
  unfolding render_loop
  loop-weave value zero p cs enough hp h = absurd (omega arith)
  loop-weave value (suc fuel) p [] enough hp h =
      rw (render_loop, find_missing b'<' (codes "!--#i18n") p hp) refl
  loop-weave value (suc fuel) p ((mid, (k, q)) ∷ more) enough hp ((hm, (hq, found)), h) =
      rw
        (
          render_loop,
          opens,
          behind_opening opening closing p mid (weave q more),
          closes,
          tag_at opening closing p mid (weave q more),
          found,
          behind_tag opening closing p mid (weave q more),
          loop-weave value fuel q more (omega arith) hq h,
          take-length p (opening ++ (mid ++ (closing ++ weave q more))),
        )
        (ap text (append_assoc p (value k) (filled value q more)))
    where
      opens : find_str opening (weave p ((mid, (k, q)) ∷ more)) ≡ some (length p)
      opens =
          find_behind b'<' (codes "!--#i18n") p (mid ++ (closing ++ weave q more)) hp
            (unfold starts_with in refl)

      closes : find_str closing (mid ++ (closing ++ weave q more)) ≡ some (length mid)
      closes = find_behind b'-' (codes "->") mid (weave q more) hm (unfold starts_with in refl)

  filled-same :
      (f g : Bytes → Bytes) (p : Bytes) (cs : List Comment)
      → ((k : Bytes) → f k ≡ g k)
      → filled f p cs ≡ filled g p cs
  filled-same f g p [] h = refl
  filled-same f g p ((mid, (k, q)) ∷ more) h = rw (h k, filled-same f g q more h) refl

  -- A text whose parts hold no `<` and whose comments hold no `-` and are found by the expression
  -- is rendered with each comment replaced by what `key` gives for it: the text of the locale, or
  -- of its language if the locale is not there, the base text, or the key.
  pub render-weave :
      (locale p : Bytes) (cs : List Comment) (m : Texts)
      → Lacks b'<' p
      → All IsComment cs
      → render regex_search locale (weave p cs) m ≡ text (filled (λ k. key locale k m) p cs)
  unfolding render key
  render-weave locale p cs m hp h =
      loop-weave (λ k. value_of (find_locale locale m) k m) (suc (length (weave p cs))) p cs
        (omega (arith, length-weave p cs)) hp h
      ∙ ap text (
          filled-same (λ k. value_of (find_locale locale m) k m)
            (λ k. get_key (find_locale locale m) k m) p cs
            (λ k. value_of-get_key (find_locale locale m) k m))
