-- ===== src/Prelude/Marks.antt =====
-- Marks in a text: searches for a needle whose first byte the text in front lacks.
use Prim.Native.Nat.{ℕ, ◌+◌}
use mathlib.Core.Path.{◌≡◌, refl, sym, ap, ◌∙◌}
use mathlib.Core.Bool.{true, false}
use mathlib.Core.Option.{some, none}
use mathlib.Core.List.{[], ◌∷◌, ◌++◌, append_assoc}
use native.Mathlib.Omega.{arith}
use wpp.Prelude.Tests.{◌==◌}
use wpp.Prelude.Lists.{length, take, drop, length-append, drop-length}
use wpp.Prelude.ByteStrings.{Bytes, Lacks, find_str, starts_with}
use wpp.Prelude.Cuts.{drop-drop, drop-front, take-front}

-- A needle behind a text that lacks its first byte.
pub find_behind :
    (c : ℕ) (needle p r : Bytes)
    → Lacks c p
    → starts_with (c ∷ needle) (c ∷ (needle ++ r)) ≡ true
    → find_str (c ∷ needle) (p ++ (c ∷ (needle ++ r))) ≡ some (length p)
unfolding find_str
find_behind c needle [] r h e = rw e refl
find_behind c needle (x ∷ p) r (hx, h) e =
    let apart : (c == x) ≡ false = ground arith in
    unfold starts_with in rw (apart, find_behind c needle p r h e) refl

pub find_missing : (c : ℕ) (needle p : Bytes) → Lacks c p → find_str (c ∷ needle) p ≡ none
unfolding find_str starts_with
find_missing c needle [] h = refl
find_missing c needle (x ∷ p) (hx, h) =
    let apart : (c == x) ≡ false = ground arith in rw (apart, find_missing c needle p h) refl

-- Cuts around one tag behind `p`, with `v` behind it.
module _ (opening closing p mid v : Bytes) where
  pub behind_opening :
      drop (length p + length opening) (p ++ (opening ++ (mid ++ (closing ++ v))))
      ≡ mid ++ (closing ++ v)
  behind_opening =
      drop-drop (length p) (length opening) (p ++ (opening ++ (mid ++ (closing ++ v))))
      ∙ ap (drop (length opening)) (drop-length p (opening ++ (mid ++ (closing ++ v))))
      ∙ drop-length opening (mid ++ (closing ++ v))

  tag_first :
      drop (length p) (p ++ (opening ++ (mid ++ (closing ++ v))))
      ≡ (opening ++ (mid ++ closing)) ++ v
  tag_first =
      drop-length p (opening ++ (mid ++ (closing ++ v)))
      ∙ sym (
          append_assoc opening (mid ++ closing) v
          ∙ ap (λ (t : Bytes). opening ++ t) (append_assoc mid closing v))

  length-tag : length opening + length mid + length closing ≡ length (opening ++ (mid ++ closing))
  length-tag =
      omega (arith, length-append {0} opening (mid ++ closing), length-append {0} mid closing)

  pub tag_at :
      take
        (length opening + length mid + length closing)
        (drop (length p) (p ++ (opening ++ (mid ++ (closing ++ v)))))
      ≡ opening ++ (mid ++ closing)
  tag_at =
      ap (take (length opening + length mid + length closing)) tag_first
      ∙ take-front (opening ++ (mid ++ closing)) v (length opening + length mid + length closing)
          length-tag

  pub behind_tag :
      drop
        (length p + length opening + length mid + length closing)
        (p ++ (opening ++ (mid ++ (closing ++ v))))
      ≡ v
  behind_tag =
      ap (λ (n : ℕ). drop n (p ++ (opening ++ (mid ++ (closing ++ v)))))
        {y = length p + (length opening + length mid + length closing)} (omega arith)
      ∙ drop-drop (length p) (length opening + length mid + length closing)
          (p ++ (opening ++ (mid ++ (closing ++ v))))
      ∙ ap (drop (length opening + length mid + length closing)) tag_first
      ∙ drop-front (opening ++ (mid ++ closing)) v (length opening + length mid + length closing)
          length-tag
