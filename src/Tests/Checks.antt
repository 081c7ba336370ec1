-- ===== src/Tests/Checks.antt =====
-- Conditions on bytes, decided for concrete texts.
use wpp.Prelude.{
  Bytes, ℕ, Bool, true, not, ◌&&◌, [], ◌∷◌, ◌≡◌, arith, All, Lacks, IsByte, ltb, ◌==◌,
}

abbrev pub lacks : ℕ → Bytes → Bool
lacks c [] = true
lacks c (x ∷ s) = not (x == c) && lacks c s

pub lacks_sound : (c : ℕ) (s : Bytes) → lacks c s ≡ true → Lacks c s
lacks_sound c [] h = tt
lacks_sound c (x ∷ s) h = (ground arith, lacks_sound c s (ground arith))

abbrev pub are_bytes : Bytes → Bool
are_bytes [] = true
are_bytes (x ∷ s) = ltb x 256 && are_bytes s

pub are_bytes_sound : (s : Bytes) → are_bytes s ≡ true → All IsByte s
are_bytes_sound [] h = tt
are_bytes_sound (x ∷ s) h = (ground arith, are_bytes_sound s (ground arith))
