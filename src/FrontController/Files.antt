-- ===== src/FrontController/Files.antt =====
-- libraries/repro-web/src/front_controller.cpp: the static handler.
use wpp.Prelude.{
  Bytes, Option, none, some, List, ◌++◌, take, length, take-length, take-append-drop, drop, str_eq,
  str_eq_iff, str_eq_refl, Bool-cases, ◌≡◌, ◌↔◌, inl, inr, refl, sym, ap, ◌∙◌,
}
use wpp.FrontController.{file, refused, serve_path, serve_file, get_mime}

module _ (real_path : Bytes → Option Bytes) (base : Bytes) (mimes : List (Bytes × Bytes)) where
  -- Any text may stand behind the base, also one that does not begin with a slash.
  served :
      (rest : Bytes)
      → serve_path base mimes (some (base ++ rest))
        ≡ file (base ++ rest) (get_mime mimes (base ++ rest))
  served rest = rw (take-length base rest, str_eq_refl base) refl

  from_file :
      (o : Option Bytes) (f mime : Bytes)
      → serve_path base mimes o ≡ file f mime
      → (rest : Bytes) × (f ≡ base ++ rest) × (o ≡ some f) × (mime ≡ get_mime mimes f)
  from_file none f mime h = absurd cc
  from_file (some p) f mime h = elim (Bool-cases (str_eq (take (length base) p) base)) [
    | inl e ↦
        let k : file p (get_mime mimes p) ≡ file f mime = rw e at h in
        let same : p ≡ f = cc in
        (
          drop (length base) p,
          sym same
              ∙ sym (take-append-drop (length base) p)
              ∙ ap (λ (t : Bytes). t ++ drop (length base) p)
                  ((str_eq_iff (take (length base) p) base).0 e),
          ap some same,
          cc,
        )
    | inr e ↦ let k : refused ≡ file f mime = rw e at h in absurd cc
  ]

  -- A static file is served exactly where the path that the system resolves begins with the text of
  -- the served directory, with any text behind it: a sibling whose name goes on from there is
  -- served, too.
  pub serve_file_iff :
      (path f mime : Bytes)
      → (serve_file real_path base mimes path ≡ file f mime) ↔ (
          (rest : Bytes) × (f ≡ base ++ rest)
          × (real_path (base ++ path) ≡ some f)
          × (mime ≡ get_mime mimes f))
  unfolding serve_file
  serve_file_iff path f mime = (
    (λ h. from_file (real_path (base ++ path)) f mime h),
    λ (rest, same, real, typed).
        ap (serve_path base mimes) (real ∙ ap some same) ∙ served rest ∙ cc,
  )
