-- ===== src/FrontController/Routes.antt =====
-- libraries/repro-web/src/front_controller.cpp: which handler is called.
use wpp.Prelude.{
  Bytes, ◌≤◌, Bool, true, false, Option, none, some, List, [], ◌∷◌, ◌++◌, append-nil, append_assoc,
  All, length, str_eq, str_eq_iff, if◌then◌else◌, Bool-cases, ◌>>=◌, ◌≡◌, ◌⊎◌, inl, inr, refl, sym,
  ap, ◌∙◌, arith,
}
use wpp.Path.{PathInfo, path_of, add_arg}
use wpp.Request.{Request}
use wpp.FrontController.{
  invoked, HandlerInfo, set_args, matched, request_match, find_handler, dispatch,
}

-- Names and submatches, side by side.
abbrev pub pairs : List Bytes → List Bytes → List (Bytes × Bytes)
pairs (a ∷ args) (m ∷ ms) = (a, m) ∷ pairs args ms
pairs _ _ = []

set_args-pairs :
    (args ms : List Bytes) (p : PathInfo)
    → length ms ≤ length args
    → set_args args ms p ≡ some (record p { args = p.args ++ pairs args ms })
set_args-pairs [] [] p h = ap (λ all. some (record p { args = all })) (sym (append-nil p.args))
set_args-pairs (a ∷ args) [] p h =
    ap (λ all. some (record p { args = all })) (sym (append-nil p.args))
set_args-pairs [] (m ∷ ms) p h = absurd (omega arith)
set_args-pairs (a ∷ args) (m ∷ ms) p h =
    set_args-pairs args ms (add_arg (a, m) p) (omega arith)
    ∙ ap (λ all. some (record p { args = all })) (append_assoc p.args ((a, m) ∷ []) (pairs args ms))

module _ {Regex : Type 0} {Handler : Type 0}
    (regex_match : Regex → Bytes → Option (List Bytes)) where
  -- A handler that is not for a request.
  abbrev pub PassesBy : Request → HandlerInfo Regex Handler → Type 0
  PassesBy r h =
      (str_eq r.path.method h.method ≡ false) ⊎ (regex_match h.path_regex (path_of r.path) ≡ none)

  passed :
      (h : HandlerInfo Regex Handler) (r : Request)
      → PassesBy r h
      → request_match regex_match h r ≡ some (false, r)
  unfolding request_match
  passed h r (inl e) = rw e refl
  passed h r (inr e) = elim (Bool-cases (str_eq r.path.method h.method)) [
    | inl f ↦
        ap
          (λ (b : Bool).
            if b
            then matched (regex_match h.path_regex (path_of r.path)) h.args r
            else some (false, r))
          f
        ∙ ap (λ o. matched o h.args r) e
    | inr f ↦
        ap
          (λ (b : Bool).
            if b
            then matched (regex_match h.path_regex (path_of r.path)) h.args r
            else some (false, r))
          f
  ]

  chosen :
      (h : HandlerInfo Regex Handler) (r : Request) (ms : List Bytes)
      → r.path.method ≡ h.method
      → regex_match h.path_regex (path_of r.path) ≡ some ms
      → length ms ≤ length h.args
      → request_match regex_match h r
        ≡ some (true, record r { path = record r.path { args = r.path.args ++ pairs h.args ms } })
  unfolding request_match
  chosen h r ms same found room =
      ap
        (λ (b : Bool).
          if b
          then matched (regex_match h.path_regex (path_of r.path)) h.args r
          else some (false, r))
        ((str_eq_iff r.path.method h.method).1 same)
      ∙ ap (λ o. matched o h.args r) found
      ∙ ap (λ (o : Option PathInfo). o >>= (λ p. some (true, record r { path = p })))
          (set_args-pairs h.args ms r.path room)

  -- The first handler whose method and pattern fit the request is called, with the submatches as
  -- path arguments, whatever the path that `dispatch` is given: the pattern must have no more
  -- groups than the handler has names.
  pub dispatch-first :
      (before : List (HandlerInfo Regex Handler)) (h : HandlerInfo Regex Handler)
      (behind statics : List (HandlerInfo Regex Handler)) (path : Bytes) (r : Request)
      (ms : List Bytes)
      → All (PassesBy r) before
      → r.path.method ≡ h.method
      → regex_match h.path_regex (path_of r.path) ≡ some ms
      → length ms ≤ length h.args
      → dispatch regex_match (before ++ h ∷ behind) statics path r
        ≡ invoked h.handler
            (record r { path = record r.path { args = r.path.args ++ pairs h.args ms } })
  unfolding dispatch find_handler
  dispatch-first [] h behind statics path r ms _ same found room =
      rw (find_handler, chosen h r ms same found room) refl
  dispatch-first (g ∷ before) h behind statics path r ms (p, ps) same found room =
      rw (find_handler, passed g r p)
        (dispatch-first before h behind statics path r ms ps same found room)
