-- ===== src/Url/FullPath.antt =====
-- libraries/prio/src/url.cpp: `setFullPath` on what `getFullPath` writes.

use wpp.Prelude.{
  Bytes, some, List, [], ◌∷◌, ◌++◌, ◌≡◌, refl, sym, ap, ◌∙◌, All, Lacks, append_assoc, append-nil,
  take-length, drop-length, find_char, find_char-append, find_char-Lacks,
}
use wpp.Url.{
  Url, anchor_text, set_full_path, set_path_query, set_path_anchor, set_query, set_anchor,
  anchor_of, query_of, write_params,
}
use wpp.Url.Query.{IsEntry, parse_query-query_of}

anchor_step :
    (q anchor : Bytes) (u : Url)
    → Lacks b'#' q
    → set_path_anchor
        (q ++ anchor_text anchor)
        (find_char b'#' (q ++ anchor_text anchor))
        (record u { anchor = [] })
      ≡ record u { path = q; anchor = anchor }
unfolding set_path_anchor set_anchor anchor_of
anchor_step q [] u free = rw (append-nil q, find_char-Lacks b'#' q free) refl
anchor_step q (x ∷ anchor) u free =
    rw
      (
        find_char-append b'#' q (x ∷ anchor) free,
        set_path_anchor,
        take-length q (b'#' ∷ x ∷ anchor),
        drop-length q (b'#' ∷ x ∷ anchor),
      )
      refl

query_step :
    (path : Bytes) (ps : List (Bytes × Bytes)) (u : Url)
    → Lacks b'?' path
    → All IsEntry ps
    → set_path_query
        (find_char b'?' (path ++ query_of ps))
        (record u { path = path ++ query_of ps; params = [] })
      ≡ some (record u { path = path; params = ps })
unfolding set_path_query set_query query_of
query_step path [] u free h = rw (append-nil path, find_char-Lacks b'?' path free) refl
query_step path (p ∷ ps) u free h =
    rw
      (
        find_char-append b'?' path (write_params (p ∷ ps)) free,
        set_path_query,
        drop-length path (b'?' ∷ write_params (p ∷ ps)),
        set_query,
        parse_query-query_of (p ∷ ps) h,
        take-length path (b'?' ∷ write_params (p ∷ ps)),
      )
      refl

pub full_path_step :
    (path anchor : Bytes) (ps : List (Bytes × Bytes)) (u : Url)
    → Lacks b'?' path
    → Lacks b'#' (path ++ query_of ps)
    → All IsEntry ps
    → set_full_path
        (path ++ (query_of ps ++ anchor_text anchor))
        (record u { params = []; anchor = [] })
      ≡ some (record u { path = path; params = ps; anchor = anchor })
unfolding set_full_path
full_path_step path anchor ps u no_query no_anchor h =
    ap (λ (s : Bytes). set_full_path s (record u { params = []; anchor = [] }))
      (sym (append_assoc path (query_of ps) (anchor_text anchor)))
    ∙ ap (λ (v : Url). set_path_query (find_char b'?' v.path) v)
        (anchor_step (path ++ query_of ps) anchor (record u { params = [] }) no_anchor)
    ∙ query_step path ps (record u { anchor = anchor }) no_query h
