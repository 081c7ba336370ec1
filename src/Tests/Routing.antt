-- ===== src/Tests/Routing.antt =====
-- Routes and static files at concrete inputs.
use wpp.Prelude.{
  Bytes, ℕ, zero, suc, Option, some, none, List, [], ◌∷◌, ◌++◌, ◌≡◌, ◌↔◌, inr, refl, codes, str_eq,
  if◌then◌else◌, arith, find_char, take, drop,
}
use wpp.Path.{empty_path}
use wpp.Request.{Request, empty_request}
use wpp.FrontController.{HandlerInfo, invoked, dispatch, file, serve_file, get_mime}
use wpp.FrontController.Routes.{dispatch-first}
use wpp.FrontController.Files.{serve_file_iff}

-- Patterns: a text, with the rest behind it as a submatch if the flag is set.
abbrev Pattern : Type 0
Pattern = Bytes × (ℕ × ℕ)

abbrev pattern_match : Pattern → Bytes → Option (List Bytes)
pattern_match (p, (zero, n)) s = if str_eq s p then some [] else none
pattern_match (p, (suc k, n)) s = if str_eq (take n s) p then some (drop n s ∷ []) else none

abbrev index_page : HandlerInfo Pattern ℕ
index_page = record {
  method = codes "GET";
  path_regex = (codes "/", (0, 0));
  args = [];
  handler = 1;
}

abbrev item_page : HandlerInfo Pattern ℕ
item_page = record {
  method = codes "GET";
  path_regex = (codes "/item/", (1, 6));
  args = codes "id" ∷ [];
  handler = 2;
}

abbrev item_request : Request
item_request = record empty_request {
  path = record empty_path { method = codes "GET"; path = codes "/item/7?a=b" };
}

dispatch-first_example :
    dispatch pattern_match (index_page ∷ item_page ∷ []) [] (codes "/") item_request
    ≡ invoked 2 (record item_request {
      path = record item_request.path { args = (codes "id", codes "7") ∷ [] };
    })
unfolding str_eq find_char wpp.Path.path_of
dispatch-first_example =
    dispatch-first pattern_match (index_page ∷ []) item_page [] [] (codes "/") item_request
      (codes "7" ∷ []) (inr refl, tt) refl refl (omega arith)

-- A file system in which a sibling of the served directory is asked for.
abbrev resolve : Bytes → Option Bytes
resolve s = some (codes "/srv/www-old/key")

serve_file_iff_example :
    (serve_file resolve (codes "/srv/www") [] (codes "/../www-old/key")
      ≡ file (codes "/srv/www-old/key") (codes "text/plain"))
    ↔ ((rest : Bytes) × (codes "/srv/www-old/key" ≡ codes "/srv/www" ++ rest)
        × (some (codes "/srv/www-old/key") ≡ some (codes "/srv/www-old/key"))
        × (codes "text/plain" ≡ get_mime [] (codes "/srv/www-old/key")))
serve_file_iff_example =
    serve_file_iff resolve (codes "/srv/www") [] (codes "/../www-old/key")
      (codes "/srv/www-old/key") (codes "text/plain")
