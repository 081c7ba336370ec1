-- ===== src/Tests/Logins.antt =====
-- Sessions at concrete inputs, with numbers for the JSON values.
use wpp.Prelude.{Bytes, ℕ, true, false, some, none, List, [], ◌∷◌, ◌≡◌, refl, codes, str_eq}
use wpp.Cookie
use wpp.Sessions.{Session, Provider, Call, get, set, clean, run, before, after}
use wpp.Sessions.Store.{view, IsProvider}
use wpp.Sessions.Runs.{spec_run, run-view, run-IsProvider}
use wpp.Sessions.Filter.{before-after}

abbrev empty_provider : Provider ℕ
empty_provider = record { map = []; timeouts = [] }

empty_provider-IsProvider : IsProvider empty_provider
unfolding wpp.Prelude.Maps.find
empty_provider-IsProvider = record { sessions = tt; deadlines = tt; same_keys = λ j. refl }

abbrev login : Session ℕ
login = record { sid = codes "sid::1"; data_of = 7; valid = true; authenticated = true }

-- A login, a lookup of another name, and a cleanup by which the login is over.
abbrev calls : List (Call ℕ)
calls = set 100 login ∷ get 350 (codes "sid::2") ∷ clean 401 ∷ []

run-view_example :
    view (run 0 300 calls empty_provider) (codes "sid::1")
    ≡ spec_run 0 300 calls (view empty_provider) (codes "sid::1")
run-view_example = run-view 0 300 calls empty_provider (codes "sid::1") empty_provider-IsProvider

run-IsProvider_example : IsProvider (run 0 300 calls empty_provider)
run-IsProvider_example = run-IsProvider 0 300 calls empty_provider empty_provider-IsProvider

-- The login is over, and the other session is there.
is_over : spec_run 0 300 calls (view empty_provider) (codes "sid::1") ≡ none
unfolding str_eq wpp.Prelude.Maps.find
is_over = refl

before-after_example :
    (before 0 300
      (codes "id")
      (codes "new")
      120
      (Cookie.cookie_of (codes "id") (codes "sid::1") ∷ [])
      (after 0 300 (codes "id") (codes "none") 100 (codes "other") login empty_provider).1).0
    ≡ login
unfolding after Cookie.exists Cookie.get wpp.Prelude.Maps.put str_eq
before-after_example =
    before-after 0 300 (codes "id") (codes "none") (codes "other") (codes "new") 100 120 login
      empty_provider (Cookie.cookie_of (codes "id") (codes "sid::1") ∷ []) refl (λ e. cc) refl refl
