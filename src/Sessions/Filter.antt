-- ===== src/Sessions/Filter.antt =====
-- libraries/repro-web/src/session.cpp: the filter in front of a handler and behind it.
use wpp.Prelude.{Bytes, ℕ, true, [], is_empty_ne, str_eq_refl, ◌≡◌, ◌≢◌, refl, ap, ◌∙◌}
use wpp.Prelude.Maps.{find-put}
use wpp.Cookie
use wpp.Cookie.{Cookies}
use wpp.Sessions.{Session, Provider, get_session, set_session, session_cookie, before, after}

module _ {Json : Type 0} (empty_object : Json) (session_timeout : ℕ) (cookie_name : Bytes) where
  got :
      (now later : ℕ) (s : Session Json) (p : Provider Json)
      → (get_session empty_object session_timeout later s.sid
          (set_session empty_object session_timeout now s p)).0
        ≡ s
  unfolding get_session set_session
  got now later s p = rw (find-put s.sid s s.sid p.map, str_eq_refl s.sid) refl

  after_valid :
      (fresh other : Bytes) (now : ℕ) (s : Session Json) (p : Provider Json)
      → s.valid ≡ true
      → s.sid ≢ []
      → after empty_object session_timeout cookie_name fresh now other s p ≡ (
        session_cookie empty_object session_timeout cookie_name fresh s.sid,
        set_session empty_object session_timeout now s p,
      )
  unfolding after
  after_valid fresh other now s p valid named = simp (is_empty_ne s.sid named, valid)

  before_known :
      (again : Bytes) (later : ℕ) (sid : Bytes) (p : Provider Json) (jar : Cookies)
      → Cookie.exists cookie_name jar ≡ true
      → (Cookie.get cookie_name jar).value ≡ sid
      → sid ≢ []
      → before empty_object session_timeout cookie_name again later jar p
        ≡ get_session empty_object session_timeout later sid p
  unfolding before
  before_known again later sid p jar has value named = rw (has, value, is_empty_ne sid named) refl

  -- A valid session with a name that the filter has stored behind one request is the session of the
  -- next request whose cookie is the one that was sent, at any later time, if neither the provider
  -- nor its timer was called in between.
  pub before-after :
      (fresh other again : Bytes) (now later : ℕ) (s : Session Json) (p : Provider Json)
      (jar : Cookies)
      → s.valid ≡ true
      → s.sid ≢ []
      → Cookie.exists cookie_name jar ≡ true
      → (Cookie.get cookie_name jar).value
        ≡ (after empty_object session_timeout cookie_name fresh now other s p).0.value
      → (before empty_object session_timeout cookie_name again later jar
          (after empty_object session_timeout cookie_name fresh now other s p).1).0
        ≡ s
  before-after fresh other again now later s p jar valid named has sent =
      let stored = after_valid fresh other now s p valid named in
      ap (λ r. r.0)
        (before_known again later s.sid _ jar has (sent ∙ ap (λ r. r.0.value) stored) named)
      ∙ ap (λ r. (get_session empty_object session_timeout later s.sid r.1).0) stored
      ∙ got now later s p
