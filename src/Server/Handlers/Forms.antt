-- ===== src/Server/Handlers/Forms.antt =====
-- The setup and the login of internal/server/auth_handlers.go, which give out sessions.
use agentless_monitoring.Common.{
  ◌-◌, ◌/◌, Bool, true, false, not, List, none, some, Bytes, codes, Result, ok, err, if◌then◌else◌,
}
use agentless_monitoring.Common.Int.{pos}
use agentless_monitoring.Net.{bytes_eq}
use agentless_monitoring.Storage.Tables.{Db}
use agentless_monitoring.Auth.Passwords.{
  PasswordError, invalid_utf8, too_few_characters, too_many_bytes,
}
use agentless_monitoring.Auth.Users.{
  User, Error as AuthError, already_initialized, invalid_credentials, invalid_username, password,
  create_administrator, authenticate,
}
use agentless_monitoring.Auth.Sessions.{Session, second, session_duration, create_session}
use agentless_monitoring.Server.Limiter.{allow, reset}
use agentless_monitoring.Server.Web.{
  Request, form_value, clear_cookie, form_csrf_cookie_name, set_session_cookie, validate_form_csrf,
  client_address,
}
use agentless_monitoring.Server.Handlers.{
  Platform, Settings, Surroundings, World, text, of_auth, Response, with_cookie, redirect_to,
  not_found, internal_error, bad_form, bad_token, render_auth_page,
}

-- errors.Is(err, auth.ErrInvalidUsername) || errors.Is(err, auth.ErrInvalidPassword)
abbrev is_invalid_password : PasswordError → Bool
is_invalid_password invalid_utf8 = true
is_invalid_password too_few_characters = true
is_invalid_password too_many_bytes = true
is_invalid_password _ = false

abbrev is_invalid_account : AuthError → Bool
is_invalid_account invalid_username = true
is_invalid_account (password why) = is_invalid_password why
is_invalid_account _ = false

abbrev is_already_initialized : AuthError → Bool
is_already_initialized already_initialized = true
is_already_initialized _ = false

abbrev is_invalid_credentials : AuthError → Bool
is_invalid_credentials invalid_credentials = true
is_invalid_credentials _ = false

module _ (p : Platform) (s : Settings) (e : Surroundings) where
  -- A session for a user who has just proved who it is, and its cookie.
  abbrev pub session_answer : World → Result AuthError (Bytes × Session) × Db → Response × World
  session_answer w (err why, db) = (internal_error, record w { db = db })
  session_answer w (ok (token, session), db) = (
    with_cookie (set_session_cookie s.secure_cookies token ((session.expires_at - e.now) / second))
        (redirect_to (codes "/dashboard")),
    record w { db = db },
  )

  unfoldable pub open_session : User → World → Response × World
  open_session user w = session_answer w (
      create_session p.format_seconds p.sha256 e.auth_fails e.token_random e.csrf_random user.id
        (pos session_duration) e.now w.db)

  abbrev pub clears_form : Response × World → Response × World
  clears_form x = (
    with_cookie (clear_cookie (form_csrf_cookie_name s.secure_cookies) s.secure_cookies) x.0,
    x.1,
  )

  abbrev pub setup_answer : World → Result AuthError User × Db → Response × World
  setup_answer w (err why, db) = (
    if is_already_initialized why
        then redirect_to (codes "/login")
        else if is_invalid_account why
        then render_auth_page p s e 400 (codes "setup") (of_auth why)
        else internal_error,
    record w { db = db },
  )
  setup_answer w (ok user, db) = open_session user (record w { db = db })

  abbrev setup_form : List (Bytes × Bytes) → World → Response × World
  setup_form form w =
      let secret = form_value (codes "password") form in
      if not (bytes_eq secret (form_value (codes "password_confirmation") form))
      then (render_auth_page p s e 400 (codes "setup") (text (codes "Passwords do not match.")), w)
      else setup_answer w (
          create_administrator p.id_key p.argon2_version e.auth_fails s.password_params e.salt
            (form_value (codes "username") form) secret w.db w.db)

  unfoldable pub setup_submit : Request → World → Response × World
  unfolding open_session
  setup_submit r w = if not s.allow_web_setup then (not_found, w) else elim r.form [
    | none ↦ (bad_form, w)
    | some form ↦
        if not (validate_form_csrf s.secure_cookies r form)
        then (bad_token, w)
        else clears_form (setup_form form w)
  ]

  abbrev pub login_answer : Bytes → Bytes → World → Result AuthError User × Db → Response × World
  login_answer client username w (err why, db) = (
    if is_invalid_credentials why
        then render_auth_page p s e 401 (codes "login")
            (text (codes "Invalid username or password."))
        else internal_error,
    record w { db = db },
  )
  login_answer client username w (ok user, db) =
      open_session user
        (record w { db = db; limiter = reset p.to_lower p.sha256 w.limiter client username })

  -- loginSubmit, once the form token is accepted. A refusal also has the header "Retry-After: 60".
  abbrev pub login_form : Request → List (Bytes × Bytes) → World → Response × World
  login_form r form w =
      let client =
        client_address p.split_host_port p.parse_addr p.addr_string s.trusted_proxies r in
      let username = form_value (codes "username") form in
      let (limiter, allowed) = allow p.to_lower p.sha256 w.limiter client username e.now in
      let counted = record w { limiter = limiter } in
      if not allowed
      then (
        render_auth_page p s e 429 (codes "login")
            (text (codes "Too many login attempts. Try again shortly.")),
        counted,
      )
      else login_answer client username counted (
          authenticate p.id_key p.argon2_version e.auth_fails username
            (form_value (codes "password") form) client w.db)

  unfoldable pub login_submit : Request → World → Response × World
  unfolding open_session
  login_submit r w = elim r.form [
    | none ↦ (bad_form, w)
    | some form ↦
        if not (validate_form_csrf s.secure_cookies r form)
        then (bad_token, w)
        else clears_form (login_form r form w)
  ]
