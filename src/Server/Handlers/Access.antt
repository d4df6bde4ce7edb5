-- ===== src/Server/Handlers/Access.antt =====
-- Which requests may change the state.
use agentless_monitoring.Common.{
  ◌≡◌, ◌⊎◌, inl, inr, refl, true, List, some, Bytes, codes, Bool-cases, Option-cases,
}
use agentless_monitoring.Auth.Sessions.{Session}
use agentless_monitoring.Server.Web.{Request, form_value, tokens_equal, validate_form_csrf}
use agentless_monitoring.Server.Handlers.{
  Platform, Settings, Surroundings, World, Response, request_session,
}
use agentless_monitoring.Server.Handlers.Forms.{setup_submit, login_submit}
use agentless_monitoring.Server.Handlers.Actions.{
  Route, setup, login, logout, create_machine, run_check_now, start_discovery, import_discovery,
  with_form, machine_create_submit, check_run_submit, logout_submit, discovery_start_submit,
  discovery_import_submit, submit,
}

module _ (p : Platform) (s : Settings) (e : Surroundings) where
  -- The request has a session, and its form has the CSRF token of this session.
  pub record HasSession (r : Request) (w : World) : Type 0 where
    pub token : Bytes
    pub session : Session
    pub form : List (Bytes × Bytes)
    pub found : request_session p s e r w ≡ some (token, session)
    pub parsed : r.form ≡ some form
    pub csrf : tokens_equal (form_value (codes "csrf_token") form) session.csrf_token ≡ true

  -- The form of the request has the token of the form's cookie.
  pub record HasFormToken (r : Request) : Type 0 where
    pub form : List (Bytes × Bytes)
    pub parsed : r.form ≡ some form
    pub csrf : validate_form_csrf s.secure_cookies r form ≡ true

  -- The setup and the login ask for a form token, the other routes for a session.
  abbrev pub IsAuthorised : Route → Request → World → Type 0
  IsAuthorised setup r w = (s.allow_web_setup ≡ true) × HasFormToken r
  IsAuthorised login r w = HasFormToken r
  IsAuthorised _ r w = HasSession r w

  with_form-HasSession :
      (away : Response) (r : Request) (w : World)
      (act : Bytes → Session → List (Bytes × Bytes) → Response × World)
      → ((with_form p s e away r w act).1 ≡ w) ⊎ HasSession r w
  with_form-HasSession away r w act = elim (Option-cases (request_session p s e r w)) [
    | inl n ↦ inl (rw (n, with_form) refl)
    | inr ((token, session), f) ↦ elim (Option-cases r.form) [
      | inl n ↦ inl (rw (f, n, with_form) refl)
      | inr (form, parsed) ↦
          elim (Bool-cases
            (tokens_equal (form_value (codes "csrf_token") form) session.csrf_token)) [
              | inl c ↦ inr (record {
                token = token;
                session = session;
                form = form;
                found = f;
                parsed = parsed;
                csrf = c;
              })
              | inr c ↦ inl (rw (f, parsed, c, with_form) refl)
            ]
    ]
  ]

  setup_submit-HasFormToken :
      (r : Request) (w : World)
      → ((setup_submit p s e r w).1 ≡ w) ⊎ ((s.allow_web_setup ≡ true) × HasFormToken r)
  unfolding setup_submit
  setup_submit-HasFormToken r w = elim (Bool-cases s.allow_web_setup) [
    | inr off ↦ inl (rw (off, setup_submit) refl)
    | inl on ↦ elim (Option-cases r.form) [
      | inl n ↦ inl (rw (on, n, setup_submit) refl)
      | inr (form, parsed) ↦ elim (Bool-cases (validate_form_csrf s.secure_cookies r form)) [
        | inl c ↦ inr (on, record { form = form; parsed = parsed; csrf = c })
        | inr c ↦ inl (rw (on, parsed, c, setup_submit) refl)
      ]
    ]
  ]

  login_submit-HasFormToken :
      (r : Request) (w : World) → ((login_submit p s e r w).1 ≡ w) ⊎ HasFormToken r
  unfolding login_submit
  login_submit-HasFormToken r w = elim (Option-cases r.form) [
    | inl n ↦ inl (rw (n, login_submit) refl)
    | inr (form, parsed) ↦ elim (Bool-cases (validate_form_csrf s.secure_cookies r form)) [
      | inl c ↦ inr (record { form = form; parsed = parsed; csrf = c })
      | inr c ↦ inl (rw (parsed, c, login_submit) refl)
    ]
  ]

  -- Every POST request leaves the state as it is - the tables, the login limiter, and whether a scan
  -- runs -, or it is authorised: a setup or a login by the form token of its own cookie, the setup
  -- only where it is allowed, and every other request by the CSRF token of a session that is found.
  pub submit-IsAuthorised :
      (route : Route) (r : Request) (w : World)
      → ((submit p s e route r w).1 ≡ w) ⊎ IsAuthorised route r w
  unfolding submit machine_create_submit check_run_submit logout_submit discovery_start_submit
      discovery_import_submit
  submit-IsAuthorised setup r w = setup_submit-HasFormToken r w
  submit-IsAuthorised login r w = login_submit-HasFormToken r w
  submit-IsAuthorised logout r w = with_form-HasSession _ r w _
  submit-IsAuthorised create_machine r w = with_form-HasSession _ r w _
  submit-IsAuthorised run_check_now r w = with_form-HasSession _ r w _
  submit-IsAuthorised start_discovery r w = with_form-HasSession _ r w _
  submit-IsAuthorised import_discovery r w = with_form-HasSession _ r w _
