-- ===== src/Server/Handlers/Pages.antt =====
-- The handlers of GET requests in internal/server/auth_handlers.go, which read the state. The
-- counters of the scheduler that two pages show are left out.
use agentless_monitoring.Common.{
  ℕ, not, List, [], ◌∷◌, ◌++◌, none, some, Bytes, codes, ok, err, if◌then◌else◌,
}
use agentless_monitoring.Common.Decimal.{int_value}
use agentless_monitoring.Common.Int.{ℤ, pos, pos_part, is_zero, above}
use agentless_monitoring.Net.{bytes_eq}
use agentless_monitoring.Storage.Tables.{JobRow}
use agentless_monitoring.Auth.Users.{initialized}
use agentless_monitoring.Auth.Sessions.{Session}
use agentless_monitoring.Machines.Listing.{summary, list, get_by_check_id, list_results}
use agentless_monitoring.Discovery.Jobs.{job}
use agentless_monitoring.Discovery.Listing.{Group, list_jobs, list_groups, list_devices}
use agentless_monitoring.Server.Web.{Request, form_value, clear_cookie, session_cookie_name}
use agentless_monitoring.Server.Handlers.{
  Platform, Settings, Surroundings, World, Message, no_message, dashboard, machine_new, discovery,
  check_history, Response, answered, plain, page, with_cookie, redirect_to, not_found,
  internal_error, positive_int, request_session, render_auth_page,
}

abbrev not_initialized : Response
not_initialized = answered (
    plain 503 (
      codes
        "administrator account is not initialized; use the local administrator bootstrap command"))

module _ (p : Platform) (s : Settings) (e : Surroundings) where
  -- The page behind a session, or the way to the login.
  abbrev pub with_session : Request → World → (Session → Response) → Response
  with_session r w show = elim (request_session p s e r w) [
    | none ↦ redirect_to (codes "/login")
    | some (token, session) ↦ show session
  ]

  unfoldable pub root_handler : Request → World → Response
  root_handler r w =
      if not (bytes_eq r.path (codes "/"))
      then not_found
      else elim (initialized e.auth_fails w.db) [
        | err why ↦ internal_error
        | ok done ↦
            if not done
            then (if not s.allow_web_setup then not_initialized else redirect_to (codes "/setup"))
            else with_session r w (λ session. redirect_to (codes "/dashboard"))
      ]

  unfoldable pub setup_page : World → Response
  setup_page w = if not s.allow_web_setup then not_found else elim (initialized e.auth_fails w.db) [
    | err why ↦ internal_error
    | ok done ↦
        if done
        then redirect_to (codes "/login")
        else render_auth_page p s e 200 (codes "setup") no_message
  ]

  unfoldable pub login_page : Request → World → Response
  login_page r w = elim (initialized e.auth_fails w.db) [
    | err why ↦ internal_error
    | ok done ↦
        if not done
        then (if not s.allow_web_setup then not_initialized else redirect_to (codes "/setup"))
        else elim (request_session p s e r w) [
          | some found ↦ redirect_to (codes "/dashboard")
          | none ↦ render_auth_page p s e 200 (codes "login") no_message
        ]
  ]

  unfoldable pub dashboard_page : Request → World → Response
  dashboard_page r w = elim (request_session p s e r w) [
    | none ↦
        with_cookie (clear_cookie (session_cookie_name s.secure_cookies) s.secure_cookies)
          (redirect_to (codes "/login"))
    | some (token, session) ↦ elim (summary e.machine_fails w.db) [
      | err why ↦ internal_error
      | ok counts ↦ elim (list e.machine_fails w.db) [
        | err why ↦ internal_error
        | ok machines ↦ answered (page 200 (dashboard session counts machines))
      ]
    ]
  ]

  unfoldable pub machine_create_page : Request → World → Response
  machine_create_page r w =
      with_session r w (λ session. answered (page 200 (machine_new session no_message)))

  unfoldable pub check_history_page : Request → World → Response
  check_history_page r w = with_session r w (λ session. elim (positive_int r.id) [
    | none ↦ answered (plain 400 (codes "invalid check"))
    | some check_id ↦ elim (get_by_check_id e.machine_fails check_id w.db) [
      | err why ↦ not_found
      | ok machine ↦ elim (list_results e.machine_fails check_id 100 w.db) [
        | err why ↦ internal_error
        | ok results ↦ answered (page 200 (check_history session machine results))
      ]
    ]
  ])

  abbrev imported_message : Bytes → Bytes
  imported_message [] = []
  imported_message (c ∷ s) = (c ∷ s) ++ codes " device(s) added to the group."

  abbrev first_job : ℤ → List JobRow → ℤ
  first_job id [] = id
  first_job id (j ∷ js) = if is_zero id then pos j.id else id

  -- The end of renderDiscovery: with the job of that number, if it is positive.
  abbrev show_job : Session → ℕ → Message → Bytes → List JobRow → List Group → ℤ → World → Response
  show_job session status message imported jobs groups id w =
      if not (above id 0)
      then answered (page status (discovery session message imported jobs groups none))
      else elim (job e.discovery_fails (pos_part id) w.db) [
        | err why ↦ not_found
        | ok found ↦ elim (list_devices e.orders e.discovery_fails (pos_part id) w.db) [
          | err why ↦ internal_error
          | ok devices ↦
              answered (
                page status
                  (discovery session message imported jobs groups (some (found, devices))))
        ]
      ]

  -- renderDiscovery, with the parameters `job` and `imported` of the query.
  unfoldable pub render_discovery : Session → ℕ → Message → List (Bytes × Bytes) → World → Response
  render_discovery session status message query w = elim (list_jobs e.discovery_fails w.db) [
    | err why ↦ internal_error
    | ok jobs ↦ elim (list_groups e.discovery_fails w.db) [
      | err why ↦ internal_error
      | ok groups ↦
          show_job session status message (imported_message (form_value (codes "imported") query))
            jobs groups (first_job (int_value (form_value (codes "job") query)) jobs) w
    ]
  ]

  unfoldable pub discovery_page : Request → World → Response
  unfolding render_discovery
  discovery_page r w =
      with_session r w (λ session. render_discovery session 200 no_message r.query w)
