-- ===== src/Server/Handlers/Actions.antt =====
-- The handlers of POST requests in internal/server/auth_handlers.go behind a session.
use agentless_monitoring.Common.{
  ℕ, ◌-◌, ◌*◌, ◌%◌, ◌^◌, List, [], ◌∷◌, ◌++◌, Option, none, some, Bytes, codes, itoa, Result, ok,
  err, ltb, if◌then◌else◌,
}
use agentless_monitoring.Common.Decimal.{parse_int}
use agentless_monitoring.Common.Int.{ℤ, pos, negsuc}
use agentless_monitoring.Net.{Addr, bytes_eq}
use agentless_monitoring.Storage.Tables.{Db, CheckType, tcp, http, https, other, JobRow}
use agentless_monitoring.Auth.Users.{Error as AuthError}
use agentless_monitoring.Auth.Sessions.{Session, second, delete_session}
use agentless_monitoring.Machines.{Machine, Error as MachineError, duplicate, invalid_input, create}
use agentless_monitoring.Machines.Input.{CreateInput}
use agentless_monitoring.Machines.Record.{record_manual_result}
use agentless_monitoring.Machines.Listing.{get_by_check_id}
use agentless_monitoring.Monitoring.Runner.{run}
use agentless_monitoring.Discovery.Jobs.{Error as DiscoveryError, no_devices, invalid_group}
use agentless_monitoring.Discovery.Import.{import_devices}
use agentless_monitoring.Discovery.Service.{Service, StartError, store_failed, start_scan}
use agentless_monitoring.Server.Web.{
  Request, form_value, values_of, clear_cookie, session_cookie_name,
}
use agentless_monitoring.Server.Handlers.{
  Platform, Settings, Surroundings, World, Message, text, of_machine, of_start, of_discovery,
  machine_new, Response, answered, plain, page, with_cookie, redirect_to, not_found, internal_error,
  bad_form, bad_token, form_of, unparsed, refused, passed, positive_int, request_session,
}
use agentless_monitoring.Server.Handlers.Forms.{setup_submit, login_submit}
use agentless_monitoring.Server.Handlers.Pages.{render_discovery}

-- machines.CheckType(text)
abbrev check_type_of : Bytes → CheckType
check_type_of name =
    if bytes_eq name (codes "tcp")
    then tcp
    else if bytes_eq name (codes "http")
    then http
    else if bytes_eq name (codes "https")
    then https
    else other name

-- optionalPositiveInt; `none` is its error.
unfoldable pub optional_positive_int : Bytes → ℕ → Option ℕ
optional_positive_int [] fallback = some fallback
optional_positive_int (c ∷ s) fallback = positive_int (c ∷ s)

-- time.Duration(n) * time.Second, in 64 bits.
unfoldable pub seconds : ℕ → ℤ
seconds n =
    let wrapped = n * second % 2 ^ 64 in
    if ltb wrapped (2 ^ 63) then pos wrapped else negsuc (2 ^ 64 - 1 - wrapped)

-- The device numbers of a form that are positive numbers.
abbrev device_ids : List Bytes → List ℤ
device_ids [] = []
device_ids (v ∷ vs) =
    let rest = device_ids vs in elim (positive_int v) [ none ↦ rest | some n ↦ pos n ∷ rest ]

pub data Route : Type 0 where
  setup login logout create_machine run_check_now start_discovery import_discovery : Route

module _ (p : Platform) (s : Settings) (e : Surroundings) where
  -- The start of the handlers behind a session: the way to the login, an error, or the action.
  abbrev pub with_form :
      Response
      → Request
      → World
      → (Bytes → Session → List (Bytes × Bytes) → Response × World)
      → Response × World
  with_form away r w act = elim (request_session p s e r w) [
    | none ↦ (away, w)
    | some (token, session) ↦ elim (form_of r session) [
      | unparsed ↦ (bad_form, w)
      | refused ↦ (bad_token, w)
      | passed form ↦ act token session form
    ]
  ]

  abbrev login_page_response : Response
  login_page_response = redirect_to (codes "/login")

  abbrev signed_out : Response
  signed_out =
      with_cookie (clear_cookie (session_cookie_name s.secure_cookies) s.secure_cookies)
        login_page_response

  abbrev machine_error : Session → Message → Response
  machine_error session message = answered (page 400 (machine_new session message))

  abbrev machine_answer : Session → World → Result MachineError Machine × Db → Response × World
  machine_answer session w (err why, db) =
      let shown = machine_error session (of_machine why) in
      (
        elim why [
          | duplicate ↦ machine_error session (text (codes "That target and check already exist."))
          | invalid_input bad ↦ shown
          | _ ↦ internal_error
        ],
        record w { db = db },
      )
  machine_answer session w (ok machine, db) =
      (redirect_to (codes "/dashboard"), record w { db = db })

  -- The input that the form of machineCreateSubmit gives.
  abbrev machine_input : List (Bytes × Bytes) → ℤ → ℕ → ℕ → ℕ → CreateInput
  machine_input form port interval failure_threshold recovery_threshold = record {
    name = form_value (codes "name") form;
    target = form_value (codes "target") form;
    description = form_value (codes "description") form;
    check_type = check_type_of (form_value (codes "check_type") form);
    port = port;
    path = form_value (codes "path") form;
    timeout = pos (5 * second);
    check_interval = seconds interval;
    failure_threshold = pos failure_threshold;
    recovery_threshold = pos recovery_threshold;
  }

  abbrev machine_form : Session → List (Bytes × Bytes) → World → Response × World
  machine_form session form w = elim (parse_int (form_value (codes "port") form)) [
    | none ↦ (machine_error session (text (codes "Port must be a number.")), w)
    | some port ↦
        elim (optional_positive_int (form_value (codes "check_interval_seconds") form) 60) [
          | none ↦ (
            machine_error session (text (codes "Check interval must be a number of seconds.")),
            w,
          )
          | some interval ↦
              elim (optional_positive_int (form_value (codes "failure_threshold") form) 3) [
                | none ↦
                    (machine_error session (text (codes "Failure threshold must be a number.")), w)
                | some failures ↦
                    elim (optional_positive_int (form_value (codes "recovery_threshold") form) 1) [
                      | none ↦ (
                        machine_error session (text (codes "Recovery threshold must be a number.")),
                        w,
                      )
                      | some recoveries ↦ machine_answer session w (
                          create p.parse_addr p.addr_string p.has_control e.machine_fails
                            session.user.id (machine_input form port interval failures recoveries)
                            w.db)
                    ]
              ]
        ]
  ]

  unfoldable pub machine_create_submit : Request → World → Response × World
  unfolding optional_positive_int seconds
  machine_create_submit r w =
      with_form login_page_response r w (λ token session form. machine_form session form w)

  abbrev recorded : World → Result MachineError (Unit {0}) × Db → Response × World
  recorded w (err why, db) = (internal_error, record w { db = db })
  recorded w (ok u, db) = (redirect_to (codes "/dashboard"), record w { db = db })

  abbrev run_check : Session → ℕ → World → Response × World
  run_check session check_id w = elim (get_by_check_id e.machine_fails check_id w.db) [
    | err why ↦ (not_found, w)
    | ok machine ↦
        let (outcome, contacts) =
          run p.parse_addr p.parse_url p.wrapped e.serve e.dial e.elapsed s.allow_sensitive
            machine in
        recorded w (
          record_manual_result e.machine_fails session.user.id check_id outcome.status
            (pos outcome.response_time) outcome.summary e.now w.db)
  ]

  unfoldable pub check_run_submit : Request → World → Response × World
  check_run_submit r w = with_form login_page_response r w (λ token session form.
      elim (positive_int r.id) [
        | none ↦ (answered (plain 400 (codes "invalid check")), w)
        | some check_id ↦ run_check session check_id w
      ])

  abbrev signed_out_by : World → Result AuthError (Unit {0}) × Db → Response × World
  signed_out_by w (err why, db) = (internal_error, record w { db = db })
  signed_out_by w (ok u, db) = (signed_out, record w { db = db })

  unfoldable pub logout_submit : Request → World → Response × World
  logout_submit r w = with_form signed_out r w (λ token session form.
      signed_out_by w (delete_session p.format_seconds p.sha256 e.auth_fails token w.db))

  abbrev after_start : World → Service → World
  after_start w service = record w { db = service.db; scanning = service.running }

  abbrev start_answer :
      Request
      → Session
      → World
      → Result StartError (JobRow × List Addr) × Service
      → Response × World
  start_answer r session w (err why, service) =
      let after = after_start w service in
      let shown = render_discovery p s e session 400 (of_start why) r.query after in
      (elim why [ store_failed cause ↦ internal_error | _ ↦ shown ], after)
  start_answer r session w (ok (job, addresses), service) =
      (redirect_to (codes "/discovery?job=" ++ itoa job.id), after_start w service)

  unfoldable pub discovery_start_submit : Request → World → Response × World
  discovery_start_submit r w = with_form login_page_response r w (λ token session form.
      start_answer r session w (
        start_scan p.parse_addr p.parse_prefix p.addr_string p.prefix_string s.allow_sensitive
          e.discovery_fails session.user.id (form_value (codes "target") form)
          (record { running = w.scanning; db = w.db })))

  abbrev import_answer : Session → ℕ → World → Result DiscoveryError ℕ × Db → Response × World
  import_answer session job_id w (err why, db) =
      let after = record w { db = db } in
      let shown =
        render_discovery p s e session 400 (of_discovery why) ((codes "job", itoa job_id) ∷ [])
          after in
      (elim why [ no_devices ↦ shown | invalid_group ↦ shown | _ ↦ internal_error ], after)
  import_answer session job_id w (ok count, db) = (
    redirect_to (codes "/discovery?job=" ++ itoa job_id ++ codes "&imported=" ++ itoa count),
    record w { db = db },
  )

  unfoldable pub discovery_import_submit : Request → World → Response × World
  discovery_import_submit r w = with_form login_page_response r w (λ token session form.
      elim (positive_int r.id) [
        | none ↦ (answered (plain 400 (codes "invalid discovery job")), w)
        | some job_id ↦ import_answer session job_id w (
            import_devices p.has_control e.discovery_fails session.user.id job_id
              (device_ids (values_of (codes "device_id") form))
              (form_value (codes "group_name") form) w.db)
      ])

  -- The routes of registerWebRoutes for POST requests.
  unfoldable pub submit : Route → Request → World → Response × World
  submit setup r w = setup_submit p s e r w
  submit login r w = login_submit p s e r w
  submit logout r w = logout_submit r w
  submit create_machine r w = machine_create_submit r w
  submit run_check_now r w = check_run_submit r w
  submit start_discovery r w = discovery_start_submit r w
  submit import_discovery r w = discovery_import_submit r w
