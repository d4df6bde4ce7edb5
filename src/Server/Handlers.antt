-- ===== src/Server/Handlers.antt =====
-- internal/server/auth_handlers.go: the state that a request finds, what the handlers are built from,
-- and their answers. A handler is a function of the request and of the state; rendering a page is
-- the answer `page` with what the page is given. The log is left out.
pub mod Pages
pub mod Forms
pub mod Actions
pub mod Access
pub mod SignIn
pub mod Tests
use agentless_monitoring.Common.{
  ℕ, ◌+◌, ◌-◌, ◌*◌, ◌/◌, ◌%◌, ◌^◌, Bool, true, false, not, ◌&&◌, ◌||◌, List, [], ◌∷◌, ◌++◌, Option,
  none, some, Bytes, codes, Result, ok, err, ltb, ◌==◌, if◌then◌else◌, length,
}
use agentless_monitoring.Common.Decimal.{parse_int}
use agentless_monitoring.Common.Int.{ℤ, pos, negsuc}
use agentless_monitoring.Net.{Addr}
use agentless_monitoring.Net.Prefixes.{Prefix}
use agentless_monitoring.Storage.Tables.{Db, JobRow, ResultRow}
use agentless_monitoring.Auth.Passwords.{PasswordParams}
use agentless_monitoring.Auth.Users.{Error as AuthError, Faults as AuthFaults}
use agentless_monitoring.Auth.Sessions.{Session, session_by_token}
use agentless_monitoring.Machines.{Machine, Error as MachineError, Faults as MachineFaults}
use agentless_monitoring.Machines.Listing.{Summary}
use agentless_monitoring.Monitoring.Runner.{Url, Reply, Contact}
use agentless_monitoring.Discovery.Jobs.{Error as DiscoveryError, Faults as DiscoveryFaults}
use agentless_monitoring.Discovery.Identity.{Device}
use agentless_monitoring.Discovery.Listing.{Group, Orders}
use agentless_monitoring.Discovery.Service.{StartError}
use agentless_monitoring.Server.Limiter.{LoginLimiter}
use agentless_monitoring.Server.Web.{
  Request, Cookie, cookie, session_cookie_name, set_form_cookie, random_web_token, form_value,
  tokens_equal,
}

-- What is not in the repository: argon2, SHA-256, and the parts of the standard library that stay
-- parameters.
pub record Platform : Type 0 where
  pub id_key : Bytes → Bytes → ℕ → ℕ → ℕ → ℕ → Bytes
  pub argon2_version : ℕ
  pub sha256 : Bytes → Bytes
  pub to_lower : Bytes → Bytes
  pub format_seconds : ℕ → Bytes
  pub parse_time : Bytes → Option ℕ
  pub has_control : Bytes → Bool
  pub split_host_port : Bytes → Option (Bytes × Bytes)
  pub parse_addr : Bytes → Option Addr
  pub addr_string : Addr → Bytes
  pub parse_prefix : Bytes → Option (Addr × ℕ)
  pub prefix_string : Addr → ℕ → Bytes
  pub parse_url : Bytes → Result Bytes Url
  pub wrapped : Url → Bytes → Bytes

-- The fields of Server and of its stores that do not change.
pub record Settings : Type 0 where
  pub secure_cookies : Bool
  pub allow_web_setup : Bool
  pub trusted_proxies : List Prefix
  pub password_params : PasswordParams
  pub allow_sensitive : Bool

-- What happens around one request: the clock, the random bytes, the calls that fail, the network.
pub record Surroundings : Type 0 where
  pub now : ℕ
  pub form_random : Option Bytes
  pub salt : Option Bytes
  pub token_random : Option Bytes
  pub csrf_random : Option Bytes
  pub auth_fails : AuthFaults
  pub machine_fails : MachineFaults
  pub discovery_fails : DiscoveryFaults
  pub orders : Orders
  pub serve : List Contact → Reply
  pub dial : Bytes → ℕ → Option Bytes
  pub elapsed : ℕ

-- The state that the handlers share; `scanning` is the flag of the discovery service.
pub record World : Type 0 where
  pub db : Db
  pub limiter : LoginLimiter
  pub scanning : Bool

-- The text that a page shows: one of the source's, or the text of an error.
pub data Message : Type 0 where
  text : Bytes → Message
  of_auth : AuthError → Message
  of_machine : MachineError → Message
  of_start : StartError → Message
  of_discovery : DiscoveryError → Message

abbrev pub no_message : Message
no_message = text []

-- The pages, with what they show.
pub data Page : Type 0 where
  auth_page : Bytes → Bytes → Message → Page
  dashboard : Session → Summary → List Machine → Page
  machine_new : Session → Message → Page
  discovery :
      Session → Message → Bytes → List JobRow → List Group → Option (JobRow × List Device) → Page
  check_history : Session → Machine → List ResultRow → Page

pub data Answer : Type 0 where
  redirect : Bytes → Answer
  plain : ℕ → Bytes → Answer
  page : ℕ → Page → Answer

pub record Response : Type 0 where
  pub answer : Answer
  pub cookies : List Cookie

abbrev pub answered : Answer → Response
answered a = record { answer = a; cookies = [] }

-- A cookie that was set before the rest of the response.
abbrev pub with_cookie : Cookie → Response → Response
with_cookie c r = record r { cookies = c ∷ r.cookies }

abbrev pub redirect_to : Bytes → Response
redirect_to location = answered (redirect location)

-- http.NotFound
abbrev pub not_found : Response
not_found = answered (plain 404 (codes "404 page not found"))

abbrev pub internal_error : Response
internal_error = answered (plain 500 (codes "internal server error"))

-- The answer of a handler that goes on after parseForm has failed: the status is that of the first
-- of the two errors.
abbrev pub bad_form : Response
bad_form = answered (plain 400 (codes "invalid form submission"))

abbrev pub bad_token : Response
bad_token = answered (plain 403 (codes "invalid form token"))

-- `!parseForm || !tokensEqual(csrf_token, session.CSRFToken)`
pub data FormCheck : Type 0 where
  unparsed refused : FormCheck
  passed : List (Bytes × Bytes) → FormCheck

abbrev check_token : Bytes → Option (List (Bytes × Bytes)) → FormCheck
check_token csrf none = unparsed
check_token csrf (some form) =
    if tokens_equal (form_value (codes "csrf_token") form) csrf then passed form else refused

abbrev pub form_of : Request → Session → FormCheck
form_of r session = check_token session.csrf_token r.form

-- A positive number, of a path or of a form.
abbrev positive_of : Option ℤ → Option ℕ
positive_of none = none
positive_of (some (negsuc n)) = none
positive_of (some (pos n)) = if ltb n 1 then none else some n

abbrev pub positive_int : Bytes → Option ℕ
positive_int value = positive_of (parse_int value)

module _ (p : Platform) (s : Settings) (e : Surroundings) where
  abbrev found_session : Bytes → Result AuthError Session → Option (Bytes × Session)
  found_session token (err why) = none
  found_session token (ok session) = some (token, session)

  abbrev lookup_session : World → Option Bytes → Option (Bytes × Session)
  lookup_session w none = none
  lookup_session w (some token) =
      found_session token
        (session_by_token p.format_seconds p.sha256 p.parse_time e.auth_fails token e.now w.db)

  -- requestSession
  unfoldable pub request_session : Request → World → Option (Bytes × Session)
  request_session r w = lookup_session w (cookie (session_cookie_name s.secure_cookies) r)

  -- renderAuthPage
  unfoldable pub render_auth_page : ℕ → Bytes → Message → Response
  render_auth_page status name message = elim (random_web_token e.form_random) [
    | none ↦ internal_error
    | some token ↦
        with_cookie (set_form_cookie s.secure_cookies token)
          (answered (page status (auth_page name token message)))
  ]
