-- ===== src/Server/Handlers/Tests.antt =====
-- The handlers on concrete requests.
use agentless_monitoring.Common.{
  inr, ◌+◌, ◌*◌, ◌≡◌, ◌⊎◌, refl, List, [], ◌∷◌, Bytes, arith, true, false, Option, none, some,
  codes, ok, err, split, trim_space, strip_prefix, starts_with, bytes_discrete,
}
use agentless_monitoring.Common.Base64.{raw_std_decode}
use agentless_monitoring.Common.Assoc.{lookup}
use agentless_monitoring.Common.Int.{pos}
use agentless_monitoring.Net.{Addr, v4, v6}
use agentless_monitoring.Net.Prefixes.{Prefix, contains}
use agentless_monitoring.Storage.Tables.{UserRow}
use agentless_monitoring.Auth.Passwords.{
  production_password_params, verify_password, parse_parameters, parse_uint_parameter, decode_field,
}
use agentless_monitoring.Auth.Users.{
  matches_username, authenticate, check_password, accept_login, record_success, user_by_id,
}
use agentless_monitoring.Auth.Users.Logins.{IsKnown}
use agentless_monitoring.Auth.Sessions.{
  Session, second, session_duration, session_by_token, create_session, prepare_session,
  store_session, random_token,
}
use agentless_monitoring.Auth.Tests.{
  id_key, secret, admin, salt, tables, sha256, format_seconds, clock, raw, raw_csrf, start,
}
use agentless_monitoring.Monitoring.Runner.{broken}
use agentless_monitoring.Discovery.Listing.{Orders}
use agentless_monitoring.Server.Limiter.{
  new_login_limiter, allow, sweep, allow_attempt, count_attempt, account_key, hex_encode,
  remove_expired, evict_oldest,
}
use agentless_monitoring.Server.Web.{
  Request, form_value, tokens_equal, validate_form_csrf, is_trusted_proxy, rightmost,
  client_address,
}
use agentless_monitoring.Server.Web.ClientAddress.{IsProxy, client_address-rightmost}
use agentless_monitoring.Server.Handlers.{Platform, Settings, Surroundings, World, redirect}
use agentless_monitoring.Server.Handlers.Forms.{login_submit, open_session}
use agentless_monitoring.Server.Handlers.Actions.{logout, submit, seconds}
use agentless_monitoring.Server.Handlers.Access.{IsAuthorised, submit-IsAuthorised}
use agentless_monitoring.Server.Handlers.SignIn.{login_submit-session}

abbrev parse_addr : Bytes → Option Addr
parse_addr [] = none
parse_addr (c ∷ s) = some (v4 c)

abbrev addr_string : Addr → Bytes
addr_string (v4 n) = n ∷ []
addr_string (v6 n z) = n ∷ []

abbrev whole_host : Bytes → Option (Bytes × Bytes)
whole_host s = some (s, [])

abbrev platform : Platform
platform = record {
  id_key = id_key;
  argon2_version = 19;
  sha256 = sha256;
  to_lower = λ s. s;
  format_seconds = format_seconds;
  parse_time = λ s. some (start + session_duration);
  has_control = λ s. false;
  split_host_port = whole_host;
  parse_addr = parse_addr;
  addr_string = addr_string;
  parse_prefix = λ s. none;
  prefix_string = λ a n. [];
  parse_url = λ text. err [];
  wrapped = λ u cause. cause;
}

-- The one trusted proxy is the address 65.
abbrev proxy : Prefix
proxy = record { address = v4 65; bits = 32 }

abbrev settings : Settings
settings = record {
  secure_cookies = true;
  allow_web_setup = false;
  trusted_proxies = proxy ∷ [];
  password_params = production_password_params;
  allow_sensitive = false;
}

abbrev orders : Orders
orders = record {
  ports = λ ps. ps;
  port_keys = λ ps. ps;
  fingerprints = λ fs. fs;
  fingerprint_keys = λ fs. fs;
  group_keys = λ vs. vs;
}

abbrev surroundings : Surroundings
surroundings = record {
  now = start;
  form_random = some raw;
  salt = some salt;
  token_random = some raw;
  csrf_random = some raw_csrf;
  auth_fails = λ site. false;
  machine_fails = λ site. false;
  discovery_fails = λ site. false;
  orders = orders;
  serve = λ sent. broken [];
  dial = λ host port. none;
  elapsed = 0;
}

abbrev world : World
world = record { db = tables; limiter = new_login_limiter; scanning = false }

abbrev fields_of : Bytes → List (Bytes × Bytes)
fields_of csrf =
    (codes "csrf_token", csrf) ∷ (codes "username", admin) ∷ (codes "password", secret) ∷ []

-- "A" is the proxy, and the client has sent "B" where the proxies have appended "C" and "A".
abbrev login_request : Request
login_request = record {
  path = codes "/login";
  remote_addr = codes "A";
  cookies = (codes "__Host-agentless_monitoring_form_csrf", codes "t") ∷ [];
  forwarded_for = codes "B,C,A" ∷ [];
  form = some (fields_of (codes "t"));
  query = [];
  id = [];
}

proxies-appended : split 44 (codes "C,A") ≡ codes "C" ∷ codes "A" ∷ []
unfolding split
proxies-appended = refl

a-IsProxy : IsProxy whole_host parse_addr addr_string (proxy ∷ []) (codes "A")
unfolding trim_space strip_prefix contains
a-IsProxy = (v4 65, refl, refl)

c-is_client : is_trusted_proxy (proxy ∷ []) (v4 67) ≡ false
unfolding contains
c-is_client = refl

peer-trusted : is_trusted_proxy (proxy ∷ []) (v4 65) ≡ true
unfolding contains
peer-trusted = refl

c-parses : parse_addr (trim_space (codes "C")) ≡ some (v4 67)
unfolding trim_space strip_prefix
c-parses = refl

client_address-rightmost_example :
    client_address whole_host parse_addr addr_string (proxy ∷ []) login_request ≡ codes "C"
client_address-rightmost_example =
    client_address-rightmost whole_host parse_addr addr_string (proxy ∷ []) login_request (v4 65)
      (v4 67) (codes "B,") (codes "C,A") (codes "C") [] [] (codes "A" ∷ []) refl peer-trusted
      (inr (codes "B", refl)) refl proxies-appended (a-IsProxy, tt) c-parses c-is_client

submit-IsAuthorised_example :
    ((submit platform settings surroundings logout login_request world).1 ≡ world)
    ⊎ IsAuthorised platform settings surroundings logout login_request world
submit-IsAuthorised_example =
    submit-IsAuthorised platform settings surroundings logout login_request world

let_in :
    (login_submit platform settings surroundings login_request world).0.answer
    ≡ redirect (codes "/dashboard")
unfolding login_submit open_session validate_form_csrf tokens_equal client_address rightmost
    contains allow sweep allow_attempt count_attempt account_key hex_encode authenticate
    check_password accept_login record_success matches_username trim_space strip_prefix
    verify_password parse_parameters parse_uint_parameter decode_field raw_std_decode split
    starts_with bytes_discrete create_session prepare_session store_session user_by_id random_token
    new_login_limiter remove_expired evict_oldest lookup
let_in = refl

login_submit-session_example :
    (form : List (Bytes × Bytes)) × (u : UserRow) × (token : Bytes) × (session : Session)
    × (login_request.form ≡ some form)
    × IsKnown id_key 19
        (λ site. false)
        (form_value (codes "username") form)
        (form_value (codes "password") form)
        (client_address whole_host parse_addr addr_string (proxy ∷ []) login_request)
        tables
        u
    × (session.user.id ≡ u.id)
    × (session_by_token format_seconds sha256
          (λ s. some (start + session_duration))
          (λ site. false)
          token
          (2000 * second)
          (login_submit platform settings surroundings login_request world).1.db
        ≡ ok session)
login_submit-session_example =
    login_submit-session platform settings surroundings clock login_request world raw
      (2000 * second) refl refl let_in (omega arith) (omega arith) refl

-- A number of seconds that is too large for 64 bits of nanoseconds counts as another one: this one
-- passes for a little more than a minute.
seconds-wrapped : seconds 18446744134 ≡ pos 60290448384
unfolding seconds
seconds-wrapped = refl
