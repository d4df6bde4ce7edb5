-- ===== src/Monitoring/Runner.antt =====
-- internal/monitoring/runner.go. What the network does is an argument: the answer to a TCP dial, and
-- the reply to each request, which may depend on the requests so far. `netip.ParseAddr`, `url.Parse`
-- and the text of a url.Error are parameters; the loop of `client.Do` over redirects is that of
-- net/http. Beside its
-- result each function returns the endpoints that it contacted.
pub mod Endpoint
pub mod Policy
use agentless_monitoring.Common.{
  any, ◌==◌, ℕ, zero, suc, ◌+◌, ◌≤◌, ◌≡◌, refl, ◌⊎◌, inl, inr, Bool, true, false, not, ◌&&◌, ◌||◌,
  List, [], ◌∷◌, ◌++◌, Option, none, some, Bytes, codes, itoa, arith, Result, ok, err, ltb, leb,
  if◌then◌else◌, length, All, All-append, Bool-cases, Option-cases,
}
use agentless_monitoring.Net.{Addr, addr_eq, bytes_eq, allowed_target, is_sensitive_service_address}
use agentless_monitoring.Storage.Tables.{
  Status, healthy, critical, CheckType, tcp, http, https, other,
}
use agentless_monitoring.Machines.{Machine}

-- monitoring.Result
pub record CheckOutcome : Type 0 where
  pub status : Status
  pub summary : Bytes
  pub response_time : ℕ
  pub error_category : Bytes

-- The parts of a *url.URL that the program reads.
pub record Url : Type 0 where
  pub scheme : Bytes
  pub hostname : Bytes
  pub port : Bytes

-- A reply to a request: a response that is not followed, a redirect, or a failure.
pub data Reply : Type 0 where
  answered : ℕ → Reply
  redirect : Url → Reply
  broken : Bytes → Reply

-- What `client.Do` returns; `unfinished` is the end of the fuel.
pub data Response : Type 0 where
  unfinished : Response
  status_code : ℕ → Response
  request_error : Bytes → Response

-- What the runner contacts: a port of an address, or the server of a URL.
pub data Contact : Type 0 where
  dialed : Bytes → ℕ → Contact
  requested : Url → Contact

unfoldable pub failed_result : ℕ → Bytes → Bytes → CheckOutcome
failed_result elapsed message category = record {
  status = critical;
  summary = message;
  response_time = elapsed;
  error_category = category;
}

abbrev refused : Bytes → CheckOutcome
refused message = record {
  status = critical;
  summary = message;
  response_time = 0;
  error_category = codes "configuration";
}

abbrev pub scheme_of : CheckType → Bytes
scheme_of tcp = codes "tcp"
scheme_of http = codes "http"
scheme_of https = codes "https"
scheme_of (other text) = text

-- net.JoinHostPort: a host with a colon, an IPv6 address, is put in brackets.
abbrev pub join_host_port : Bytes → Bytes → Bytes
join_host_port host port =
    if any (λ c. c == 58) host
    then codes "[" ++ (host ++ (codes "]:" ++ port))
    else host ++ (codes ":" ++ port)

-- fmt.Sprintf("%s://%s%s", scheme, net.JoinHostPort(target, port), path)
abbrev pub url_text : Bytes → Bytes → ℕ → Bytes → Bytes
url_text scheme target port path =
    scheme ++ (codes "://" ++ (join_host_port target (itoa port) ++ path))

-- The URL of a machine's check.
unfoldable pub endpoint_text : Machine → Bytes
endpoint_text m = url_text (scheme_of m.check_type) m.target m.port m.path

-- `endpoint.Port()`, or the default port of the scheme; none for a scheme that has none.
abbrev pub effective_port : Url → Option Bytes
effective_port u =
    if not (bytes_eq u.port [])
    then some u.port
    else if bytes_eq u.scheme (codes "http")
    then some (codes "80")
    else if bytes_eq u.scheme (codes "https")
    then some (codes "443")
    else none

abbrev is_port : ℕ → Option Bytes → Bool
is_port port none = false
is_port port (some text) = bytes_eq text (itoa port)

abbrev is_address : Addr → Option Addr → Bool
is_address address none = false
is_address address (some a) = addr_eq a address

module _ (parse_addr : Bytes → Option Addr) where
  unfoldable pub same_endpoint : Url → Addr → Bytes → ℕ → Bool
  same_endpoint u address scheme port =
      is_address address (parse_addr u.hostname)
      && bytes_eq u.scheme scheme
      && is_port port (effective_port u)

  -- CheckRedirect of runHTTP, for a redirect after the requests `previous`.
  unfoldable pub refuses : Addr → Bytes → ℕ → List Contact → Url → Bool
  refuses address scheme port previous u =
      leb 3 (length previous) || not (same_endpoint u address scheme port)

  -- `client.Do`: requests and redirects, until a response, a failure or a refused redirect. The
  -- fuel never runs out, since the third redirect is refused. `wrapped v cause` is the text of the
  -- url.Error that `client.Do` makes of a refused redirect to `v`.
  unfoldable pub follow :
      (Url → Bytes → Bytes)
      → (List Contact → Reply)
      → Addr
      → Bytes
      → ℕ
      → ℕ
      → List Contact
      → Url
      → Response × List Contact
  follow wrapped serve address scheme port zero made u = (unfinished, made)
  follow wrapped serve address scheme port (suc fuel) made u =
      let sent = made ++ requested u ∷ [] in
      elim (serve sent) [
        | answered code ↦ (status_code code, sent)
        | broken message ↦ (request_error message, sent)
        | redirect v ↦ elim (refuses address scheme port sent v) [
          | true ↦ (request_error (wrapped v (codes "redirect left the monitored endpoint")), sent)
          | false ↦ follow wrapped serve address scheme port fuel sent v
        ]
      ]

  abbrev pub of_response : ℕ → Response → CheckOutcome
  of_response elapsed unfinished = failed_result elapsed [] (codes "network")
  of_response elapsed (request_error message) = failed_result elapsed message (codes "network")
  of_response elapsed (status_code code) = record {
    status = if ltb code 200 || leb 400 code then critical else healthy;
    summary = codes "HTTP status " ++ itoa code;
    response_time = elapsed;
    error_category = if ltb code 200 || leb 400 code then codes "http_status" else [];
  }

  module _ (parse_url : Bytes → Result Bytes Url) (wrapped : Url → Bytes → Bytes)
      (serve : List Contact → Reply) (dial : Bytes → ℕ → Option Bytes) (elapsed : ℕ) where
    unfoldable pub run_http : Machine → Addr → CheckOutcome × List Contact
    run_http machine address = elim (parse_url (endpoint_text machine)) [
      | err message ↦ (failed_result elapsed message (codes "configuration"), [])
      | ok u ↦
          let (response, contacts) =
            follow wrapped serve address (scheme_of machine.check_type) machine.port 3 [] u in
          (of_response elapsed response, contacts)
    ]

    abbrev dial_result : Option Bytes → CheckOutcome
    dial_result (some message) = failed_result elapsed message (codes "network")
    dial_result none = record {
      status = healthy;
      summary = codes "TCP connection succeeded";
      response_time = elapsed;
      error_category = [];
    }

    abbrev pub by_type : Machine → Addr → CheckType → CheckOutcome × List Contact
    by_type machine address tcp =
        (dial_result (dial machine.target machine.port), dialed machine.target machine.port ∷ [])
    by_type machine address http = run_http machine address
    by_type machine address https = run_http machine address
    by_type machine address (other text) = (refused (codes "unsupported check type"), [])

    -- `none` is a target that cannot be parsed.
    abbrev pub by_address : Bool → Machine → Option Addr → CheckOutcome × List Contact
    by_address allow_sensitive machine none =
        (refused (codes "target is not a valid unicast address"), [])
    by_address allow_sensitive machine (some address) =
        if not (allowed_target address)
        then (refused (codes "target is not a valid unicast address"), [])
        else if not allow_sensitive && is_sensitive_service_address address
        then (refused (codes "target is blocked by network policy"), [])
        else by_type machine address machine.check_type

    unfoldable pub run : Bool → Machine → CheckOutcome × List Contact
    run allow_sensitive machine = by_address allow_sensitive machine (parse_addr machine.target)
