-- ===== src/Config.antt =====
-- internal/config/config.go. The environment is a function; net.SplitHostPort, net.ParseIP (with
-- IsLoopback), netip.ParseAddr, netip.ParsePrefix and time.ParseDuration are parameters. A duration
-- is in nanoseconds.
pub mod Validity
pub mod Tests
use agentless_monitoring.Common.{
  ℕ, ◌+◌, ◌*◌, ◌^◌, Bool, true, false, not, ◌&&◌, ◌||◌, List, [], ◌∷◌, ◌++◌, Option, none, some,
  Bytes, bytes_discrete, codes, split, trim_space, Result, ok, err, ◌>>=◌, ◌>>◌, refuse_if, or_err,
  ltb, ◌==◌, if◌then◌else◌, length, any, map,
}
use agentless_monitoring.Common.Decimal.{parse_int}
use agentless_monitoring.Common.Int.{ℤ, pos, negsuc, below, above}
use agentless_monitoring.Net.{Addr, bytes_eq}
use agentless_monitoring.Net.Prefixes.{Prefix, prefix_from, bit_len, masked}

abbrev pub millisecond : ℕ
millisecond = 10 ^ 6

abbrev pub second : ℕ
second = 10 ^ 9

abbrev pub maximum_shutdown_timeout : ℕ
maximum_shutdown_timeout = 5 * 60 * second

abbrev pub maximum_monitoring_workers : ℕ
maximum_monitoring_workers = 64

-- The variables that load reads.
pub data Variable : Type 0 where
  listen_address_env database_path_env secure_cookies_env allow_web_setup_env : Variable
  trusted_proxies_env allow_sensitive_targets_env shutdown_timeout_env : Variable
  monitoring_workers_env scheduler_poll_interval_env : Variable

pub record Config : Type 0 where
  pub listen_address : Bytes
  pub database_path : Bytes
  pub secure_cookies : Bool
  pub allow_web_setup : Bool
  pub trusted_proxies : List Prefix
  pub allow_sensitive_targets : Bool
  pub shutdown_timeout : ℤ
  pub monitoring_workers : ℤ
  pub scheduler_poll_interval : ℤ

-- The errors, each a place of the source; `bad` names the variable whose value does not parse.
pub data ConfigError : Type 0 where
  no_host_and_port host_not_explicit host_not_ip bad_port insecure_cookies : ConfigError
  empty_database_path null_in_database_path : ConfigError
  shutdown_not_positive shutdown_too_long bad_workers bad_poll_interval : ConfigError
  bad : Variable → ConfigError

abbrev pub default_config : Config
default_config = record {
  listen_address = codes "127.0.0.1:8080";
  database_path = codes "data/agentless-monitoring.db";
  secure_cookies = false;
  allow_web_setup = false;
  trusted_proxies = [];
  allow_sensitive_targets = false;
  shutdown_timeout = pos (10 * second);
  monitoring_workers = pos 4;
  scheduler_poll_interval = pos (2 * second);
}

-- strconv.ParseBool
unfoldable pub parse_bool : Bytes → Option Bool
parse_bool s =
    if any (bytes_eq s) (map codes ("1" ∷ "t" ∷ "T" ∷ "TRUE" ∷ "true" ∷ "True" ∷ []))
    then some true
    else if any (bytes_eq s) (map codes ("0" ∷ "f" ∷ "F" ∷ "FALSE" ∷ "false" ∷ "False" ∷ []))
    then some false
    else none

-- `if value, ok := lookupEnv(name); ok`, with a value that may not parse.
abbrev pub setting {ℓ} :
    {A : Type ℓ} → Option Bytes → (Bytes → Option A) → Variable → A → Result ConfigError A
setting none parse name fallback = ok fallback
setting (some value) parse name fallback = or_err (parse value) (bad name)

module _ (split_host_port : Bytes → Option (Bytes × Bytes))
    (is_loopback_ip : Bytes → Option Bool) where
  -- `is_loopback_ip` is net.ParseIP with IsLoopback of what it gives; `none` is a nil address.
  abbrev pub loopback_host : Option (Bytes × Bytes) → Bool
  loopback_host none = false
  loopback_host (some parts) = elim (is_loopback_ip parts.0) [ none ↦ false | some b ↦ b ]

  abbrev parsed_host : Option Bool → Bool
  parsed_host none = false
  parsed_host (some b) = true

  -- validateListenAddress
  unfoldable pub validate_listen_address : Bytes → Result ConfigError (Unit {0})
  validate_listen_address address = or_err (split_host_port address) no_host_and_port >>= λ parts.
      refuse_if (length parts.0 == 0) host_not_explicit
      >> refuse_if (not (parsed_host (is_loopback_ip parts.0))) host_not_ip
      >> (or_err (parse_int parts.1) bad_port >>= λ port.
          refuse_if (below port 1 || above port 65535) bad_port)

  -- Config.Validate
  unfoldable pub validate : Config → Result ConfigError (Unit {0})
  validate c =
      validate_listen_address c.listen_address
      >> refuse_if (not (loopback_host (split_host_port c.listen_address)) && not c.secure_cookies)
          insecure_cookies
      >> refuse_if (length (trim_space c.database_path) == 0) empty_database_path
      >> refuse_if (any (λ b. b == 0) c.database_path) null_in_database_path
      >> refuse_if (below c.shutdown_timeout 1) shutdown_not_positive
      >> refuse_if (above c.shutdown_timeout maximum_shutdown_timeout) shutdown_too_long
      >> refuse_if
          (below c.monitoring_workers 1 || above c.monitoring_workers maximum_monitoring_workers)
          bad_workers
      >> refuse_if
          (below c.scheduler_poll_interval (500 * millisecond)
            || above c.scheduler_poll_interval (60 * second))
          bad_poll_interval

  module _ (parse_addr : Bytes → Option Addr) (parse_prefix : Bytes → Option Prefix)
      (parse_duration : Bytes → Option ℤ) where
    -- One entry of the list of proxies; `none` if it is neither an address nor a prefix.
    abbrev parse_proxy : Bytes → Option Prefix
    parse_proxy raw = elim (parse_addr raw) [
      | some a ↦ some (prefix_from a (bit_len a))
      | none ↦ elim (parse_prefix raw) [ none ↦ none | some p ↦ some (masked p) ]
    ]

    abbrev add_proxy : Option Prefix → Option (List Prefix) → Option (List Prefix)
    add_proxy none rest = none
    add_proxy (some p) none = none
    add_proxy (some p) (some ps) = some (p ∷ ps)

    abbrev parse_proxies : List Bytes → Option (List Prefix)
    parse_proxies [] = some []
    parse_proxies (entry ∷ entries) =
        let raw = trim_space entry in
        let rest = parse_proxies entries in
        if length raw == 0 then rest else add_proxy (parse_proxy raw) rest

    -- parseTrustedProxies
    unfoldable pub parse_trusted_proxies : Bytes → Option (List Prefix)
    parse_trusted_proxies value = parse_proxies (split 44 value)

    -- load up to its call of Validate: the defaults, and the variables that are set.
    unfoldable pub read_config : (Variable → Option Bytes) → Result ConfigError Config
    unfolding parse_trusted_proxies parse_bool
    read_config lookup_env =
        let d = default_config in
        setting (lookup_env listen_address_env) (λ v. some v) listen_address_env d.listen_address
        >>= λ listen_address.
            setting (lookup_env database_path_env) (λ v. some v) database_path_env d.database_path
            >>= λ database_path.
                setting (lookup_env secure_cookies_env) parse_bool secure_cookies_env
                  d.secure_cookies
                >>= λ secure_cookies.
                    setting (lookup_env allow_web_setup_env) parse_bool allow_web_setup_env
                      d.allow_web_setup
                    >>= λ allow_web_setup.
                        setting (lookup_env trusted_proxies_env) parse_trusted_proxies
                          trusted_proxies_env d.trusted_proxies
                        >>= λ trusted_proxies.
                            setting (lookup_env allow_sensitive_targets_env) parse_bool
                              allow_sensitive_targets_env d.allow_sensitive_targets
                            >>= λ allow_sensitive_targets.
                                setting (lookup_env shutdown_timeout_env) parse_duration
                                  shutdown_timeout_env d.shutdown_timeout
                                >>= λ shutdown_timeout.
                                    setting (lookup_env monitoring_workers_env) parse_int
                                      monitoring_workers_env d.monitoring_workers
                                    >>= λ monitoring_workers.
                                        setting (lookup_env scheduler_poll_interval_env)
                                          parse_duration scheduler_poll_interval_env
                                          d.scheduler_poll_interval
                                        >>= λ scheduler_poll_interval. ok (record {
                                          listen_address = listen_address;
                                          database_path = database_path;
                                          secure_cookies = secure_cookies;
                                          allow_web_setup = allow_web_setup;
                                          trusted_proxies = trusted_proxies;
                                          allow_sensitive_targets = allow_sensitive_targets;
                                          shutdown_timeout = shutdown_timeout;
                                          monitoring_workers = monitoring_workers;
                                          scheduler_poll_interval = scheduler_poll_interval;
                                        })

    unfoldable pub load : (Variable → Option Bytes) → Result ConfigError Config
    unfolding read_config
    load lookup_env = read_config lookup_env >>= λ c. validate c >> ok c
