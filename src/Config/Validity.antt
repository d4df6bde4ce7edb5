-- ===== src/Config/Validity.antt =====
-- What a configuration that is loaded promises to the rest of the program.
use agentless_monitoring.Common.{
  ℕ, ◌*◌, ◌≤◌, ◌≡◌, ◌⊎◌, inl, inr, refl, ap, sym, ◌∙◌, subst, ok_inj, Bool, true, false, ◌||◌,
  Option, some, Bytes, trim_space, ok, ◌>>◌, ◌==◌, length, any, arith, Option-cases, Result-cases,
  >>=-eq-ok,
}
use agentless_monitoring.Common.Decimal.{parse_int}
use agentless_monitoring.Common.Int.{ℤ, pos, negsuc, below, above}
use agentless_monitoring.Net.{Addr}
use agentless_monitoring.Net.Prefixes.{Prefix}
use agentless_monitoring.Config.{
  Config, Variable, second, millisecond, maximum_shutdown_timeout, maximum_monitoring_workers,
  loopback_host, validate_listen_address, validate, read_config, load,
}

module _ (split_host_port : Bytes → Option (Bytes × Bytes))
    (is_loopback_ip : Bytes → Option Bool) where
  -- The listen address is an IP address and a port.
  pub record IsListenAddress (address : Bytes) : Type 0 where
    pub host : Bytes
    pub port_text : Bytes
    pub port : ℕ
    pub split : split_host_port address ≡ some (host, port_text)
    pub is_ip : (b : Bool) × (is_loopback_ip host ≡ some b)
    pub parsed : parse_int port_text ≡ some (pos port)
    pub bounds : (1 ≤ port) × (port ≤ 65535)

  pub record IsValid (c : Config) : Type 0 where
    pub listens : IsListenAddress c.listen_address
    pub guarded :
        (c.secure_cookies ≡ true)
        ⊎ (loopback_host split_host_port is_loopback_ip (split_host_port c.listen_address) ≡ true)
    pub named : 1 ≤ length (trim_space c.database_path)
    pub no_null : any (λ b. b == 0) c.database_path ≡ false
    pub shutdown : (n : ℕ) × (c.shutdown_timeout ≡ pos n) × (1 ≤ n) × (n ≤ maximum_shutdown_timeout)
    pub workers :
        (n : ℕ) × (c.monitoring_workers ≡ pos n) × (1 ≤ n) × (n ≤ maximum_monitoring_workers)
    pub polls :
        (n : ℕ) × (c.scheduler_poll_interval ≡ pos n) × (500 * millisecond ≤ n) × (n ≤ 60 * second)

  within_bounds :
      (x : ℤ) (low high : ℕ)
      → below x low || above x high ≡ false
      → (n : ℕ) × (x ≡ pos n) × (low ≤ n) × (n ≤ high)
  within_bounds (pos n) low high h = (n, refl, ground arith, ground arith)
  within_bounds (negsuc n) low high h = absurd (ground arith)

  validate_listen_address-ok :
      (address : Bytes)
      → validate_listen_address split_host_port is_loopback_ip address ≡ ok tt
      → IsListenAddress address
  unfolding validate_listen_address
  validate_listen_address-ok address h = elim (Option-cases (split_host_port address)) [
    | inl none_there ↦ absurd (ground arith)
    | inr (parts, cut) ↦ elim (Option-cases (parse_int parts.1)) [
      | inl unread ↦ absurd (ground arith)
      | inr (z, read) ↦ elim (Option-cases (is_loopback_ip parts.0)) [
        | inl no_ip ↦ absurd (ground arith)
        | inr (b, ip) ↦
            let (n, same, low, high) = within_bounds z 1 65535 (ground arith) in
            record {
              host = parts.0;
              port_text = parts.1;
              port = n;
              split = cut;
              is_ip = (b, ip);
              parsed = read ∙ ap some same;
              bounds = (low, high);
            }
      ]
    ]
  ]

  validate-IsValid : (c : Config) → validate split_host_port is_loopback_ip c ≡ ok tt → IsValid c
  unfolding validate
  validate-IsValid c h =
      let listening : validate_listen_address split_host_port is_loopback_ip c.listen_address
          ≡ ok tt =
        ground arith in
      record {
        listens = validate_listen_address-ok c.listen_address listening;
        guarded = ground arith;
        named = ground arith;
        no_null = ground arith;
        shutdown = within_bounds c.shutdown_timeout 1 maximum_shutdown_timeout (ground arith);
        workers = within_bounds c.monitoring_workers 1 maximum_monitoring_workers (ground arith);
        polls =
            within_bounds c.scheduler_poll_interval (500 * millisecond) (60 * second)
              (ground arith);
      }

  validated :
      (c loaded : Config)
      → (validate split_host_port is_loopback_ip c >> ok c) ≡ ok loaded
      → IsValid loaded
  validated c loaded h = elim (Result-cases (validate split_host_port is_loopback_ip c)) [
    | inl (why, e) ↦ absurd (ground arith)
    | inr (u, e) ↦ subst IsValid (ok_inj (sym (ap (λ r. r >> ok c) e) ∙ h)) (validate-IsValid c e)
  ]

  -- A configuration that is loaded, from whatever environment, is valid: the server listens on an IP
  -- address and a port from 1 to 65535; cookies are secure or the address is a loopback address; the
  -- path of the database is not blank and holds no NUL; and the shutdown timeout, the number of
  -- workers and the poll interval are within their limits.
  pub load-IsValid :
      (parse_addr : Bytes → Option Addr) (parse_prefix : Bytes → Option Prefix)
      (parse_duration : Bytes → Option ℤ) (lookup_env : Variable → Option Bytes) (c : Config)
      → load split_host_port is_loopback_ip parse_addr parse_prefix parse_duration lookup_env ≡ ok c
      → IsValid c
  unfolding load
  load-IsValid parse_addr parse_prefix parse_duration lookup_env c h =
      let (read, done, checked) =
        >>=-eq-ok
          (read_config split_host_port is_loopback_ip parse_addr parse_prefix parse_duration
            lookup_env)
          (λ c. validate split_host_port is_loopback_ip c >> ok c) h in
      validated read c checked
