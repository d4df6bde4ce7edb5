-- ===== src/Config/Tests.antt =====
-- A configuration from a concrete environment.
use agentless_monitoring.Common.{
  ◌≡◌, refl, Bytes, Bool, true, Option, none, some, codes, ok, trim_space, strip_prefix,
  bytes_discrete,
}
use agentless_monitoring.Common.Int.{ℤ}
use agentless_monitoring.Net.{Addr}
use agentless_monitoring.Net.Prefixes.{Prefix}
use agentless_monitoring.Config.{
  Config, Variable, secure_cookies_env, default_config, parse_bool, validate_listen_address,
  validate, read_config, load,
}
use agentless_monitoring.Config.Validity.{IsValid, load-IsValid}

abbrev split_host_port : Bytes → Option (Bytes × Bytes)
split_host_port s = some (codes "127.0.0.1", codes "8080")

abbrev is_loopback_ip : Bytes → Option Bool
is_loopback_ip s = some true

abbrev no_addr : Bytes → Option Addr
no_addr s = none

abbrev no_prefix : Bytes → Option Prefix
no_prefix s = none

abbrev no_duration : Bytes → Option ℤ
no_duration s = none

abbrev environment : Variable → Option Bytes
environment secure_cookies_env = some (codes "true")
environment _ = none

abbrev secured : Config
secured = record default_config { secure_cookies = true }

loaded : load split_host_port is_loopback_ip no_addr no_prefix no_duration environment ≡ ok secured
unfolding load read_config validate validate_listen_address parse_bool trim_space strip_prefix
    bytes_discrete
loaded = refl

load-IsValid_example : IsValid split_host_port is_loopback_ip secured
load-IsValid_example =
    load-IsValid split_host_port is_loopback_ip no_addr no_prefix no_duration environment secured
      loaded
