-- ===== src/Machines/Input.antt =====
-- machines.validateCreateInput. `netip.ParseAddr`, `Addr.String` and `unicode.IsControl` on the runes
-- of a text are parameters. Durations are in nanoseconds.
use agentless_monitoring.Common.{
  ℕ, ◌*◌, ◌≤◌, ◌≡◌, arith, Option-cases, inl, inr, Bool, true, false, not, ◌||◌, [], ◌∷◌, Option,
  some, Bytes, codes, trim_space, starts_with, has_any, Result, ok, ◌>>=◌, ◌>>◌, refuse_if, or_err,
  ltb, ◌==◌, if◌then◌else◌, length,
}
use agentless_monitoring.Common.Int.{ℤ, pos, below, above, is_zero, pos_part}
use agentless_monitoring.Net.{Addr, allowed_target}
use agentless_monitoring.Storage.Tables.{CheckType, tcp, http, https, other}

abbrev pub millisecond : ℕ
millisecond = 1000000

abbrev pub second : ℕ
second = 1000 * millisecond

pub record CreateInput : Type 0 where
  pub name : Bytes
  pub target : Bytes
  pub description : Bytes
  pub check_type : CheckType
  pub port : ℤ
  pub path : Bytes
  pub timeout : ℤ
  pub check_interval : ℤ
  pub failure_threshold : ℤ
  pub recovery_threshold : ℤ

-- The messages that are wrapped round ErrInvalidInput.
pub data InvalidInput : Type 0 where
  bad_name bad_target not_unicast bad_description bad_check_type bad_port bad_path : InvalidInput
  bad_timeout bad_interval bad_failure_threshold bad_recovery_threshold : InvalidInput

-- `if x == 0 { x = fallback }`
abbrev pub default_to : ℤ → ℕ → ℤ
default_to x fallback = if is_zero x then pos fallback else x

abbrev pub outside : ℤ → ℕ → ℕ → Bool
outside x lo hi = below x lo || above x hi

abbrev pub default_path : Bytes → Bytes
default_path [] = codes "/"
default_path (c ∷ cs) = c ∷ cs

abbrev pub supported : CheckType → Bool
supported tcp = true
supported http = true
supported https = true
supported (other text) = false

module _ (parse_addr : Bytes → Option Addr) (addr_string : Addr → Bytes)
    (has_control : Bytes → Bool) where
  unfoldable pub validate_create_input : CreateInput → Result InvalidInput CreateInput
  validate_create_input input = do
    let name = trim_space input.name
    let description = trim_space input.description
    let path = default_path (trim_space input.path)
    let timeout = default_to input.timeout (5 * second)
    let check_interval = default_to input.check_interval (60 * second)
    let failure_threshold = default_to input.failure_threshold 3
    let recovery_threshold = default_to input.recovery_threshold 1
    refuse_if (length name == 0 || ltb 100 (length name) || has_control name) bad_name
    address ← or_err (parse_addr (trim_space input.target)) bad_target
    refuse_if (not (allowed_target address)) not_unicast
    refuse_if (ltb 500 (length description) || has_control description) bad_description
    refuse_if (not (supported input.check_type)) bad_check_type
    refuse_if (outside input.port 1 65535) bad_port
    refuse_if
        (not (starts_with path (codes "/")) || ltb 256 (length path) || has_any path (13 ∷ 10 ∷ []))
        bad_path
    refuse_if (outside timeout (100 * millisecond) (30 * second)) bad_timeout
    refuse_if (outside check_interval (10 * second) (86400 * second)) bad_interval
    refuse_if (outside failure_threshold 1 20) bad_failure_threshold
    refuse_if (outside recovery_threshold 1 20) bad_recovery_threshold
    ok (record {
      name = name;
      target = addr_string address;
      description = description;
      check_type = input.check_type;
      port = input.port;
      path = path;
      timeout = timeout;
      check_interval = check_interval;
      failure_threshold = failure_threshold;
      recovery_threshold = recovery_threshold;
    })

-- What a validated input promises to the rest of the program.
pub record IsValid (has_control : Bytes → Bool) (i : CreateInput) : Type 0 where
  pub named : 1 ≤ length i.name
  pub name_short : length i.name ≤ 100
  pub name_printable : has_control i.name ≡ false
  pub description_short : length i.description ≤ 500
  pub description_printable : has_control i.description ≡ false
  pub type_known : supported i.check_type ≡ true
  pub port_bounds :
      (i.port ≡ pos (pos_part i.port)) × (1 ≤ pos_part i.port) × (pos_part i.port ≤ 65535)
  pub path_rooted : starts_with i.path (codes "/") ≡ true
  pub path_short : length i.path ≤ 256
  pub path_one_line : has_any i.path (13 ∷ 10 ∷ []) ≡ false
  pub timeout_bounds :
      (i.timeout ≡ pos (pos_part i.timeout))
      × (100 * millisecond ≤ pos_part i.timeout)
      × (pos_part i.timeout ≤ 30 * second)
  pub interval_bounds :
      (i.check_interval ≡ pos (pos_part i.check_interval))
      × (10 * second ≤ pos_part i.check_interval)
      × (pos_part i.check_interval ≤ 86400 * second)
  pub failure_bounds :
      (i.failure_threshold ≡ pos (pos_part i.failure_threshold))
      × (1 ≤ pos_part i.failure_threshold)
      × (pos_part i.failure_threshold ≤ 20)
  pub recovery_bounds :
      (i.recovery_threshold ≡ pos (pos_part i.recovery_threshold))
      × (1 ≤ pos_part i.recovery_threshold)
      × (pos_part i.recovery_threshold ≤ 20)

outside-false :
    (x : ℤ) (lo hi : ℕ)
    → outside x lo hi ≡ false
    → (x ≡ pos (pos_part x)) × (lo ≤ pos_part x) × (pos_part x ≤ hi)
outside-false x lo hi h = ground arith

module _ (parse_addr : Bytes → Option Addr) (addr_string : Addr → Bytes)
    (has_control : Bytes → Bool) where
  -- Whatever the input, the output of a validation that passes has a printable name of 1 to 100 bytes,
  -- a printable description of at most 500, a known type of check, a port from 1 to 65535, a path of
  -- one line that begins with a slash and has at most 256 bytes, a timeout from 100 ms to 30 s, an
  -- interval from 10 s to 24 h, and thresholds from 1 to 20.
  pub validate-IsValid :
      (input out : CreateInput)
      → validate_create_input parse_addr addr_string has_control input ≡ ok out
      → IsValid has_control out
  unfolding validate_create_input
  validate-IsValid input out h = ground arith

  -- The stored target is the canonical text of an address that may be monitored.
  pub validate-target :
      (input out : CreateInput)
      → validate_create_input parse_addr addr_string has_control input ≡ ok out
      → (a : Addr) × (parse_addr (trim_space input.target) ≡ some a)
        × (allowed_target a ≡ true)
        × (out.target ≡ addr_string a)
  unfolding validate_create_input
  validate-target input out h = elim (Option-cases (parse_addr (trim_space input.target))) [
    | inl e ↦ absurd (ground arith)
    | inr (a, e) ↦ (a, e, ground arith, ground arith)
  ]
