-- ===== src/Machines.antt =====
-- internal/machines/store.go: monitored machines, their checks, and the results of the checks.
-- Each method takes the tables and the test that says which of its database calls fail, and returns
-- its result with the tables as it leaves them.
pub mod Input
pub mod Record
pub mod Thresholds
pub mod Invariant
pub mod Recorded
pub mod Clipping
pub mod Calculated
pub mod Rows
pub mod Effects
pub mod Creation
pub mod Listing
pub mod Due
pub mod Tests
use agentless_monitoring.Common.{
  ℕ, ◌+◌, ◌*◌, ◌/◌, Bool, true, false, ◌&&◌, List, [], ◌∷◌, ◌++◌, map, Option, none, some, Bytes,
  codes, itoa, Result, ok, err, ◌>>=◌, ◌>>◌, refuse_if, or_err, ltb, leb, ◌==◌, if◌then◌else◌,
  length, keep, any, find,
}
use agentless_monitoring.Common.Int.{pos_part}
use agentless_monitoring.Net.{Addr, bytes_eq}
use agentless_monitoring.Storage.Tables.{
  Db, MachineRow, CheckRow, Status, unknown, CheckType, tcp, http, https, other, next_id,
  insert_audit,
}
use agentless_monitoring.Storage.Transaction.{transact}
use Input.{CreateInput, InvalidInput, validate_create_input, millisecond, second}

-- The database calls of the store.
pub data Site : Type 0 where
  begin commit find_duplicate insert_machine insert_check insert_audit_event list_machines : Site
  read_check insert_result update_check sum_statuses update_machine summarize list_history : Site

pub data Error : Type 0 where
  duplicate invalid_status no_rows : Error
  invalid_input : InvalidInput → Error
  database : Site → Error

abbrev pub Faults : Type 0
Faults = Site → Bool

abbrev pub call : Faults → Site → Result Error (Unit {0})
call fails site = refuse_if (fails site) (database site)

abbrev pub check_type_eq : CheckType → CheckType → Bool
check_type_eq tcp tcp = true
check_type_eq http http = true
check_type_eq https https = true
check_type_eq (other a) (other b) = bytes_eq a b
check_type_eq _ _ = false

-- The key that no two checks may share: target, type, port and path.
abbrev pub has_key : Bytes → CheckType → ℕ → Bytes → List MachineRow → CheckRow → Bool
has_key target check_type port path machines c =
    any (λ m. m.id == c.machine_id && bytes_eq m.target target) machines
    && check_type_eq c.check_type check_type
    && c.port == port
    && bytes_eq c.path path

-- SELECT EXISTS(SELECT 1 FROM machines JOIN checks …)
unfoldable pub check_exists : Bytes → CheckType → ℕ → Bytes → Db → Bool
check_exists target check_type port path db =
    any (has_key target check_type port path db.machines) db.checks

-- machines.Machine
pub record Machine : Type 0 where
  pub id : ℕ
  pub name : Bytes
  pub target : Bytes
  pub description : Bytes
  pub status : Status
  pub check_id : ℕ
  pub check_type : CheckType
  pub port : ℕ
  pub path : Bytes
  pub timeout : ℕ
  pub last_checked_at : Option ℕ
  pub response_time_ms : Option ℕ
  pub last_error : Bytes
  pub check_interval : ℕ
  pub failure_threshold : ℕ
  pub recovery_threshold : ℕ
  pub consecutive_failures : ℕ
  pub consecutive_successes : ℕ

-- INSERT INTO machines (display_name, target, description), with the defaults of the other columns.
abbrev pub new_machine : Bytes → Bytes → Bytes → Db → MachineRow
new_machine name target description db = record {
  id = next_id (λ r. r.id) db.machines;
  display_name = name;
  target = target;
  description = description;
  status = unknown;
  enabled = true;
}

unfoldable pub insert_machine_row : Bytes → Bytes → Bytes → Db → Db
insert_machine_row name target description db = record db {
  machines = db.machines ++ new_machine name target description db ∷ [];
}

-- A new row of `checks`, with the defaults of the columns that hold its state.
abbrev pub fresh_check : ℕ → ℕ → CheckType → ℕ → Bytes → ℕ → ℕ → ℕ → ℕ → CheckRow
fresh_check id machine_id check_type port path timeout_ms interval failures recoveries = record {
  id = id;
  machine_id = machine_id;
  check_type = check_type;
  port = port;
  path = path;
  timeout_ms = timeout_ms;
  status = unknown;
  last_checked_at = none;
  response_time_ms = none;
  last_error = none;
  enabled = true;
  check_interval_seconds = interval;
  failure_threshold = failures;
  recovery_threshold = recoveries;
  consecutive_failures = 0;
  consecutive_successes = 0;
}

-- INSERT INTO checks, for a validated input.
abbrev pub new_check : ℕ → CreateInput → Db → CheckRow
new_check machine_id input db =
    fresh_check (next_id (λ r. r.id) db.checks) machine_id input.check_type (pos_part input.port)
      input.path (pos_part input.timeout / millisecond) (pos_part input.check_interval / second)
      (pos_part input.failure_threshold) (pos_part input.recovery_threshold)

unfoldable pub insert_check_row : ℕ → CreateInput → Db → Db
insert_check_row machine_id input db = record db {
  checks = db.checks ++ new_check machine_id input db ∷ [];
}

abbrev created : ℕ → ℕ → CreateInput → Machine
created machine_id check_id input = record {
  id = machine_id;
  name = input.name;
  target = input.target;
  description = input.description;
  status = unknown;
  check_id = check_id;
  check_type = input.check_type;
  port = pos_part input.port;
  path = input.path;
  timeout = pos_part input.timeout;
  last_checked_at = none;
  response_time_ms = none;
  last_error = [];
  check_interval = pos_part input.check_interval;
  failure_threshold = pos_part input.failure_threshold;
  recovery_threshold = pos_part input.recovery_threshold;
  consecutive_failures = 0;
  consecutive_successes = 0;
}

-- The body of Create's transaction. That the insert of the check breaks the UNIQUE constraint on
-- (machine_id, check_type, port, path) cannot be: the machine is new, and has no check.
unfoldable pub create_rows : Faults → ℕ → CreateInput → Db → Result Error (Machine × Db)
create_rows fails actor input db = do
  call fails begin
  call fails find_duplicate
  refuse_if (check_exists input.target input.check_type (pos_part input.port) input.path db)
      duplicate
  call fails insert_machine
  let machine_id = next_id (λ r. r.id) db.machines
  let check_id = next_id (λ r. r.id) db.checks
  let with_machine = insert_machine_row input.name input.target input.description db
  call fails insert_check
  let with_check = insert_check_row machine_id input with_machine
  call fails insert_audit_event
  let audited =
      insert_audit (some actor) (codes "machine.created") (some (codes "machine"))
        (some (itoa machine_id)) (codes "success") none with_check
  call fails commit
  ok (created machine_id check_id input, audited)

abbrev pub or_invalid {ℓ} : {A : Type ℓ} → Result InvalidInput A → Result Error A
or_invalid (ok a) = ok a
or_invalid (err e) = err (invalid_input e)

module _ (parse_addr : Bytes → Option Addr) (addr_string : Addr → Bytes)
    (has_control : Bytes → Bool) where
  unfoldable pub create : Faults → ℕ → CreateInput → Db → Result Error Machine × Db
  create fails actor input db = transact db (do
    valid ← or_invalid (validate_create_input parse_addr addr_string has_control input)
    create_rows fails actor valid db)
