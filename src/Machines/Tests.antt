-- ===== src/Machines/Tests.antt =====
-- The store of the machines on concrete tables.
use agentless_monitoring.Common.{
  ℕ, ◌≡◌, refl, inl, List, [], ◌∷◌, Bytes, arith, Bool, true, false, Option, none, some, codes, ok,
  err, leb, if◌then◌else◌, take, trim_space, starts_with, strip_prefix, has_any,
}
use agentless_monitoring.Common.Int.{pos}
use agentless_monitoring.Net.{Addr, v4, allowed_target}
use agentless_monitoring.Storage.Tables.{
  Db, empty_db, MachineRow, CheckRow, Status, healthy, critical, unknown, tcp,
}
use agentless_monitoring.Machines.{
  duplicate, Faults, Machine, check_exists, insert_machine_row, insert_check_row, create_rows,
  create,
}
use agentless_monitoring.Machines.Input.{
  CreateInput, validate_create_input, IsValid, validate-IsValid, validate-target,
}
use agentless_monitoring.Machines.Thresholds.{
  after, streak, is_failure, is_healthy, HadFailures, after-streaks, after-alarm, after-critical,
}
use agentless_monitoring.Machines.Record.{
  advance, machine_status, audit_check, record_rows, record_body, record_result,
}
use agentless_monitoring.Machines.Invariant.{IsConsistent}
use agentless_monitoring.Machines.Recorded.{record_result-IsConsistent}
use agentless_monitoring.Machines.Effects.{IsRecorded, record_result-IsRecorded}
use agentless_monitoring.Machines.Creation.{create-IsConsistent, create_twice}
use agentless_monitoring.Machines.Listing.{name_before, joined, list, list_due, Summary}
use agentless_monitoring.Machines.Due.{due_now, list_due-take}

abbrev no_faults : Faults
no_faults site = false

abbrev host : Bytes
host = codes "h"

abbrev parse_addr : Bytes → Option Addr
parse_addr s = some (v4 0x0a000001)

abbrev addr_string : Addr → Bytes
addr_string a = host

abbrev has_control : Bytes → Bool
has_control s = false

abbrev input : CreateInput
input = record {
  name = host;
  target = host;
  description = [];
  check_type = tcp;
  port = pos 22;
  path = [];
  timeout = pos 0;
  check_interval = pos 0;
  failure_threshold = pos 0;
  recovery_threshold = pos 2;
}

abbrev valid : CreateInput
valid = record {
  name = host;
  target = host;
  description = [];
  check_type = tcp;
  port = pos 22;
  path = codes "/";
  timeout = pos 5000000000;
  check_interval = pos 60000000000;
  failure_threshold = pos 3;
  recovery_threshold = pos 2;
}

abbrev input_valid : validate_create_input parse_addr addr_string has_control input ≡ ok valid
unfolding validate_create_input trim_space starts_with strip_prefix has_any allowed_target
input_valid = refl

validate-IsValid_example : IsValid has_control valid
validate-IsValid_example =
    validate-IsValid parse_addr addr_string has_control input valid input_valid

validate-target_example :
    (a : Addr) × (parse_addr (trim_space input.target) ≡ some a)
    × (allowed_target a ≡ true)
    × (valid.target ≡ addr_string a)
validate-target_example = validate-target parse_addr addr_string has_control input valid input_valid

abbrev results : List Status
results = critical ∷ critical ∷ healthy ∷ []

after-streaks_example :
    ((after 2 1 results).failures ≡ streak is_failure results)
    × ((after 2 1 results).successes ≡ streak is_healthy results)
after-streaks_example = after-streaks 2 1 results

after-alarm_example :
    (after 2 1 results).status ≡ (if leb 2 (streak is_failure results) then critical else healthy)
after-alarm_example = after-alarm 2 1 results (omega arith) (omega arith) (inl (omega arith))

after-critical_example : HadFailures 2 results
unfolding after advance
after-critical_example = after-critical 2 1 results refl

abbrev row : MachineRow
row = record {
  id = 1;
  display_name = host;
  target = host;
  description = [];
  status = unknown;
  enabled = true;
}

abbrev check : CheckRow
check = record {
  id = 1;
  machine_id = 1;
  check_type = tcp;
  port = 22;
  path = codes "/";
  timeout_ms = 5000;
  status = unknown;
  last_checked_at = none;
  response_time_ms = none;
  last_error = none;
  enabled = true;
  check_interval_seconds = 60;
  failure_threshold = 3;
  recovery_threshold = 1;
  consecutive_failures = 0;
  consecutive_successes = 0;
}

abbrev one_machine : Db
one_machine = record empty_db { machines = row ∷ []; checks = check ∷ [] }

abbrev one_machine-IsConsistent : IsConsistent one_machine
unfolding machine_status
one_machine-IsConsistent = record { statuses = (refl, tt); references = (omega arith, tt) }

record_result-IsConsistent_example :
    IsConsistent (record_result no_faults none 1 healthy (pos 7) [] [] [] 9 one_machine).1
record_result-IsConsistent_example =
    record_result-IsConsistent no_faults none 1 healthy (pos 7) [] [] [] 9 one_machine
      one_machine-IsConsistent

record_result-IsRecorded_example :
    IsRecorded 1 healthy
      (pos 7)
      []
      []
      []
      9
      one_machine
      (record_result no_faults none 1 healthy (pos 7) [] [] [] 9 one_machine).1
unfolding record_result record_body record_rows audit_check
record_result-IsRecorded_example =
    record_result-IsRecorded no_faults none 1 healthy (pos 7) [] [] [] 9 one_machine refl

create-IsConsistent_example :
    IsConsistent (create parse_addr addr_string has_control no_faults 1 input one_machine).1
create-IsConsistent_example =
    create-IsConsistent parse_addr addr_string has_control no_faults 1 input one_machine
      one_machine-IsConsistent

abbrev monitored : ℕ → Status → Machine
monitored threshold status = record {
  id = 1;
  name = host;
  target = host;
  description = [];
  status = status;
  check_id = 1;
  check_type = tcp;
  port = 22;
  path = codes "/";
  timeout = 5000000000;
  last_checked_at = none;
  response_time_ms = none;
  last_error = [];
  check_interval = 60000000000;
  failure_threshold = 3;
  recovery_threshold = threshold;
  consecutive_failures = 0;
  consecutive_successes = 0;
}

abbrev created_from_input :
    (create parse_addr addr_string has_control no_faults 1 input empty_db).0
    ≡ ok (monitored 2 unknown)
unfolding create create_rows check_exists insert_machine_row insert_check_row validate_create_input
    trim_space starts_with strip_prefix has_any allowed_target
created_from_input = refl

create_twice_example :
    create parse_addr addr_string has_control no_faults 5 input
      (create parse_addr addr_string has_control no_faults 1 input empty_db).1
    ≡ (err duplicate, (create parse_addr addr_string has_control no_faults 1 input empty_db).1)
create_twice_example =
    create_twice parse_addr addr_string has_control no_faults 1 input empty_db (monitored 2 unknown)
      no_faults 5 created_from_input refl refl

list_due-take_example :
    list_due no_faults 9 2 one_machine ≡ ok (take 2 (due_now 9 (monitored 1 unknown ∷ [])))
unfolding list name_before joined
list_due-take_example =
    list_due-take no_faults 9 2 one_machine (monitored 1 unknown ∷ []) (omega arith) refl

abbrev one_unknown : Summary
one_unknown = record { total = 1; healthy = 0; critical = 0; unknown = 1 }
