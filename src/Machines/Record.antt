-- ===== src/Machines/Record.antt =====
-- recordResult of internal/machines/store.go: a result is added to the history, the check counts its
-- failures and successes, and the machine's status follows its checks. The clock is an argument.
use agentless_monitoring.Common.{
  ℕ, ◌+◌, ◌/◌, Bool, true, false, not, ◌&&◌, List, [], ◌∷◌, ◌++◌, Option, none, some, Bytes, codes,
  itoa, trim_space, take, Result, ok, ◌>>=◌, ◌>>◌, refuse_if, or_err, ltb, leb, ◌==◌, if◌then◌else◌,
  length, keep, any, find,
}
use agentless_monitoring.Common.Int.{ℤ, pos_part}
use agentless_monitoring.Storage.Tables.{
  Db, MachineRow, CheckRow, Status, healthy, critical, unknown, disabled, next_id, insert_audit,
}
use agentless_monitoring.Storage.Transaction.{transact}
use agentless_monitoring.Machines.{
  Error, invalid_status, no_rows, Faults, call, begin, commit, insert_audit_event, read_check,
  insert_result, update_check, sum_statuses, update_machine,
}
use agentless_monitoring.Machines.Input.{millisecond}

-- What a check remembers of its results.
pub record Counters : Type 0 where
  pub status : Status
  pub failures : ℕ
  pub successes : ℕ

-- `if status == StatusHealthy { … } else { … }`: the next status and counters of a check.
unfoldable pub advance : ℕ → ℕ → Counters → Status → Counters
advance failure_threshold recovery_threshold c healthy = record {
  status = if leb recovery_threshold (c.successes + 1) then healthy else c.status;
  failures = 0;
  successes = c.successes + 1;
}
advance failure_threshold recovery_threshold c _ = record {
  status = if leb failure_threshold (c.failures + 1) then critical else c.status;
  failures = c.failures + 1;
  successes = 0;
}

abbrev pub counters : CheckRow → Counters
counters c = record {
  status = c.status;
  failures = c.consecutive_failures;
  successes = c.consecutive_successes;
}

abbrev pub is_result : Status → Bool
is_result healthy = true
is_result critical = true
is_result _ = false

-- nullableError
abbrev pub nullable_error : Status → Bytes → Option Bytes
nullable_error healthy summary = none
nullable_error _ summary = some summary

-- `s = strings.TrimSpace(s); if s == "" { s = fallback }; if len(s) > limit { s = s[:limit] }`
unfoldable pub clip : ℕ → Bytes → Bytes → Bytes
clip limit fallback text =
    let trimmed = trim_space text in
    let chosen = if length trimmed == 0 then fallback else trimmed in
    if ltb limit (length chosen) then take limit chosen else chosen

abbrev pub is_status : Status → Status → Bool
is_status healthy healthy = true
is_status critical critical = true
is_status unknown unknown = true
is_status disabled disabled = true
is_status _ _ = false

abbrev pub is_enabled_check_of : ℕ → CheckRow → Bool
is_enabled_check_of machine_id c = c.machine_id == machine_id && c.enabled

-- The CASE over `checks WHERE machine_id = ? AND enabled = 1`.
unfoldable pub machine_status : List CheckRow → Status
machine_status rows =
    if any (λ c. is_status c.status critical) rows
    then critical
    else if any (λ c. is_status c.status unknown) rows
    then unknown
    else if ltb 0 (length rows)
        && length (keep (λ c. is_status c.status healthy) rows) == length rows
    then healthy
    else unknown

abbrev pub is_check : ℕ → CheckRow → Bool
is_check id c = c.id == id && c.enabled

-- UPDATE checks SET … WHERE id = ? AND enabled = 1
unfoldable pub update_checks : ℕ → (CheckRow → CheckRow) → List CheckRow → List CheckRow
update_checks id change [] = []
update_checks id change (c ∷ cs) =
    (if is_check id c then change c else c) ∷ update_checks id change cs

-- UPDATE machines SET status = ? WHERE id = ?
unfoldable pub update_status : ℕ → Status → List MachineRow → List MachineRow
update_status id status [] = []
update_status id status (m ∷ ms) =
    (if m.id == id then record m { status = status } else m) ∷ update_status id status ms

-- The row of a check after a result.
abbrev pub noted : ℕ → Status → ℕ → Bytes → Counters → CheckRow → CheckRow
noted now status elapsed_ms summary next c = record c {
  status = next.status;
  last_checked_at = some now;
  response_time_ms = some elapsed_ms;
  last_error = nullable_error status summary;
  consecutive_failures = next.failures;
  consecutive_successes = next.successes;
}

-- INSERT INTO check_results
unfoldable pub insert_history : ℕ → Status → ℕ → Bytes → Bytes → Bytes → ℕ → Db → Db
insert_history check_id status elapsed_ms category summary worker now db = record db {
  check_results =
      db.check_results
      ++ record {
        id = next_id (λ r. r.id) db.check_results;
        check_id = check_id;
        status = status;
        response_time_ms = elapsed_ms;
        error_category = category;
        summary = summary;
        worker = worker;
        checked_at = now;
      }
        ∷ [];
}

-- The last statement of the transaction, for a result that a user asked for.
unfoldable pub audit_check : Faults → Option ℕ → ℕ → Db → Result Error Db
audit_check fails none check_id db = ok db
audit_check fails (some actor) check_id db = do
  call fails insert_audit_event
  ok (
      insert_audit (some actor) (codes "check.executed") (some (codes "check"))
        (some (itoa check_id)) (codes "success") none db)

-- The transaction, once the texts are clipped.
unfoldable pub record_rows :
    Faults
    → Option ℕ
    → ℕ
    → Status
    → ℕ
    → Bytes
    → Bytes
    → Bytes
    → ℕ
    → Db
    → Result Error (Unit {0} × Db)
record_rows fails actor check_id status elapsed_ms category summary worker now db = do
  call fails begin
  call fails read_check
  check ← or_err (find (is_check check_id) db.checks) no_rows
  let next = advance check.failure_threshold check.recovery_threshold (counters check) status
  call fails insert_result
  let with_history = insert_history check_id status elapsed_ms category summary worker now db
  call fails update_check
  let checks = update_checks check_id (noted now status elapsed_ms summary next) db.checks
  refuse_if (not (length (keep (is_check check_id) db.checks) == 1)) no_rows
  call fails sum_statuses
  let machine = machine_status (keep (is_enabled_check_of check.machine_id) checks)
  call fails update_machine
  let updated = record with_history {
    checks = checks;
    machines = update_status check.machine_id machine db.machines;
  }
  audited ← audit_check fails actor check_id updated
  call fails commit
  ok (tt, audited)

-- The tests and the clipping in front of the transaction, and the transaction's body.
unfoldable pub record_body :
    Faults
    → Option ℕ
    → ℕ
    → Status
    → ℤ
    → Bytes
    → Bytes
    → Bytes
    → ℕ
    → Db
    → Result Error (Unit {0} × Db)
record_body fails actor check_id status elapsed category summary worker now db = do
  refuse_if (not (is_result status)) invalid_status
  record_rows fails actor check_id status (pos_part elapsed / millisecond) (clip 50 [] category)
      (clip 500 (codes "check completed without a summary") summary)
      (clip 100 (codes "monitoring-worker") worker) now db

unfoldable pub record_result :
    Faults
    → Option ℕ
    → ℕ
    → Status
    → ℤ
    → Bytes
    → Bytes
    → Bytes
    → ℕ
    → Db
    → Result Error (Unit {0}) × Db
record_result fails actor check_id status elapsed category summary worker now db =
    transact db (record_body fails actor check_id status elapsed category summary worker now db)

-- RecordResult: a check that the user `actor` ran by hand.
unfoldable pub record_manual_result :
    Faults → ℕ → ℕ → Status → ℤ → Bytes → ℕ → Db → Result Error (Unit {0}) × Db
record_manual_result fails actor check_id status elapsed summary now db =
    record_result fails (some actor) check_id status elapsed [] summary (codes "manual") now db

-- RecordScheduledResult
unfoldable pub record_scheduled_result :
    Faults → ℕ → Status → ℤ → Bytes → Bytes → Bytes → ℕ → Db → Result Error (Unit {0}) × Db
record_scheduled_result fails check_id status elapsed category summary worker now db =
    record_result fails none check_id status elapsed category summary worker now db
