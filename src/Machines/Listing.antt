-- ===== src/Machines/Listing.antt =====
-- The queries of internal/machines/store.go. A row's texts are never read back as wrong times, so
-- the parse of `last_checked_at` does not fail.
use agentless_monitoring.Common.{
  ℕ, ◌+◌, ◌*◌, Bool, true, false, ◌&&◌, ◌||◌, List, [], ◌∷◌, ◌++◌, map, Option, none, some, Bytes,
  Result, ok, ◌>>=◌, ◌>>◌, or_err, ltb, leb, ◌==◌, if◌then◌else◌, length, keep, find, take,
}
use agentless_monitoring.Common.Sort.{order_by}
use agentless_monitoring.Storage.Tables.{
  Db, MachineRow, CheckRow, ResultRow, Status, healthy, critical, unknown,
}
use agentless_monitoring.Machines.{
  Error, no_rows, Faults, call, Machine, list_machines, summarize, list_history,
}
use agentless_monitoring.Machines.Input.{millisecond, second}
use agentless_monitoring.Machines.Record.{is_status}

-- COLLATE NOCASE folds the ASCII letters.
abbrev fold_case : ℕ → ℕ
fold_case c = if leb 65 c && leb c 90 then c + 32 else c

-- The order of two names, or `later` where they are the same but for the case.
unfoldable pub name_before : Bytes → Bytes → Bool → Bool
name_before [] [] later = later
name_before [] (y ∷ ys) later = true
name_before (x ∷ xs) [] later = false
name_before (x ∷ xs) (y ∷ ys) later =
    let rest = name_before xs ys later in
    if fold_case x == fold_case y then rest else ltb (fold_case x) (fold_case y)

abbrev machine_before : Machine → Machine → Bool
machine_before a b = name_before a.name b.name (leb a.id b.id)

abbrev text_or_empty : Option Bytes → Bytes
text_or_empty none = []
text_or_empty (some t) = t

-- One row of the join.
abbrev pub machine_of : MachineRow → CheckRow → Machine
machine_of m c = record {
  id = m.id;
  name = m.display_name;
  target = m.target;
  description = m.description;
  status = m.status;
  check_id = c.id;
  check_type = c.check_type;
  port = c.port;
  path = c.path;
  timeout = c.timeout_ms * millisecond;
  last_checked_at = c.last_checked_at;
  response_time_ms = c.response_time_ms;
  last_error = text_or_empty c.last_error;
  check_interval = c.check_interval_seconds * second;
  failure_threshold = c.failure_threshold;
  recovery_threshold = c.recovery_threshold;
  consecutive_failures = c.consecutive_failures;
  consecutive_successes = c.consecutive_successes;
}

abbrev joins : MachineRow → CheckRow → Bool
joins m c = c.machine_id == m.id && m.enabled && c.enabled

-- machines JOIN checks WHERE machines.enabled = 1 AND checks.enabled = 1
unfoldable pub joined : List MachineRow → List CheckRow → List Machine
joined [] checks = []
joined (m ∷ ms) checks = map (machine_of m) (keep (joins m) checks) ++ joined ms checks

unfoldable pub list : Faults → Db → Result Error (List Machine)
unfolding name_before joined order_by
list fails db = do
  call fails list_machines
  ok (order_by machine_before (joined db.machines db.checks))

-- `machine.LastCheckedAt != nil && machine.LastCheckedAt.Add(machine.CheckInterval).After(now)`
abbrev pub is_waiting : ℕ → Machine → Bool
is_waiting now m = elim m.last_checked_at [
  | none ↦ false
  | some checked ↦ ltb now (checked + m.check_interval)
]

-- The loop of ListDue; `due` holds the machines that it has collected.
unfoldable pub collect_due : ℕ → ℕ → List Machine → List Machine → List Machine
collect_due now limit due [] = due
collect_due now limit due (m ∷ ms) =
    let skipped = collect_due now limit due ms in
    let taken = collect_due now limit (due ++ m ∷ []) ms in
    if is_waiting now m
    then skipped
    else if length (due ++ m ∷ []) == limit
    then due ++ m ∷ []
    else taken

-- A limit below 1 gives no machines and no error; negative limits are as 0.
unfoldable pub list_due : Faults → ℕ → ℕ → Db → Result Error (List Machine)
unfolding list collect_due
list_due fails now limit db =
    if ltb limit 1
    then ok []
    else do machines ← list fails db; ok (collect_due now limit [] machines)

pub record Summary : Type 0 where
  pub total : ℕ
  pub healthy : ℕ
  pub critical : ℕ
  pub unknown : ℕ

abbrev pub count_status : Status → List MachineRow → ℕ
count_status s rows = length (keep (λ m. is_status m.status s) rows)

unfoldable pub summary : Faults → Db → Result Error Summary
summary fails db = do
  call fails summarize
  let rows = keep (λ m. m.enabled) db.machines
  ok (record {
    total = length rows;
    healthy = count_status healthy rows;
    critical = count_status critical rows;
    unknown = count_status unknown rows;
  })

unfoldable pub get_by_check_id : Faults → ℕ → Db → Result Error Machine
unfolding list
get_by_check_id fails check_id db = do
  machines ← list fails db
  or_err (find (λ m. m.check_id == check_id) machines) no_rows

-- A limit that is out of range counts as 100.
abbrev pub history_limit : ℕ → ℕ
history_limit limit = if ltb limit 1 || ltb 500 limit then 100 else limit

-- ListResults: ORDER BY id DESC LIMIT ?
unfoldable pub list_results : Faults → ℕ → ℕ → Db → Result Error (List ResultRow)
unfolding order_by
list_results fails check_id limit db = do
  call fails list_history
  ok (
      take (history_limit limit)
        (order_by (λ a b. leb b.id a.id) (keep (λ r. r.check_id == check_id) db.check_results)))
