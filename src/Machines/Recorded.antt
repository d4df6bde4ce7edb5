-- ===== src/Machines/Recorded.antt =====
-- What `record_result` leaves in the tables.
use agentless_monitoring.Common.{
  ℕ, ◌/◌, ◌≡◌, refl, inl, inr, not, [], Option, none, some, Bytes, arith, ok, length, keep, find,
  Option-cases, codes, refuse_if-eq-ok,
}
use agentless_monitoring.Common.Int.{ℤ, pos_part}
use agentless_monitoring.Storage.Tables.{Db, CheckRow, Status}
use agentless_monitoring.Storage.Transaction.{transact-keeps, transact-eq-ok}
use agentless_monitoring.Machines.{Faults, invalid_status}
use agentless_monitoring.Machines.Input.{millisecond}
use agentless_monitoring.Machines.Record.{
  advance, counters, insert_history, audit_check, is_check, machine_status, update_checks,
  update_status, noted, record_rows, record_result, record_body, clip, is_result,
}
use agentless_monitoring.Machines.Invariant.{
  checks_of, IsConsistent, checks_of-update_ne, update_checks-Refers, largest_id-update_status,
  update_status-HasStatus,
}

audit_check-unchanged :
    (fails : Faults) (actor : Option ℕ) (check_id : ℕ) (before after : Db)
    → audit_check fails actor check_id before ≡ ok after
    → (after.checks ≡ before.checks)
      × (after.machines ≡ before.machines)
      × (after.check_results ≡ before.check_results)
unfolding audit_check
audit_check-unchanged fails none check_id before after h = ground arith
audit_check-unchanged fails (some a) check_id before after h = ground arith

module _ (fails : Faults) (actor : Option ℕ) (check_id : ℕ) (status : Status) (elapsed_ms : ℕ)
    (category summary worker : Bytes) (now : ℕ) (db : Db) where
  -- The row of a check after the result.
  abbrev pub changed : CheckRow → CheckRow → CheckRow
  changed check =
      noted now status elapsed_ms summary
        (advance check.failure_threshold check.recovery_threshold (counters check) status)

  -- The state that a recorded result leaves, in terms of the one row of its check.
  pub record Recorded (after : Db) : Type 0 where
    pub check : CheckRow
    pub found : find (is_check check_id) db.checks ≡ some check
    pub single : length (keep (is_check check_id) db.checks) ≡ 1
    pub checks : after.checks ≡ update_checks check_id (changed check) db.checks
    pub machines :
        after.machines
        ≡ update_status check.machine_id
            (machine_status (checks_of check.machine_id after.checks))
            db.machines
    pub history :
        after.check_results
        ≡ (insert_history check_id status elapsed_ms category summary worker now db).check_results

  updated : CheckRow → Db
  updated c =
      let checks = update_checks check_id (changed c) db.checks in
      record (insert_history check_id status elapsed_ms category summary worker now db) {
        checks = checks;
        machines =
            update_status c.machine_id (machine_status (checks_of c.machine_id checks)) db.machines;
      }

  record_rows-audited :
      (c : CheckRow) (after : Db)
      → find (is_check check_id) db.checks ≡ some c
      → record_rows fails actor check_id status elapsed_ms category summary worker now db
        ≡ ok (tt, after)
      → audit_check fails actor check_id (updated c) ≡ ok after
  unfolding record_rows updated
  record_rows-audited c after e h = ground arith

  missing :
      {after : Db}
      → find (is_check check_id) db.checks ≡ none
      → record_rows fails actor check_id status elapsed_ms category summary worker now db
        ≡ ok (tt, after)
      → ⊥
  unfolding record_rows
  missing e h = ground arith

  record_rows-single :
      (after : Db)
      → record_rows fails actor check_id status elapsed_ms category summary worker now db
        ≡ ok (tt, after)
      → length (keep (is_check check_id) db.checks) ≡ 1
  unfolding record_rows
  record_rows-single after h = ground arith

  -- A transaction that commits leaves the tables in the recorded state.
  pub record_rows-Recorded :
      (after : Db)
      → record_rows fails actor check_id status elapsed_ms category summary worker now db
        ≡ ok (tt, after)
      → Recorded after
  unfolding updated
  record_rows-Recorded after h = elim (Option-cases (find (is_check check_id) db.checks)) [
    | inl e ↦ absurd (missing e h)
    | inr (c, e) ↦
        let a =
          audit_check-unchanged fails actor check_id (updated c) after
            (record_rows-audited c after e h) in
        record {
          check = c;
          found = e;
          single = record_rows-single after h;
          checks = a.0;
          machines = rw a.0 a.1;
          history = a.2;
        }
  ]

  Recorded-IsConsistent : (after : Db) → Recorded after → IsConsistent db → IsConsistent after
  Recorded-IsConsistent after r i = record {
    statuses = rw r.machines (
        update_status-HasStatus r.check.machine_id db.checks after.checks db.machines
          (λ j ne. rw r.checks (
            checks_of-update_ne check_id (changed r.check) (λ c. refl) db.checks r.check j r.found
              r.single ne))
          i.statuses);
    references =
        rw (r.machines, r.checks, largest_id-update_status)
          (update_checks-Refers check_id (changed r.check) (λ c. refl) _ db.checks i.references);
  }

module _ (fails : Faults) (actor : Option ℕ) (check_id : ℕ) (status : Status) (elapsed : ℤ)
    (category summary worker : Bytes) (now : ℕ) (db : Db) where
  abbrev pub RecordedClipped : Db → Type 0
  RecordedClipped after =
      Recorded fails actor check_id status (pos_part elapsed / millisecond) (clip 50 [] category)
        (clip 500 (codes "check completed without a summary") summary)
        (clip 100 (codes "monitoring-worker") worker) now db after

  record_body-Recorded :
      (after : Db)
      → record_body fails actor check_id status elapsed category summary worker now db
        ≡ ok (tt, after)
      → RecordedClipped after
  unfolding record_body
  record_body-Recorded after h =
      record_rows-Recorded fails actor check_id status (pos_part elapsed / millisecond)
        (clip 50 [] category) (clip 500 (codes "check completed without a summary") summary)
        (clip 100 (codes "monitoring-worker") worker) now db after
        (refuse_if-eq-ok (not (is_result status)) invalid_status _ h).1

  -- Whatever result is recorded, and whichever database calls fail, every machine keeps the status
  -- that its enabled checks give it.
  pub record_result-IsConsistent :
      IsConsistent db
      → IsConsistent
          (record_result fails actor check_id status elapsed category summary worker now db).1
  unfolding record_result
  record_result-IsConsistent i =
      transact-keeps IsConsistent db
        (record_body fails actor check_id status elapsed category summary worker now db) i
        λ _ after e.
          Recorded-IsConsistent fails actor check_id status (pos_part elapsed / millisecond)
            (clip 50 [] category) (clip 500 (codes "check completed without a summary") summary)
            (clip 100 (codes "monitoring-worker") worker) now db after
            (record_body-Recorded after e) i

  -- When `record_result` succeeds, the row of the one enabled check with the id has the counters and
  -- the status that `advance` gives, every other check is as it was, the check's machine has the
  -- status of its enabled checks, and the history has one more row with the clipped texts.
  pub record_result-Recorded :
      (record_result fails actor check_id status elapsed category summary worker now db).0 ≡ ok tt
      → RecordedClipped
          (record_result fails actor check_id status elapsed category summary worker now db).1
  unfolding record_result
  record_result-Recorded h = record_body-Recorded _ (
      transact-eq-ok db
        (record_body fails actor check_id status elapsed category summary worker now db) h)
