-- ===== src/Machines/Effects.antt =====
-- What recordResult does to the tables.
use agentless_monitoring.Common.{
  ℕ, ◌/◌, ◌<◌, ◌≡◌, ◌∙◌, sym, subst, inl, inr, refl, true, List, [], ◌∷◌, ◌++◌, Option, Bytes,
  codes, arith, ok, All, Bool-cases,
}
use agentless_monitoring.Common.Int.{ℤ, pos_part}
use agentless_monitoring.Storage.Tables.{Db, CheckRow, ResultRow, Status, next_id}
use agentless_monitoring.Machines.{Faults}
use agentless_monitoring.Machines.Record.{
  advance, clip, counters, is_result, machine_status, noted, insert_history, record_body,
  record_result,
}
use agentless_monitoring.Machines.Invariant.{checks_of}
use agentless_monitoring.Machines.Recorded.{record_result-Recorded}
use agentless_monitoring.Machines.Clipping.{IsClipped, clip-IsClipped}
use agentless_monitoring.Machines.Calculated.{Follows, machine_status-Follows}
use agentless_monitoring.Machines.Rows.{
  Noted, IsOther, HaveStatus, update_status-HaveStatus, All-below, update_checks-Single,
  noted-Noted,
}

pub record IsRecorded (check_id : ℕ) (status : Status) (elapsed : ℤ)
    (category summary worker : Bytes) (now : ℕ) (before after : Db) : Type 0 where
  pub front : List CheckRow
  pub back : List CheckRow
  pub check : CheckRow
  pub changed : CheckRow
  pub result : ResultRow
  pub machine : Status
  -- The one enabled check with the id.
  pub found : before.checks ≡ front ++ check ∷ back
  pub same_id : check.id ≡ check_id
  pub enabled : check.enabled ≡ true
  pub others_before : All (IsOther check_id) front
  pub others_after : All (IsOther check_id) back
  -- Its row afterwards.
  pub written : after.checks ≡ front ++ changed ∷ back
  pub is_noted : Noted status now (pos_part elapsed / 1000000) result.summary check changed
  -- The new row of the history.
  pub history : after.check_results ≡ before.check_results ++ result ∷ []
  pub new_id : All (λ r. r.id < result.id) before.check_results
  pub category_text : IsClipped 50 [] category result.error_category
  pub summary_text :
      IsClipped 500 (codes "check completed without a summary") summary result.summary
  pub worker_text : IsClipped 100 (codes "monitoring-worker") worker result.worker
  pub columns :
      (result.check_id ≡ check_id)
      × (result.status ≡ status)
      × (result.response_time_ms ≡ pos_part elapsed / 1000000)
      × (result.checked_at ≡ now)
  -- The check's machine.
  pub follows : Follows check.machine_id after.checks machine
  pub machines : HaveStatus check.machine_id machine before.machines after.machines

module _ (fails : Faults) (actor : Option ℕ) (check_id : ℕ) (status : Status) (elapsed : ℤ)
    (category summary worker : Bytes) (now : ℕ) (db : Db) where
  record_result-is_result :
      (record_result fails actor check_id status elapsed category summary worker now db).0 ≡ ok tt
      → is_result status ≡ true
  unfolding record_result record_body
  record_result-is_result h = elim (Bool-cases (is_result status)) [
    | inl e ↦ e
    | inr e ↦ absurd (ground arith)
  ]

  -- When `record_result` succeeds, there is one enabled check with the id. Its row is noted: its
  -- failures and successes are counted, its status changes when they reach their threshold, and it has
  -- the time, the response time, and for a critical result the text of the error; the other checks are
  -- as they were. The history has one more row, with a new id, the check's id, the status, the time,
  -- the response time in milliseconds and the three texts, trimmed and shortened to at most 50, 500
  -- and 100 bytes. The machine of the check has the status that its enabled checks give it, critical
  -- for a critical one, healthy if all are healthy, and unknown otherwise; the other machines are as
  -- they were.
  pub record_result-IsRecorded :
      (record_result fails actor check_id status elapsed category summary worker now db).0 ≡ ok tt
      → IsRecorded check_id status elapsed category summary worker now db
          (record_result fails actor check_id status elapsed category summary worker now db).1
  unfolding insert_history
  record_result-IsRecorded h =
      let r =
        record_result-Recorded fails actor check_id status elapsed category summary worker now db
          h in
      let after =
        (record_result fails actor check_id status elapsed category summary worker now db).1 in
      let text = clip 500 (codes "check completed without a summary") summary in
      let ms = pos_part elapsed / 1000000 in
      let change =
        noted now status ms text (
          advance r.check.failure_threshold r.check.recovery_threshold (counters r.check) status) in
      let s = update_checks-Single check_id change db.checks r.check r.found r.single in
      record {
        front = s.front;
        back = s.back;
        check = r.check;
        changed = change r.check;
        result = record {
          id = next_id (λ (r : ResultRow). r.id) db.check_results;
          check_id = check_id;
          status = status;
          response_time_ms = ms;
          error_category = clip 50 [] category;
          summary = text;
          worker = clip 100 (codes "monitoring-worker") worker;
          checked_at = now;
        };
        machine = machine_status (checks_of r.check.machine_id after.checks);
        found = s.found;
        same_id = s.same_id;
        enabled = s.enabled;
        others_before = s.others_before;
        others_after = s.others_after;
        written = r.checks ∙ s.written;
        is_noted = noted-Noted status now ms text r.check (record_result-is_result h);
        history = r.history;
        new_id = All-below db.check_results _ (omega arith);
        category_text = clip-IsClipped 50 [] category;
        summary_text = clip-IsClipped 500 (codes "check completed without a summary") summary;
        worker_text = clip-IsClipped 100 (codes "monitoring-worker") worker;
        columns = (refl, refl, refl, refl);
        follows = machine_status-Follows r.check.machine_id after.checks;
        machines =
            subst (HaveStatus r.check.machine_id _ db.machines) (sym r.machines)
              (update_status-HaveStatus r.check.machine_id _ db.machines);
      }
