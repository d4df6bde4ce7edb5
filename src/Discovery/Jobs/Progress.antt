-- ===== src/Discovery/Jobs/Progress.antt =====
-- The counts of a job, and what a probe that is recorded does to them.
use agentless_monitoring.Common.{
  ◌==◌, ◌+◌, ◌++◌, ◌≢◌, ◌⊎◌, ap, sym, true, ℕ, ◌≤◌, ◌≡◌, refl, inl, inr, subst, ◌∙◌, false, List,
  [], ◌∷◌, Option, Bytes, ok, arith, refuse_if-eq-ok, if◌then◌else◌, length, keep, any, All,
  Bool-cases, Option-cases, Result-cases, find,
}
use agentless_monitoring.Net.{bytes_eq}
use agentless_monitoring.Storage.Tables.{
  Db, JobRow, JobStatus, pending, running, completed, failed, Fingerprint,
}
use agentless_monitoring.Storage.Transaction.{transact-keeps, transact-eq-ok}
use agentless_monitoring.Discovery.Ports.{normalized_ports, preferred_port}
use agentless_monitoring.Discovery.Fingerprints.{normalized_fingerprints}
use agentless_monitoring.Discovery.Jobs.{
  delete_device_ports, delete_device_fingerprints, Faults, update_jobs, is_running_job, advance_job,
  upsert_device, insert_ports, insert_fingerprints, is_device_at, breaks_counts, record_device,
  progress_body, probe_body, record_probe, is_running_status,
}

-- At most 256 addresses, of which no more are processed, of which no more have responded.
abbrev pub Counted : JobRow → Type 0
Counted j =
    (j.total_addresses ≤ 256)
    × (j.processed_addresses ≤ j.total_addresses)
    × (j.responsive_hosts ≤ j.processed_addresses)

abbrev pub AreCounted : Db → Type 0
AreCounted db = All Counted db.discovery_jobs

advance_jobs-Counted :
    (id r : ℕ) (js : List JobRow)
    → r ≤ 1
    → any (breaks_counts id r) js ≡ false
    → All Counted js
    → All Counted (update_jobs (is_running_job id) (advance_job r) js)
unfolding update_jobs
advance_jobs-Counted id r [] l h a = tt
advance_jobs-Counted id r (j ∷ js) l h a = elim (Bool-cases (is_running_job id j)) [
  | inl e ↦ rw e (
    (omega (arith, a.0), ground (arith, a.0), omega (arith, a.0, l)),
    advance_jobs-Counted id r js l (ground arith) a.1,
  )
  | inr e ↦ rw e (a.0, advance_jobs-Counted id r js l (ground arith) a.1)
]

-- 1 for an address that responded.
abbrev pub responded : Bytes → ℕ
responded address = if bytes_eq address [] then 0 else 1

-- A row that is not that of a running job with this id.
abbrev pub IsOther : ℕ → JobRow → Type 0
IsOther id j = (j.id ≢ id) ⊎ (j.status ≢ running)

-- What a recorded probe means: among the jobs is one with this id that is running, and no other; it
-- has processed one address more, and `responsive` more have responded; neither count is above the
-- number of its addresses; and nothing else has changed of any job.
pub record Progress (id responsive : ℕ) (before after : List JobRow) : Type 0 where
  pub front : List JobRow
  pub back : List JobRow
  pub row : JobRow
  pub found : before ≡ front ++ row ∷ back
  pub same_id : row.id ≡ id
  pub is_running : row.status ≡ running
  pub others_before : All (IsOther id) front
  pub others_after : All (IsOther id) back
  pub room : row.processed_addresses + 1 ≤ row.total_addresses
  pub responsive_room : row.responsive_hosts + responsive ≤ row.total_addresses
  pub changed :
      after
      ≡ front
        ++ record row {
          processed_addresses = row.processed_addresses + 1;
          responsive_hosts = row.responsive_hosts + responsive;
        }
          ∷ back

is_running_status-running : (s : JobStatus) → is_running_status s ≡ true → s ≡ running
is_running_status-running running h = refl
is_running_status-running pending h = cc
is_running_status-running completed h = cc
is_running_status-running failed h = cc

is_running_job-fields :
    (id : ℕ) (j : JobRow) → is_running_job id j ≡ true → (j.id ≡ id) × (j.status ≡ running)
is_running_job-fields id j h = (ground arith, is_running_status-running j.status (ground arith))

is_running_job-IsOther : (id : ℕ) (j : JobRow) → is_running_job id j ≡ false → IsOther id j
is_running_job-IsOther id j h = elim (Bool-cases (j.id == id)) [
  | inr e ↦ inl (λ same. ground arith)
  | inl e ↦ inr (λ runs. ground (arith, ap is_running_status runs))
]

update_jobs_absent :
    (id r : ℕ) (js : List JobRow)
    → length (keep (is_running_job id) js) ≡ 0
    → All (IsOther id) js × (update_jobs (is_running_job id) (advance_job r) js ≡ js)
unfolding update_jobs
update_jobs_absent id r [] h = (tt, refl)
update_jobs_absent id r (j ∷ js) h = elim (Bool-cases (is_running_job id j)) [
  | inl e ↦ absurd (ground arith)
  | inr e ↦
      let (others, same) = update_jobs_absent id r js (ground arith) in
      ((is_running_job-IsOther id j e, others), rw e (ap (◌∷◌ j) same))
]

update_jobs-Progress :
    (id r : ℕ) (js : List JobRow)
    → length (keep (is_running_job id) js) ≡ 1
    → any (breaks_counts id r) js ≡ false
    → Progress id r js (update_jobs (is_running_job id) (advance_job r) js)
unfolding update_jobs
update_jobs-Progress id r [] h k = absurd (ground arith)
update_jobs-Progress id r (j ∷ js) h k = elim (Bool-cases (is_running_job id j)) [
  | inl e ↦
      let (others, same) = update_jobs_absent id r js (ground arith) in
      let (same_id, runs) = is_running_job-fields id j e in
      record {
        front = [];
        back = js;
        row = j;
        found = refl;
        same_id = same_id;
        is_running = runs;
        others_before = tt;
        others_after = others;
        room = ground arith;
        responsive_room = ground arith;
        changed = rw (e, same) refl;
      }
  | inr e ↦
      let p = update_jobs-Progress id r js (ground arith) (ground arith) in
      record {
        front = j ∷ p.front;
        back = p.back;
        row = p.row;
        found = ap (◌∷◌ j) p.found;
        same_id = p.same_id;
        is_running = p.is_running;
        others_before = (is_running_job-IsOther id j e, p.others_before);
        others_after = p.others_after;
        room = p.room;
        responsive_room = p.responsive_room;
        changed = rw e (ap (◌∷◌ j) p.changed);
      }
]

upsert_device-jobs :
    (job_id : ℕ) (address : Bytes) (port : Option ℕ) (db : Db)
    → (upsert_device job_id address port db).1.discovery_jobs ≡ db.discovery_jobs
upsert_device-jobs job_id address port db =
    elim (Option-cases (find (is_device_at job_id address) db.discovered_devices)) [
      | inl e ↦ rw (e, upsert_device) refl
      | inr (d, e) ↦ rw (e, upsert_device) refl
    ]

insert_ports-jobs :
    (fails : Faults) (id : ℕ) (ps : List ℕ) (db after : Db)
    → insert_ports fails id ps db ≡ ok after
    → after.discovery_jobs ≡ db.discovery_jobs
insert_ports-jobs fails id [] db after h = ground arith
insert_ports-jobs fails id (p ∷ ps) db after h =
    insert_ports-jobs fails id ps _ after (refuse_if-eq-ok _ _ _ h).1

insert_fingerprints-jobs :
    (fails : Faults) (id : ℕ) (fs : List Fingerprint) (db after : Db)
    → insert_fingerprints fails id fs db ≡ ok after
    → after.discovery_jobs ≡ db.discovery_jobs
insert_fingerprints-jobs fails id [] db after h = ground arith
insert_fingerprints-jobs fails id (f ∷ fs) db after h =
    insert_fingerprints-jobs fails id fs _ after (refuse_if-eq-ok _ _ _ h).1

module _ (port_order : List ℕ → List ℕ) (fingerprint_order : List Fingerprint → List Fingerprint)
    (fails : Faults) (job_id : ℕ) where
  -- The jobs are as they were when a device has been written.
  record_device-jobs :
      (address : Bytes) (ports : List ℕ) (fs : List Fingerprint) (db after : Db)
      → record_device port_order fingerprint_order fails job_id address ports fs db ≡ ok after
      → after.discovery_jobs ≡ db.discovery_jobs
  unfolding record_device
  record_device-jobs address ports fs db after h =
      let normal = normalized_ports port_order ports in
      let device = upsert_device job_id address (preferred_port normal) db in
      elim (Result-cases
        (insert_ports fails device.0 normal (delete_device_ports device.0 device.1))) [
          | inl (x, e) ↦ absurd (ground arith)
          | inr (w, e) ↦
              insert_fingerprints-jobs fails device.0 (normalized_fingerprints fingerprint_order fs)
                (delete_device_fingerprints device.0 w) after (ground arith)
              ∙ insert_ports-jobs fails device.0 normal (delete_device_ports device.0 device.1) w e
              ∙ upsert_device-jobs job_id address (preferred_port normal) db
        ]

  -- What the update of a probe that is recorded does to the jobs.
  record Updated (responsive : ℕ) (before after : List JobRow) : Type 0 where
    pub one : length (keep (is_running_job job_id) before) ≡ 1
    pub room : any (breaks_counts job_id responsive) before ≡ false
    pub changed : after ≡ update_jobs (is_running_job job_id) (advance_job responsive) before

  progress_body-Updated :
      (responsive : ℕ) (db after : Db)
      → progress_body port_order fingerprint_order fails job_id responsive db ≡ ok (tt, after)
      → Updated responsive db.discovery_jobs after.discovery_jobs
  unfolding progress_body
  progress_body-Updated responsive db after h = record {
    one = ground arith;
    room = ground arith;
    changed = ground arith;
  }

  probe_body-Updated :
      (address : Bytes) (ports : List ℕ) (fs : List Fingerprint) (db after : Db)
      → probe_body port_order fingerprint_order fails job_id address ports fs db ≡ ok (tt, after)
      → Updated (responded address) db.discovery_jobs after.discovery_jobs
  unfolding probe_body
  probe_body-Updated address ports fs db after h = elim (Bool-cases (bytes_eq address [])) [
    | inl e ↦ rw e (progress_body-Updated 0 db after (ground arith))
    | inr e ↦
        elim (Result-cases
          (record_device port_order fingerprint_order fails job_id address ports fs db)) [
            | inl (x, d) ↦ absurd (ground arith)
            | inr (w, d) ↦ rw e (
                subst (λ js. Updated 1 js after.discovery_jobs)
                  (record_device-jobs address ports fs db w d)
                  (progress_body-Updated 1 w after (ground arith)))
          ]
  ]

  -- If RecordProbe succeeds, there is exactly one running job with the given id, and the only change
  -- to the jobs is in its row: it has processed one address more, still no more than it has, and one
  -- more has responded if the address is not empty.
  pub record_probe-Progress :
      (address : Bytes) (ports : List ℕ) (fs : List Fingerprint) (db : Db)
      → (record_probe port_order fingerprint_order fails job_id address ports fs db).0 ≡ ok tt
      → Progress job_id
          (responded address)
          db.discovery_jobs
          (record_probe port_order fingerprint_order fails job_id address ports fs
            db).1.discovery_jobs
  unfolding record_probe
  record_probe-Progress address ports fs db h =
      let u = probe_body-Updated address ports fs db _ (
        transact-eq-ok db (probe_body port_order fingerprint_order fails job_id address ports fs db)
          h) in
      subst (Progress job_id (responded address) db.discovery_jobs) (sym u.changed)
        (update_jobs-Progress job_id (responded address) db.discovery_jobs u.one u.room)

  -- RecordProbe keeps the counts of every job in order, whether it succeeds or fails: a job has at most
  -- 256 addresses, has processed no more than it has, and no more have responded than are processed.
  pub record_probe-AreCounted :
      (address : Bytes) (ports : List ℕ) (fs : List Fingerprint) (db : Db)
      → AreCounted db
      → AreCounted (record_probe port_order fingerprint_order fails job_id address ports fs db).1
  unfolding record_probe
  record_probe-AreCounted address ports fs db a =
      transact-keeps AreCounted db
        (probe_body port_order fingerprint_order fails job_id address ports fs db) a
        (λ u after e.
          let p = probe_body-Updated address ports fs db after e in
          rw p.changed (
            advance_jobs-Counted job_id (responded address) db.discovery_jobs (ground arith) p.room
              a))
