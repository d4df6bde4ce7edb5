-- ===== src/Discovery/Jobs.antt =====
-- internal/discovery/store.go: the jobs and what a scan writes of them. As in the machines' store,
-- each method takes the tables and the test that says which of its database calls fail.
pub mod Progress
use agentless_monitoring.Common.{
  ℕ, ◌+◌, Bool, true, false, not, ◌&&◌, ◌||◌, List, [], ◌∷◌, ◌++◌, Option, none, some, Bytes, codes,
  Result, ok, err, ◌>>=◌, ◌>>◌, refuse_if, or_err, ltb, leb, ◌==◌, if◌then◌else◌, length, keep, any,
  find, take, map,
}
use agentless_monitoring.Net.{bytes_eq}
use agentless_monitoring.Storage.Tables.{
  Db, JobRow, JobStatus, pending, running, completed, failed, DeviceRow, DeviceStatus, new,
  Fingerprint, next_id,
}
use agentless_monitoring.Storage.Transaction.{transact}
use agentless_monitoring.Discovery.Ports.{normalized_ports, preferred_port}
use agentless_monitoring.Discovery.Fingerprints.{normalized_fingerprints}

-- The database calls of the store; the calls of a loop are told apart by a number.
pub data Site : Type 0 where
  insert_job read_job begin insert_device delete_ports delete_fingerprints : Site
  insert_port : ℕ → Site
  insert_fingerprint : Fingerprint → Site
  update_progress commit set_job_status list_jobs list_devices list_groups : Site
  insert_group read_group : Site
  read_device find_machine insert_machine insert_check insert_member mark_imported
        insert_audit_event :
      ℕ → Site

pub data Error : Type 0 where
  no_rows invalid_group no_devices : Error
  database : Site → Error

abbrev pub Faults : Type 0
Faults = Site → Bool

abbrev pub call : Faults → Site → Result Error (Unit {0})
call fails site = refuse_if (fails site) (database site)

abbrev pub is_job : ℕ → JobRow → Bool
is_job id j = j.id == id

-- Job
unfoldable pub job : Faults → ℕ → Db → Result Error JobRow
job fails id db = do call fails read_job; or_err (find (is_job id) db.discovery_jobs) no_rows

-- The CHECK constraint on `total_addresses`.
abbrev pub total_allowed : ℕ → Bool
total_allowed total = leb 1 total && leb total 256

abbrev pub new_job : ℕ → Bytes → ℕ → Db → JobRow
new_job actor target total db = record {
  id = next_id (λ r. r.id) db.discovery_jobs;
  target_cidr = target;
  status = pending;
  total_addresses = total;
  processed_addresses = 0;
  responsive_hosts = 0;
  error = none;
  created_by = actor;
}

-- CreateJob: two statements, and no transaction.
unfoldable pub create_job : Faults → ℕ → Bytes → ℕ → Db → Result Error JobRow × Db
create_job fails actor target total db =
    let row = new_job actor target total db in
    let after = record db { discovery_jobs = db.discovery_jobs ++ row ∷ [] } in
    if fails insert_job || not (total_allowed total)
    then (err (database insert_job), db)
    else (job fails row.id after, after)

-- UPDATE discovery_jobs SET … WHERE …, with a test for the rows.
unfoldable pub update_jobs : (JobRow → Bool) → (JobRow → JobRow) → List JobRow → List JobRow
update_jobs which change [] = []
update_jobs which change (j ∷ js) = (if which j then change j else j) ∷ update_jobs which change js

abbrev pub with_status : JobStatus → Bytes → JobRow → JobRow
with_status status message j = record j {
  status = status;
  error = if length message == 0 then none else some message;
}

-- updateJobStatus
unfoldable pub update_job_status :
    Faults → ℕ → JobStatus → Bytes → Db → Result Error (Unit {0}) × Db
update_job_status fails id status message db =
    let after = record db {
      discovery_jobs = update_jobs (is_job id) (with_status status message) db.discovery_jobs;
    } in
    if fails set_job_status
    then (err (database set_job_status), db)
    else if length (keep (is_job id) db.discovery_jobs) == 1
    then (ok tt, after)
    else (err no_rows, after)

-- MarkRunning
abbrev pub mark_running : Faults → ℕ → Db → Result Error (Unit {0}) × Db
mark_running fails id db = update_job_status fails id running [] db

-- Complete
abbrev pub complete : Faults → ℕ → Db → Result Error (Unit {0}) × Db
complete fails id db = update_job_status fails id completed [] db

abbrev message_of : Option Bytes → Bytes
message_of none = codes "discovery failed"
message_of (some message) = message

-- Fail; `none` is a nil cause.
abbrev pub fail : Faults → ℕ → Option Bytes → Db → Result Error (Unit {0}) × Db
fail fails id cause db =
    let message = message_of cause in
    update_job_status fails id failed
      (if ltb 500 (length message) then take 500 message else message) db

abbrev pub is_device_at : ℕ → Bytes → DeviceRow → Bool
is_device_at job_id address d = d.job_id == job_id && bytes_eq d.address address

abbrev set_port : ℕ → Option ℕ → List DeviceRow → List DeviceRow
set_port id port [] = []
set_port id port (d ∷ ds) =
    (if d.id == id then record d { detected_port = port } else d) ∷ set_port id port ds

abbrev new_device : ℕ → Bytes → Option ℕ → Db → DeviceRow
new_device job_id address port db = record {
  id = next_id (λ r. r.id) db.discovered_devices;
  job_id = job_id;
  address = address;
  detected_port = port;
  status = new;
  machine_id = none;
}

-- INSERT INTO discovered_devices … ON CONFLICT(job_id, address) DO UPDATE … RETURNING id
abbrev pub upsert_device : ℕ → Bytes → Option ℕ → Db → ℕ × Db
upsert_device job_id address port db =
    elim (find (is_device_at job_id address) db.discovered_devices) [
      | none ↦
          let d = new_device job_id address port db in
          (d.id, record db { discovered_devices = db.discovered_devices ++ d ∷ [] })
      | some d ↦ (d.id, record db { discovered_devices = set_port d.id port db.discovered_devices })
    ]

abbrev pub delete_device_ports : ℕ → Db → Db
delete_device_ports id db = record db {
  discovered_device_ports = keep (λ r. not (r.0 == id)) db.discovered_device_ports;
}

abbrev pub delete_device_fingerprints : ℕ → Db → Db
delete_device_fingerprints id db = record db {
  discovered_device_fingerprints = keep (λ r. not (r.0 == id)) db.discovered_device_fingerprints;
}

abbrev pub insert_ports : Faults → ℕ → List ℕ → Db → Result Error Db
insert_ports fails id [] db = ok db
insert_ports fails id (p ∷ ps) db =
    let added = record db {
      discovered_device_ports = db.discovered_device_ports ++ (id, p) ∷ [];
    } in
    call fails (insert_port p) >> insert_ports fails id ps added

abbrev pub insert_fingerprints : Faults → ℕ → List Fingerprint → Db → Result Error Db
insert_fingerprints fails id [] db = ok db
insert_fingerprints fails id (f ∷ fs) db =
    let added = record db {
      discovered_device_fingerprints = db.discovered_device_fingerprints ++ (id, f) ∷ [];
    } in
    call fails (insert_fingerprint f) >> insert_fingerprints fails id fs added

abbrev pub is_running_status : JobStatus → Bool
is_running_status running = true
is_running_status _ = false

-- WHERE id = ? AND status = 'running'
abbrev pub is_running_job : ℕ → JobRow → Bool
is_running_job id j = j.id == id && is_running_status j.status

abbrev pub advance_job : ℕ → JobRow → JobRow
advance_job responsive j = record j {
  processed_addresses = j.processed_addresses + 1;
  responsive_hosts = j.responsive_hosts + responsive;
}

-- The CHECK constraints on the counts of a job.
abbrev pub counts_allowed : JobRow → Bool
counts_allowed j =
    leb j.processed_addresses j.total_addresses && leb j.responsive_hosts j.total_addresses

abbrev pub breaks_counts : ℕ → ℕ → JobRow → Bool
breaks_counts job_id responsive j =
    is_running_job job_id j && not (counts_allowed (advance_job responsive j))

abbrev pub with_jobs : List JobRow → Db → Db
with_jobs jobs db = record db { discovery_jobs = jobs }

module _ (port_order : List ℕ → List ℕ) (fingerprint_order : List Fingerprint → List Fingerprint)
    (fails : Faults) where
  -- What RecordProbe writes of a responsive device. A device needs a job that is there.
  unfoldable pub record_device : ℕ → Bytes → List ℕ → List Fingerprint → Db → Result Error Db
  record_device job_id address open_ports fingerprints db =
      let ports = normalized_ports port_order open_ports in
      let (id, device) = upsert_device job_id address (preferred_port ports) db in
      do
        refuse_if (fails insert_device || not (any (is_job job_id) db.discovery_jobs))
            (database insert_device)
        call fails delete_ports
        with_ports ← insert_ports fails id ports (delete_device_ports id device)
        call fails delete_fingerprints
        insert_fingerprints fails id (normalized_fingerprints fingerprint_order fingerprints)
            (delete_device_fingerprints id with_ports)

  -- The end of RecordProbe's transaction.
  unfoldable pub progress_body : ℕ → ℕ → Db → Result Error (Unit {0} × Db)
  progress_body job_id responsive db = do
    refuse_if (fails update_progress || any (breaks_counts job_id responsive) db.discovery_jobs)
        (database update_progress)
    refuse_if (not (length (keep (is_running_job job_id) db.discovery_jobs) == 1)) no_rows
    call fails commit
    ok (
      tt,
      with_jobs (update_jobs (is_running_job job_id) (advance_job responsive) db.discovery_jobs) db,
    )

  unfoldable pub probe_body :
      ℕ → Bytes → List ℕ → List Fingerprint → Db → Result Error (Unit {0} × Db)
  probe_body job_id address open_ports fingerprints db =
      call fails begin
      >> (if bytes_eq address []
          then progress_body job_id 0 db
          else record_device job_id address open_ports fingerprints db >>= progress_body job_id 1)

  -- RecordProbe; the empty address is an address that did not respond.
  unfoldable pub record_probe :
      ℕ → Bytes → List ℕ → List Fingerprint → Db → Result Error (Unit {0}) × Db
  record_probe job_id address open_ports fingerprints db =
      transact db (probe_body job_id address open_ports fingerprints db)
