-- ===== src/Discovery/Import.antt =====
-- internal/discovery/store.go, ImportDevices: discovered devices become machines of a group.
pub mod Effects
use agentless_monitoring.Common.{
  ℕ, ◌+◌, Bool, true, false, not, ◌&&◌, ◌||◌, List, [], ◌∷◌, ◌++◌, Option, none, some, Bytes, codes,
  itoa, trim_space, Result, ok, err, ◌>>=◌, ◌>>◌, refuse_if, or_err, ltb, leb, ◌==◌, if◌then◌else◌,
  length, any, find, map,
}
use agentless_monitoring.Common.Int.{ℤ}
use agentless_monitoring.Net.{bytes_eq}
use agentless_monitoring.Storage.Tables.{
  Db, CheckType, MachineRow, CheckRow, GroupRow, DeviceRow, DeviceStatus, imported, next_id,
  insert_audit, nocase_eq,
}
use agentless_monitoring.Storage.Transaction.{transact}
use agentless_monitoring.Machines.{has_key, insert_machine_row, fresh_check}
use agentless_monitoring.Discovery.Ports.{check_for_detected_port, unique_positive_ids}
use agentless_monitoring.Discovery.Jobs.{
  Site, begin, commit, insert_group, read_group, read_device, find_machine, insert_machine,
  insert_check, insert_member, mark_imported, insert_audit_event, Error, no_rows, invalid_group,
  no_devices, Faults, call,
}

abbrev pub is_group_named : Bytes → GroupRow → Bool
is_group_named name g = nocase_eq g.name name

-- INSERT INTO groups … ON CONFLICT(name) DO UPDATE SET updated_at
abbrev pub upsert_group : Bytes → Db → Db
upsert_group name db = if any (is_group_named name) db.groups then db else record db {
  groups = db.groups ++ record { id = next_id (λ r. r.id) db.groups; name = name } ∷ [];
}

abbrev discovered_description : Bytes
discovered_description = codes "Added by local network discovery"

-- The check of a discovered machine, with the defaults of the columns that the statement leaves out.
abbrev pub discovered_check : ℕ → CheckType → ℕ → Db → CheckRow
discovered_check machine_id check_type port db =
    fresh_check (next_id (λ r. r.id) db.checks) machine_id check_type port (codes "/") 5000 60 3 1

abbrev pub insert_discovered : Bytes → CheckType → ℕ → Db → Db
insert_discovered address check_type port db =
    let machine_id = next_id (λ r. r.id) db.machines in
    let with_machine = insert_machine_row address address discovered_description db in
    record with_machine {
      checks = db.checks ++ discovered_check machine_id check_type port db ∷ [];
    }

-- findOrCreateMachine, for the device with the number `site`. Which of several machines the query
-- finds is left open by SQL; here it is that of the first check.
unfoldable pub find_or_create_machine :
    Faults → ℕ → Bytes → CheckType → ℕ → Db → Result Error (ℕ × Db)
find_or_create_machine fails site address check_type port db =
    call fails (find_machine site)
    >> elim (find (has_key address check_type port (codes "/") db.machines) db.checks) [
      | some c ↦ ok (c.machine_id, db)
      | none ↦
          call fails (insert_machine site)
          >> call fails (insert_check site)
          >> ok (next_id (λ r. r.id) db.machines, insert_discovered address check_type port db)
    ]

abbrev pub is_member : ℕ → ℕ → ℕ × ℕ → Bool
is_member machine_id group_id r = r.0 == machine_id && r.1 == group_id

-- INSERT INTO machine_groups … ON CONFLICT DO NOTHING
abbrev pub add_member : ℕ → ℕ → Db → Db
add_member machine_id group_id db =
    if any (is_member machine_id group_id) db.machine_groups
    then db
    else record db { machine_groups = db.machine_groups ++ (machine_id, group_id) ∷ [] }

abbrev mark : ℕ → ℕ → List DeviceRow → List DeviceRow
mark id machine_id [] = []
mark id machine_id (d ∷ ds) =
    (if d.id == id then record d { status = imported; machine_id = some machine_id } else d)
    ∷ mark id machine_id ds

abbrev pub mark_device : ℕ → ℕ → Db → Db
mark_device id machine_id db = record db {
  discovered_devices = mark id machine_id db.discovered_devices;
}

abbrev pub audit_import : ℕ → ℕ → Db → Db
audit_import actor machine_id db =
    insert_audit (some actor) (codes "discovery.device_imported") (some (codes "machine"))
      (some (itoa machine_id)) (codes "success") none db

-- The import of one device that is not imported yet.
unfoldable pub import_device : Faults → ℕ → ℕ → DeviceRow → Db → Result Error Db
import_device fails actor group_id d db =
    let (check_type, port) = check_for_detected_port d.detected_port in
    find_or_create_machine fails d.id d.address check_type port db >>= λ found.
    call fails (insert_member d.id)
    >> call fails (mark_imported d.id)
    >> call fails (insert_audit_event d.id)
    >> ok (
        audit_import actor found.0 (mark_device d.id found.0 (add_member found.0 group_id found.1)))

abbrev pub is_device_of : ℕ → ℕ → DeviceRow → Bool
is_device_of id job_id d = d.id == id && d.job_id == job_id

abbrev pub is_imported : DeviceStatus → Bool
is_imported imported = true
is_imported _ = false

-- The loop of ImportDevices, with the number of devices that are imported so far.
unfoldable pub import_each : Faults → ℕ → ℕ → ℕ → List ℕ → ℕ → Db → Result Error (ℕ × Db)
import_each fails actor job_id group_id [] count db = ok (count, db)
import_each fails actor job_id group_id (id ∷ ids) count db =
    call fails (read_device id) >> elim (find (is_device_of id job_id) db.discovered_devices) [
      | none ↦ import_each fails actor job_id group_id ids count db
      | some d ↦ elim (is_imported d.status) [
        | true ↦ import_each fails actor job_id group_id ids count db
        | false ↦
            import_device fails actor group_id d db
            >>= import_each fails actor job_id group_id ids (count + 1)
      ]
    ]

unfoldable pub import_body : Faults → ℕ → ℕ → List ℤ → Bytes → Db → Result Error (ℕ × Db)
import_body fails actor job_id device_ids name db =
    let grouped = upsert_group name db in
    call fails begin
    >> call fails insert_group
    >> call fails read_group
    >> (or_err (find (is_group_named name) grouped.groups) no_rows >>= λ g.
        import_each fails actor job_id g.id (unique_positive_ids device_ids) 0 grouped >>= λ r.
        call fails commit >> ok r)

-- ImportDevices; whether a text has a control character is a parameter.
unfoldable pub import_devices :
    (Bytes → Bool) → Faults → ℕ → ℕ → List ℤ → Bytes → Db → Result Error ℕ × Db
import_devices has_control fails actor job_id device_ids group_name db =
    let name = trim_space group_name in
    transact db (
      refuse_if (length name == 0 || ltb 100 (length name) || has_control name) invalid_group
      >> refuse_if (length device_ids == 0) no_devices
      >> import_body fails actor job_id device_ids name db)
