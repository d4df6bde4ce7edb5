-- ===== src/Storage/Tables.antt =====
-- The tables of internal/storage/migrations, and the rows that the program reads and writes.
-- `created_at`, `updated_at` and the other columns that no Go code reads are left out. A time is the
-- number of nanoseconds since Go's zero time.
use agentless_monitoring.Common.{
  ℕ, ◌+◌, ◌&&◌, Bool, true, false, List, [], ◌∷◌, ◌++◌, map, Option, Bytes, bytes_discrete, ltb,
  leb, if◌then◌else◌,
}

-- machines.Status, and the CHECK constraints on the columns `status`.
pub data Status : Type 0 where
  healthy critical unknown disabled : Status

-- machines.CheckType: one of the three that the program knows, or another text of a form.
pub data CheckType : Type 0 where
  tcp http https : CheckType
  other : Bytes → CheckType

pub record MachineRow : Type 0 where
  pub id : ℕ
  pub display_name : Bytes
  pub target : Bytes
  pub description : Bytes
  pub status : Status
  pub enabled : Bool

pub record CheckRow : Type 0 where
  pub id : ℕ
  pub machine_id : ℕ
  pub check_type : CheckType
  pub port : ℕ
  pub path : Bytes
  pub timeout_ms : ℕ
  pub status : Status
  pub last_checked_at : Option ℕ
  pub response_time_ms : Option ℕ
  pub last_error : Option Bytes
  pub enabled : Bool
  pub check_interval_seconds : ℕ
  pub failure_threshold : ℕ
  pub recovery_threshold : ℕ
  pub consecutive_failures : ℕ
  pub consecutive_successes : ℕ

pub record ResultRow : Type 0 where
  pub id : ℕ
  pub check_id : ℕ
  pub status : Status
  pub response_time_ms : ℕ
  pub error_category : Bytes
  pub summary : Bytes
  pub worker : Bytes
  pub checked_at : ℕ

pub record AuditRow : Type 0 where
  pub id : ℕ
  pub actor_user_id : Option ℕ
  pub action : Bytes
  pub object_type : Option Bytes
  pub object_id : Option Bytes
  pub outcome : Bytes
  pub source_ip : Option Bytes

pub record UserRow : Type 0 where
  pub id : ℕ
  pub username : Bytes
  pub password_hash : Bytes
  pub role : Bytes
  pub active : Bool

-- `expires_at` is a text, and SQLite compares it as a text.
pub record SessionRow : Type 0 where
  pub user_id : ℕ
  pub token_hash : Bytes
  pub csrf_token : Bytes
  pub expires_at : Bytes

pub record GroupRow : Type 0 where
  pub id : ℕ
  pub name : Bytes

-- discovery.JobStatus
pub data JobStatus : Type 0 where
  pending running completed failed : JobStatus

pub record JobRow : Type 0 where
  pub id : ℕ
  pub target_cidr : Bytes
  pub status : JobStatus
  pub total_addresses : ℕ
  pub processed_addresses : ℕ
  pub responsive_hosts : ℕ
  pub error : Option Bytes
  pub created_by : ℕ

-- The CHECK constraint on `discovered_devices.status`.
pub data DeviceStatus : Type 0 where
  new imported ignored : DeviceStatus

pub record DeviceRow : Type 0 where
  pub id : ℕ
  pub job_id : ℕ
  pub address : Bytes
  pub detected_port : Option ℕ
  pub status : DeviceStatus
  pub machine_id : Option ℕ

-- discovery.Fingerprint
pub record Fingerprint : Type 0 where
  pub kind : Bytes
  pub value : Bytes

pub record Db : Type 0 where
  pub users : List UserRow
  pub sessions : List SessionRow
  pub audit_events : List AuditRow
  pub machines : List MachineRow
  pub checks : List CheckRow
  pub check_results : List ResultRow
  pub groups : List GroupRow
  pub machine_groups : List (ℕ × ℕ)
  pub discovery_jobs : List JobRow
  pub discovered_devices : List DeviceRow
  pub discovered_device_ports : List (ℕ × ℕ)
  pub discovered_device_fingerprints : List (ℕ × Fingerprint)

abbrev pub empty_db : Db
empty_db = record {
  users = [];
  sessions = [];
  audit_events = [];
  machines = [];
  checks = [];
  check_results = [];
  groups = [];
  machine_groups = [];
  discovery_jobs = [];
  discovered_devices = [];
  discovered_device_ports = [];
  discovered_device_fingerprints = [];
}

-- The row id that SQLite gives to a new row: one more than the largest in the table.
abbrev pub largest_id {ℓ} : {R : Type ℓ} → (R → ℕ) → List R → ℕ
largest_id id [] = 0
largest_id id (r ∷ rs) = let m = largest_id id rs in if ltb m (id r) then id r else m

abbrev pub next_id {ℓ} : {R : Type ℓ} → (R → ℕ) → List R → ℕ
next_id id rows = largest_id id rows + 1

-- INSERT INTO audit_events.
abbrev pub insert_audit :
    Option ℕ → Bytes → Option Bytes → Option Bytes → Bytes → Option Bytes → Db → Db
insert_audit actor action object_type object_id outcome source_ip db = record db {
  audit_events =
      db.audit_events
      ++ record {
        id = next_id (λ r. r.id) db.audit_events;
        actor_user_id = actor;
        action = action;
        object_type = object_type;
        object_id = object_id;
        outcome = outcome;
        source_ip = source_ip;
      }
        ∷ [];
}

-- COLLATE NOCASE makes the ASCII letters lower-case.
abbrev pub lower : ℕ → ℕ
lower c = if leb 65 c && leb c 90 then c + 32 else c

abbrev pub nocase_eq : Bytes → Bytes → Bool
nocase_eq a b = elim (bytes_discrete (map lower a) (map lower b)) [ yes _ ↦ true | no _ ↦ false ]
