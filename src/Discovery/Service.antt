-- ===== src/Discovery/Service.antt =====
-- internal/discovery/service.go: the start of a scan, and the job of one. The results in the order in
-- which the scanner gives them, and the error of its context, are arguments.
pub mod Scans
use agentless_monitoring.Common.{
  ℕ, ◌+◌, Bool, true, false, not, ◌&&◌, List, [], ◌∷◌, Option, none, some, Bytes, Result, ok, err,
  if◌then◌else◌, length, any,
}
use agentless_monitoring.Net.{Addr, is_sensitive_service_address}
use agentless_monitoring.Storage.Tables.{Db, JobRow, Fingerprint}
use agentless_monitoring.Discovery.Target.{Target, parse_target}
use agentless_monitoring.Discovery.Jobs.{
  Error, Faults, create_job, mark_running, complete, fail, record_probe,
}

-- discovery.Result
pub record ScanResult : Type 0 where
  pub address : Addr
  pub responsive : Bool
  pub open_ports : List ℕ
  pub fingerprints : List Fingerprint

pub record Service : Type 0 where
  pub running : Bool
  pub db : Db

pub data StartError : Type 0 where
  invalid_target sensitive_target scan_in_progress : StartError
  store_failed : Error → StartError

-- The end of Start, after CreateJob: on success the goroutine of `run` has the job's addresses.
abbrev pub launch :
    List Addr → Result Error JobRow × Db → Result StartError (JobRow × List Addr) × Service
launch addresses (err e, db) = (err (store_failed e), record { running = false; db = db })
launch addresses (ok job, db) = (ok (job, addresses), record { running = true; db = db })

abbrev pub start_target :
    Bool → Faults → ℕ → Option Target → Service → Result StartError (JobRow × List Addr) × Service
start_target allow_sensitive fails actor none s = (err invalid_target, s)
start_target allow_sensitive fails actor (some target) s =
    if not allow_sensitive && any is_sensitive_service_address target.addresses
    then (err sensitive_target, s)
    else if s.running
    then (err scan_in_progress, s)
    else launch target.addresses
        (create_job fails actor target.canonical (length target.addresses) s.db)

module _ (parse_addr : Bytes → Option Addr) (parse_prefix : Bytes → Option (Addr × ℕ))
    (addr_string : Addr → Bytes) (prefix_string : Addr → ℕ → Bytes) where
  -- Start
  unfoldable pub start_scan :
      Bool → Faults → ℕ → Bytes → Service → Result StartError (JobRow × List Addr) × Service
  start_scan allow_sensitive fails actor text s =
      start_target allow_sensitive fails actor
        (parse_target parse_addr parse_prefix addr_string prefix_string text) s

module _ (addr_string : Addr → Bytes) (error_text : Error → Bytes) (port_order : List ℕ → List ℕ)
    (fingerprint_order : List Fingerprint → List Fingerprint) (job_id : ℕ) where
  -- The function that `run` gives to the scanner.
  abbrev pub consume : Faults → ScanResult → Db → Result Error (Unit {0}) × Db
  consume fails r db =
      if r.responsive
      then record_probe port_order fingerprint_order fails job_id (addr_string r.address)
          r.open_ports r.fingerprints db
      else record_probe port_order fingerprint_order fails job_id [] [] [] db

  -- recordFailure: an error of its own is logged only.
  abbrev pub record_failure : Faults → Bytes → Db → Db
  record_failure fails cause db = (fail fails job_id (some cause) db).1

  abbrev pub finish_scan : Faults → Option Bytes → Db → Db
  finish_scan fails none db = (complete fails job_id db).1
  finish_scan fails (some cause) db = record_failure fails cause db

  -- The scan: results until one cannot be stored, and then the error of the context, if any. The
  -- calls of the store are counted, and `fails n` says what fails in the call with the number `n`.
  unfoldable pub consume_all : (ℕ → Faults) → ℕ → Option Bytes → List ScanResult → Db → Db
  consume_all fails n cancelled [] db = finish_scan (fails n) cancelled db
  consume_all fails n cancelled (r ∷ rs) db =
      let (stored, after) = consume (fails n) r db in
      elim stored [
        | ok u ↦ consume_all fails (n + 1) cancelled rs after
        | err e ↦ record_failure (fails (n + 1)) (error_text e) after
      ]

  -- run
  unfoldable pub run_scan : (ℕ → Faults) → Option Bytes → List ScanResult → Service → Service
  unfolding consume_all
  run_scan fails cancelled rs s =
      let (marked, after) = mark_running (fails 0) job_id s.db in
      record {
        running = false;
        db = elim marked [
          | ok u ↦ consume_all fails 1 cancelled rs after
          | err e ↦ record_failure (fails 1) (error_text e) after
        ];
      }
