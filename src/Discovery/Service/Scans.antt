-- ===== src/Discovery/Service/Scans.antt =====
-- What a scan that starts may touch, and what it does to the counts of the jobs.
use agentless_monitoring.Common.{
  ℕ, ◌+◌, ◌≡◌, refl, subst, sym, inl, inr, Bool, true, false, not, ◌&&◌, List, [], ◌∷◌, Option,
  none, some, Bytes, Result, ok, err, length, any, arith, All, Bool-cases, Result-cases, keep, ◌==◌,
}
use agentless_monitoring.Net.{Addr, is_sensitive_service_address}
use agentless_monitoring.Storage.Tables.{Db, JobRow, JobStatus, running, Fingerprint}
use agentless_monitoring.Discovery.Target.{Target, parse_target}
use agentless_monitoring.Discovery.Target.Runs.{IsRun}
use agentless_monitoring.Discovery.Target.Bounds.{parse_target-IsRun}
use agentless_monitoring.Discovery.Jobs.{
  Error, Faults, create_job, mark_running, update_job_status, update_jobs, is_job, with_status,
  set_job_status,
}
use agentless_monitoring.Discovery.Jobs.Progress.{Counted, AreCounted, record_probe-AreCounted}
use agentless_monitoring.Discovery.Service.{
  ScanResult, Service, start_target, start_scan, launch, consume, finish_scan, consume_all,
  run_scan,
}

with_status-Counted :
    (id : ℕ) (status : JobStatus) (message : Bytes) (js : List JobRow)
    → All Counted js
    → All Counted (update_jobs (is_job id) (with_status status message) js)
unfolding update_jobs
with_status-Counted id status message [] a = tt
with_status-Counted id status message (j ∷ js) a = elim (Bool-cases (is_job id j)) [
  | inl e ↦ rw e (a.0, with_status-Counted id status message js a.1)
  | inr e ↦ rw e (a.0, with_status-Counted id status message js a.1)
]

update_job_status-AreCounted :
    (fails : Faults) (id : ℕ) (status : JobStatus) (message : Bytes) (db : Db)
    → AreCounted db
    → AreCounted (update_job_status fails id status message db).1
unfolding update_job_status
update_job_status-AreCounted fails id status message db a =
    elim (Bool-cases (fails set_job_status)) [
      | inl e ↦ rw e a
      | inr e ↦ elim (Bool-cases (length (keep (is_job id) db.discovery_jobs) == 1)) [
        | inl b ↦ rw (e, b) (with_status-Counted id status message db.discovery_jobs a)
        | inr b ↦ rw (e, b) (with_status-Counted id status message db.discovery_jobs a)
      ]
    ]

module _ (addr_string : Addr → Bytes) (error_text : Error → Bytes) (port_order : List ℕ → List ℕ)
    (fingerprint_order : List Fingerprint → List Fingerprint) (job_id : ℕ) where
  consume-AreCounted :
      (fails : Faults) (r : ScanResult) (db : Db)
      → AreCounted db
      → AreCounted (consume addr_string error_text port_order fingerprint_order job_id fails r db).1
  consume-AreCounted fails r db a = elim (Bool-cases r.responsive) [
    | inl e ↦ rw e (
        record_probe-AreCounted port_order fingerprint_order fails job_id (addr_string r.address)
          r.open_ports r.fingerprints db a)
    | inr e ↦ rw e (record_probe-AreCounted port_order fingerprint_order fails job_id [] [] [] db a)
  ]

  finish_scan-AreCounted :
      (fails : Faults) (cancelled : Option Bytes) (db : Db)
      → AreCounted db
      → AreCounted (
          finish_scan addr_string error_text port_order fingerprint_order job_id fails cancelled db)
  finish_scan-AreCounted fails none db a = update_job_status-AreCounted fails job_id _ _ db a
  finish_scan-AreCounted fails (some cause) db a =
      update_job_status-AreCounted fails job_id _ _ db a

  module _ (fails : ℕ → Faults) where
    consume_all-AreCounted :
        (n : ℕ) (cancelled : Option Bytes) (rs : List ScanResult) (db : Db)
        → AreCounted db
        → AreCounted (
            consume_all addr_string error_text port_order fingerprint_order job_id fails n cancelled
              rs db)
    unfolding consume_all
    consume_all-AreCounted n cancelled [] db a = finish_scan-AreCounted (fails n) cancelled db a
    consume_all-AreCounted n cancelled (r ∷ rs) db a =
        let stored =
          consume addr_string error_text port_order fingerprint_order job_id (fails n) r db in
        let kept = consume-AreCounted (fails n) r db a in
        elim (Result-cases stored.0) [
          | inl (e, p) ↦
              rw (p, consume_all)
                (update_job_status-AreCounted (fails (n + 1)) job_id _ _ stored.1 kept)
          | inr (u, p) ↦
              rw (p, consume_all) (consume_all-AreCounted (n + 1) cancelled rs stored.1 kept)
        ]

    -- The run of a scan keeps the counts of every job in order, whatever the scanner finds, and
    -- whichever database calls fail, where each call of the store has failures of its own: a job has
    -- at most 256 addresses, has processed no more than it has, and no more have responded than are
    -- processed.
    pub run_scan-AreCounted :
        (cancelled : Option Bytes) (rs : List ScanResult) (s : Service)
        → AreCounted s.db
        → AreCounted
            (run_scan addr_string error_text port_order fingerprint_order job_id fails cancelled rs
              s).db
    unfolding run_scan
    run_scan-AreCounted cancelled rs s a =
        let marked = mark_running (fails 0) job_id s.db in
        let kept = update_job_status-AreCounted (fails 0) job_id running [] s.db a in
        elim (Result-cases marked.0) [
          | inl (e, p) ↦
              rw (p, run_scan) (update_job_status-AreCounted (fails 1) job_id _ _ marked.1 kept)
          | inr (u, p) ↦ rw (p, run_scan) (consume_all-AreCounted 1 cancelled rs marked.1 kept)
        ]

-- What a start that succeeds means for the scan's addresses and for the flag `running`.
pub record Started (allow_sensitive : Bool) (addresses : List Addr) (before after : Service)
    : Type 0 where
  pub was_idle : before.running ≡ false
  pub is_running : after.running ≡ true
  pub within_policy : (not allow_sensitive && any is_sensitive_service_address addresses) ≡ false
  pub is_run : IsRun addresses

launch-ok :
    (as_given : List Addr) (created : Result Error JobRow × Db) (r : JobRow × List Addr)
    → (launch as_given created).0 ≡ ok r
    → (r.1 ≡ as_given) × ((launch as_given created).1.running ≡ true)
launch-ok as_given (err e, db) r h = absurd (ground arith)
launch-ok as_given (ok j, db) r h = (ground arith, refl)

start_target-Started :
    (allow_sensitive : Bool) (fails : Faults) (actor : ℕ) (target : Option Target) (s : Service)
    (r : JobRow × List Addr)
    → ((t : Target) → target ≡ some t → IsRun t.addresses)
    → (start_target allow_sensitive fails actor target s).0 ≡ ok r
    → Started allow_sensitive r.1 s (start_target allow_sensitive fails actor target s).1
start_target-Started allow_sensitive fails actor none s r k h = absurd (ground arith)
start_target-Started allow_sensitive fails actor (some t) s r k h =
    let created = create_job fails actor t.canonical (length t.addresses) s.db in
    elim (Bool-cases (not allow_sensitive && any is_sensitive_service_address t.addresses)) [
      | inl p ↦ absurd (ground arith)
      | inr p ↦ elim (Bool-cases s.running) [
        | inl q ↦ absurd (ground arith)
        | inr q ↦
            let l = launch-ok t.addresses created r (ground arith) in
            rw (p, q)
              (record {
                was_idle = refl;
                is_running = l.1;
                within_policy =
                    subst
                      (λ as_given.
                        (not allow_sensitive && any is_sensitive_service_address as_given) ≡ false)
                      (sym l.0) p;
                is_run = subst IsRun (sym l.0) (k t refl);
              })
      ]
    ]

-- A start that succeeds found no scan running and leaves one running; the addresses that it scans are
-- at least one and at most 256 consecutive IPv4 addresses that may be scanned, and none of them is a
-- sensitive service address unless those are allowed.
pub start_scan-Started :
    (parse_addr : Bytes → Option Addr) (parse_prefix : Bytes → Option (Addr × ℕ))
    (addr_string : Addr → Bytes) (prefix_string : Addr → ℕ → Bytes) (allow_sensitive : Bool)
    (fails : Faults) (actor : ℕ) (text : Bytes) (s : Service) (r : JobRow × List Addr)
    → (start_scan parse_addr parse_prefix addr_string prefix_string allow_sensitive fails actor text
        s).0
      ≡ ok r
    → Started allow_sensitive r.1 s
        (start_scan parse_addr parse_prefix addr_string prefix_string allow_sensitive fails actor
          text s).1
unfolding start_scan
start_scan-Started parse_addr parse_prefix addr_string prefix_string allow_sensitive fails actor
      text s r h =
    start_target-Started allow_sensitive fails actor
      (parse_target parse_addr parse_prefix addr_string prefix_string text) s r
      (λ t e. parse_target-IsRun parse_addr parse_prefix addr_string prefix_string text t e) h
