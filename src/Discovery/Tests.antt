-- ===== src/Discovery/Tests.antt =====
-- Targets, jobs and imports on concrete networks.
use agentless_monitoring.Common.{
  zero, suc, ℕ, ◌≢◌, ◌↔◌, refl, List, [], ◌∷◌, Bytes, arith, Bool, true, false, Option, none, some,
  codes, leb, bytes_discrete, trim_space, Elem,
}
use agentless_monitoring.Common.Int.{pos}
use agentless_monitoring.Common.Sort.{IsOrdered}
use agentless_monitoring.Net.{Addr, v4, is_sensitive_service_address}
use agentless_monitoring.Storage.Tables.{Db, JobRow, empty_db, pending, running, new, Fingerprint}
use agentless_monitoring.Machines.Invariant.{IsConsistent}
use agentless_monitoring.Discovery.Target.{
  Target, scannable, target_of_prefix, target_from_prefix, prefix_addresses, trim_ends,
  split_address_range, parse_target,
}
use agentless_monitoring.Discovery.Target.Bounds.{parse_target-IsRun}
use agentless_monitoring.Discovery.Target.Runs.{IsRun}
use agentless_monitoring.Discovery.Ports.{normalized_ports}
use agentless_monitoring.Discovery.Ports.Classification.{SamePorts, normalized_ports-IsOrdered}
use agentless_monitoring.Discovery.Jobs.{
  create_job, job, Faults, commit, record_probe, progress_body, probe_body,
}
use agentless_monitoring.Discovery.Jobs.Progress.{
  Progress, responded, AreCounted, record_probe-Progress,
}
use agentless_monitoring.Discovery.Service.{ScanResult, Service, start_scan, run_scan}
use agentless_monitoring.Discovery.Service.Scans.{Started, start_scan-Started, run_scan-AreCounted}
use agentless_monitoring.Discovery.Import.{import_devices}
use agentless_monitoring.Discovery.Import.Effects.{import_devices-IsConsistent}

abbrev no_addr : Bytes → Option Addr
no_addr s = none

-- Every text is the prefix 10.0.0.77/30.
abbrev some_prefix : Bytes → Option (Addr × ℕ)
some_prefix s = some (v4 0x0a00004d, 30)

abbrev name_addr : Addr → Bytes
name_addr a = []

abbrev name_prefix : Addr → ℕ → Bytes
name_prefix a bits = []

abbrev two_hosts : Target
two_hosts = record { canonical = []; addresses = v4 0x0a00004d ∷ v4 0x0a00004e ∷ [] }

parse_target-IsRun_example : IsRun two_hosts.addresses
unfolding parse_target trim_space split_address_range target_from_prefix target_of_prefix scannable
    prefix_addresses trim_ends
parse_target-IsRun_example =
    parse_target-IsRun no_addr some_prefix name_addr name_prefix (codes "n") two_hosts refl

abbrev web_ports : List ℕ
web_ports = 443 ∷ 22 ∷ []

abbrev as_they_are : List ℕ → List ℕ
as_they_are xs = xs

abbrev prints_as_they_are : List Fingerprint → List Fingerprint
prints_as_they_are xs = xs

as_they_are_same : (xs : List ℕ) → SamePorts (as_they_are xs) xs
as_they_are_same xs p = (λ h. h, λ h. h)

normalized_ports-IsOrdered_example :
    IsOrdered leb (normalized_ports as_they_are web_ports)
    × ((p : ℕ) → Elem p (normalized_ports as_they_are web_ports) ↔ (Elem p web_ports × (p ≢ 0)))
normalized_ports-IsOrdered_example =
    normalized_ports-IsOrdered as_they_are as_they_are_same web_ports

abbrev no_faults : Faults
no_faults site = false

abbrev one_job : Db
one_job = record empty_db {
  discovery_jobs =
      record {
        id = 3;
        target_cidr = [];
        status = running;
        total_addresses = 2;
        processed_addresses = 1;
        responsive_hosts = 0;
        error = none;
        created_by = 1;
      }
      ∷ [];
}

record_probe-Progress_example :
    Progress 3
      (responded [])
      one_job.discovery_jobs
      (record_probe as_they_are prints_as_they_are no_faults 3 [] [] [] one_job).1.discovery_jobs
unfolding record_probe probe_body progress_body bytes_discrete
record_probe-Progress_example =
    record_probe-Progress as_they_are prints_as_they_are no_faults 3 [] [] [] one_job refl

abbrev printable : Bytes → Bool
printable s = false

-- A device of job 3 with an open web port.
abbrev one_device : Db
one_device = record one_job {
  discovered_devices =
      record {
        id = 4;
        job_id = 3;
        address = codes "a";
        detected_port = some 80;
        status = new;
        machine_id = none;
      }
      ∷ [];
}

one_device-IsConsistent : IsConsistent one_device
one_device-IsConsistent = record { statuses = tt; references = tt }

import_devices-IsConsistent_example :
    IsConsistent (import_devices printable no_faults 1 3 (pos 4 ∷ []) (codes "g") one_device).1
import_devices-IsConsistent_example =
    import_devices-IsConsistent no_faults 1 3 printable (pos 4 ∷ []) (codes "g") one_device
      one_device-IsConsistent

abbrev idle : Service
idle = record { running = false; db = empty_db }

abbrev pending_job : JobRow
pending_job = record {
  id = 1;
  target_cidr = [];
  status = pending;
  total_addresses = 2;
  processed_addresses = 0;
  responsive_hosts = 0;
  error = none;
  created_by = 1;
}

start_scan-Started_example :
    Started false two_hosts.addresses idle
      (start_scan no_addr some_prefix name_addr name_prefix false no_faults 1 (codes "n") idle).1
unfolding start_scan parse_target trim_space split_address_range target_from_prefix target_of_prefix
    scannable prefix_addresses trim_ends is_sensitive_service_address create_job job bytes_discrete
start_scan-Started_example =
    start_scan-Started no_addr some_prefix name_addr name_prefix false no_faults 1 (codes "n") idle
      (pending_job, two_hosts.addresses) refl

abbrev silent_host : ScanResult
silent_host = record {
  address = v4 0x0a00004d;
  responsive = false;
  open_ports = [];
  fingerprints = [];
}

-- The second call of the store, the record of the probe, fails when it commits.
abbrev failing_probe : ℕ → Faults
failing_probe (suc zero) commit = true
failing_probe n site = false

run_scan-AreCounted_example :
    AreCounted
      (run_scan name_addr
        (λ e. codes "error")
        as_they_are
        prints_as_they_are
        3
        failing_probe
        none
        (silent_host ∷ [])
        (record { running = true; db = one_job })).db
run_scan-AreCounted_example =
    run_scan-AreCounted name_addr (λ e. codes "error") as_they_are prints_as_they_are 3
      failing_probe none (silent_host ∷ []) (record { running = true; db = one_job })
      ((omega arith, omega arith, omega arith), tt)
