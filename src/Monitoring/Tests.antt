-- ===== src/Monitoring/Tests.antt =====
-- The scheduler and the runner on concrete machines.
use agentless_monitoring.Common.{
  if◌then◌else◌, ℕ, ◌+◌, ◌*◌, ◌≤◌, ◌≡◌, ◌≢◌, refl, List, [], ◌∷◌, Bytes, arith, true, false, Option,
  none, some, codes, Result, ok, err, length,
}
use agentless_monitoring.Common.Int.{pos}
use agentless_monitoring.Net.{Addr, v4, bytes_eq}
use agentless_monitoring.Storage.Tables.{unknown, http}
use agentless_monitoring.Machines.{Machine}
use agentless_monitoring.Machines.Record.{is_result}
use agentless_monitoring.Monitoring.Scheduler.{
  SchedulerOptions, Scheduler, new_scheduler, workers_waiting, dispatching, checking, put_worker,
  dispatch_one, acquire, Reach, here, next, start, poll, try, send, receive,
}
use agentless_monitoring.Monitoring.Scheduler.Exclusion.{Reach-exclusive, Reach-bounded}
use agentless_monitoring.Monitoring.Scheduler.Holding.{held}
use agentless_monitoring.Monitoring.Runner.{
  Url, Reply, redirect, Contact, scheme_of, follow, unfinished, run,
}
use agentless_monitoring.Monitoring.Runner.Policy.{run-is_result}

abbrev options : SchedulerOptions
options = record { workers = pos 1; poll_interval = pos 5 }

abbrev started : Scheduler
started = record (new_scheduler options) { pool = workers_waiting 1; dispatcher = dispatching [] }

abbrev polled : Scheduler
polled = record started { dispatcher = dispatching (7 ∷ []) }

abbrev tried : Scheduler
tried = dispatch_one polled 7 []

abbrev sent : Scheduler
sent = record tried { jobs = 7 ∷ []; dispatcher = dispatching [] }

abbrev received : Scheduler
received = record sent { jobs = []; pool = put_worker sent.pool 0 (checking 7) }

-- One worker takes the check that the first poll found due.
abbrev reached : Reach (new_scheduler options) received
unfolding new_scheduler dispatch_one acquire
reached =
    next
      (next
        (next
          (next (next here (start refl refl started refl))
            (poll (7 ∷ []) refl (omega arith) polled refl))
          (try 7 [] refl tried refl))
        (send 7 [] refl (omega arith) sent refl))
      (receive 0 7 [] refl refl received refl)

Reach-exclusive_example : held 7 received ≤ 1
Reach-exclusive_example = Reach-exclusive options reached 7

Reach-bounded_example :
    (length received.jobs ≤ received.workers * 2)
    × (length received.in_flight ≤ received.workers * 3 + 1)
Reach-bounded_example = Reach-bounded options reached

abbrev home : Bytes
home = codes "h"

abbrev home_url : Url
home_url = record { scheme = codes "http"; hostname = home; port = codes "80" }

abbrev web : Machine
web = record {
  id = 1;
  name = home;
  target = home;
  description = [];
  status = unknown;
  check_id = 1;
  check_type = http;
  port = 80;
  path = codes "/";
  timeout = 5000000000;
  last_checked_at = none;
  response_time_ms = none;
  last_error = [];
  check_interval = 60;
  failure_threshold = 3;
  recovery_threshold = 1;
  consecutive_failures = 0;
  consecutive_successes = 0;
}

-- The text "h" is an address.
abbrev resolve : Bytes → Option Addr
resolve s = if bytes_eq s home then some (v4 0x0a000001) else none

abbrev home_text : Bytes
home_text = codes "http://h:80/"

abbrev parse_url : Bytes → Result Bytes Url
parse_url text = if bytes_eq text home_text then ok home_url else err []

abbrev wrapped : Url → Bytes → Bytes
wrapped u cause = cause

-- A server that redirects every request to itself.
abbrev serve : List Contact → Reply
serve made = redirect home_url

abbrev dial : Bytes → ℕ → Option Bytes
dial target port = none

run-is_result_example :
    (is_result (run resolve parse_url wrapped serve dial 9 false web).0.status ≡ true)
    × ((follow resolve wrapped serve (v4 0x0a000001) (scheme_of http) 80 3 [] home_url).0
        ≢ unfinished)
run-is_result_example =
    run-is_result resolve parse_url wrapped serve dial 9 false web (v4 0x0a000001) home_url
