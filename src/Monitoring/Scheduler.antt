-- ===== src/Monitoring/Scheduler.antt =====
-- internal/monitoring/scheduler.go as a transition system. A state holds the channel `jobs`, the set
-- `inFlight`, what each worker is at, and where the dispatching goroutine stands in its loop; a step
-- is what one goroutine does between two operations that another can see (a send, a receive, an
-- operation under the mutex). The store and the runner are the environment: a step carries the list
-- of due machines that the store returned, and whether a result was stored.
pub mod Holding
pub mod Exclusion
use agentless_monitoring.Common.{
  ℕ, zero, suc, ◌+◌, ◌*◌, ◌≤◌, ◌<◌, ◌≡◌, ◌≢◌, Bool, true, false, not, ◌&&◌, List, [], ◌∷◌, ◌++◌,
  Option, none, some, Bytes, ltb, leb, ◌==◌, if◌then◌else◌, length, keep, any,
}
use agentless_monitoring.Common.Int.{ℤ, below, pos_part, above}

-- SchedulerOptions after the defaults of NewScheduler. The poll interval is in nanoseconds.
pub record SchedulerOptions : Type 0 where
  pub workers : ℤ
  pub poll_interval : ℤ

abbrev default_workers : ℤ → ℕ
default_workers n = if below n 1 then 4 else pos_part n

abbrev default_interval : ℤ → ℕ
default_interval n = if above n 0 then pos_part n else 2 * 1000000000

-- A worker waits for a job, runs the check of a machine, or has the result and is about to release
-- the check.
pub data Worker : Type 0 where
  waiting : Worker
  checking : ℕ → Worker
  releasing : ℕ → Worker
  gone : Worker

-- The goroutine of Run: not started, between two ticks, in the loop of `dispatch` over the check ids
-- that are left, blocked on the send of a check that it has acquired, and past the close of `jobs`.
pub data Dispatcher : Type 0 where
  idle : Dispatcher
  dispatching : List ℕ → Dispatcher
  sending : ℕ → List ℕ → Dispatcher
  closed : Dispatcher

pub record Scheduler : Type 0 where
  pub workers : ℕ
  pub poll_interval : ℕ
  pub jobs : List ℕ
  pub in_flight : List ℕ
  pub dispatcher : Dispatcher
  pub pool : List Worker
  pub last_complete : Option ℕ
  pub last_error : Bytes

-- `make(chan machines.Machine, options.Workers*2)`
abbrev pub capacity : Scheduler → ℕ
capacity s = s.workers * 2

abbrev pub mem : ℕ → List ℕ → Bool
mem id ids = any (λ x. x == id) ids

-- `delete(s.inFlight, checkID)`
abbrev pub remove : ℕ → List ℕ → List ℕ
remove id ids = keep (λ x. not (x == id)) ids

abbrev pub workers_waiting : ℕ → List Worker
workers_waiting zero = []
workers_waiting (suc n) = waiting ∷ workers_waiting n

unfoldable pub new_scheduler : SchedulerOptions → Scheduler
new_scheduler options = record {
  workers = default_workers options.workers;
  poll_interval = default_interval options.poll_interval;
  jobs = [];
  in_flight = [];
  dispatcher = idle;
  pool = [];
  last_complete = none;
  last_error = [];
}

-- `acquire`: the new set, and whether the check was free.
unfoldable pub acquire : Scheduler → ℕ → Scheduler × Bool
acquire s id =
    if mem id s.in_flight then (s, false) else (record s { in_flight = id ∷ s.in_flight }, true)

unfoldable pub release : Scheduler → ℕ → Scheduler
release s id = record s { in_flight = remove id s.in_flight }

unfoldable pub record_completion : Scheduler → ℕ → Scheduler
record_completion s now = record s { last_complete = some now; last_error = [] }

unfoldable pub record_error : Scheduler → Bytes → Scheduler
record_error s message = record s { last_error = message }

-- One round of the loop of `dispatch`: `acquire`, then `continue` or go on to the send.
unfoldable pub dispatch_one : Scheduler → ℕ → List ℕ → Scheduler
unfolding acquire
dispatch_one s id rest =
    let (after, acquired) = acquire s id in
    record after { dispatcher = if acquired then sending id rest else dispatching rest }

-- How a worker's run of a check ends: the context was cancelled, the result was stored, or not.
pub data Ending : Type 0 where
  cancelled : Ending
  stored : ℕ → Ending
  failed : Bytes → Ending

unfoldable pub finish_check : Scheduler → Ending → Scheduler
unfolding record_completion record_error
finish_check s cancelled = s
finish_check s (stored now) = record_completion s now
finish_check s (failed message) = record_error s message

-- The worker at a position, and the pool with another one there.
abbrev pub worker_at : List Worker → ℕ → Option Worker
worker_at [] i = none
worker_at (w ∷ ws) zero = some w
worker_at (w ∷ ws) (suc i) = worker_at ws i

abbrev pub put_worker : List Worker → ℕ → Worker → List Worker
put_worker [] i w = []
put_worker (v ∷ ws) zero w = w ∷ ws
put_worker (v ∷ ws) (suc i) w = v ∷ put_worker ws i w

-- The steps of a run. `done` says whether the context is cancelled; it is chosen by the environment.
pub data Step (s : Scheduler) : Scheduler → Type 0 where
  -- The first Run: the workers start, and then the first dispatch.
  start :
      s.dispatcher ≡ idle
      → s.pool ≡ []
      → (t : Scheduler)
      → t ≡ record s { pool = workers_waiting s.workers; dispatcher = dispatching [] }
      → Step s t
  -- A tick, or the first dispatch: ListDue returned machines with these checks, at most workers*4.
  poll :
      (due : List ℕ)
      → s.dispatcher ≡ dispatching []
      → length due ≤ s.workers * 4
      → (t : Scheduler) → t ≡ record s { dispatcher = dispatching due }
      → Step s t
  -- ListDue failed.
  poll_failed :
      (message : Bytes)
      → s.dispatcher ≡ dispatching []
      → (t : Scheduler) → t ≡ record_error s message
      → Step s t
  try :
      (id : ℕ) (rest : List ℕ)
      → s.dispatcher ≡ dispatching (id ∷ rest)
      → (t : Scheduler) → t ≡ dispatch_one s id rest
      → Step s t
  -- `s.jobs <- machine`, when the channel has room.
  send :
      (id : ℕ) (rest : List ℕ)
      → s.dispatcher ≡ sending id rest
      → length s.jobs < capacity s
      → (t : Scheduler) → t ≡ record s { jobs = s.jobs ++ id ∷ []; dispatcher = dispatching rest }
      → Step s t
  -- `<-ctx.Done()` in the select of `dispatch`.
  give_up :
      (id : ℕ) (rest : List ℕ)
      → s.dispatcher ≡ sending id rest
      → (t : Scheduler) → t ≡ record (release s id) { dispatcher = dispatching [] }
      → Step s t
  -- `<-ctx.Done()` in Run: the channel is closed.
  stop :
      s.dispatcher ≡ dispatching []
      → (t : Scheduler) → t ≡ record s { dispatcher = closed }
      → Step s t
  receive :
      (i id : ℕ) (rest : List ℕ)
      → worker_at s.pool i ≡ some waiting
      → s.jobs ≡ id ∷ rest
      → (t : Scheduler) → t ≡ record s { jobs = rest; pool = put_worker s.pool i (checking id) }
      → Step s t
  finish :
      (i id : ℕ) (ending : Ending)
      → worker_at s.pool i ≡ some (checking id)
      → (t : Scheduler)
      → t ≡ record (finish_check s ending) { pool = put_worker s.pool i (releasing id) }
      → Step s t
  let_go :
      (i id : ℕ)
      → worker_at s.pool i ≡ some (releasing id)
      → (t : Scheduler) → t ≡ record (release s id) { pool = put_worker s.pool i waiting }
      → Step s t
  -- The channel is closed and empty: the worker's range loop ends.
  leave :
      (i : ℕ)
      → worker_at s.pool i ≡ some waiting
      → s.jobs ≡ []
      → s.dispatcher ≡ closed
      → (t : Scheduler) → t ≡ record s { pool = put_worker s.pool i gone }
      → Step s t

pub data Reach (s : Scheduler) : Scheduler → Type 0 where
  here : Reach s s
  next : {t u : Scheduler} → Reach s t → Step t u → Reach s u

pub record SchedulerStats : Type 0 where
  pub running : Bool
  pub worker_count : ℕ
  pub queue_depth : ℕ
  pub in_flight : ℕ
  pub last_completed_at : Option ℕ
  pub last_error : Bytes

abbrev is_gone : Worker → Bool
is_gone gone = true
is_gone _ = false

-- `running` is true from the start of Run to its return, which waits for the workers.
abbrev is_running : Dispatcher → List Worker → Bool
is_running idle pool = false
is_running closed pool = any (λ w. not (is_gone w)) pool
is_running _ pool = true

unfoldable pub stats : Scheduler → SchedulerStats
stats s = record {
  running = is_running s.dispatcher s.pool;
  worker_count = s.workers;
  queue_depth = length s.jobs;
  in_flight = length s.in_flight;
  last_completed_at = s.last_complete;
  last_error = s.last_error;
}
