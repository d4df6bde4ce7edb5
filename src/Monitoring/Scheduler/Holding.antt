-- ===== src/Monitoring/Scheduler/Holding.antt =====
-- Where the checks of a scheduler are: counts over its queue, its blocked send and its workers.
use agentless_monitoring.Common.{
  ℕ, zero, suc, ◌+◌, ◌≤◌, ◌≡◌, refl, false, List, [], ◌∷◌, ◌++◌, some, arith, ◌==◌, if◌then◌else◌,
  length,
}
use agentless_monitoring.Monitoring.Scheduler.{
  Worker, waiting, checking, releasing, gone, Dispatcher, idle, dispatching, sending, closed,
  Scheduler, mem, remove, workers_waiting, worker_at, put_worker,
}

-- 1 if the two check ids are the same.
abbrev pub same : ℕ → ℕ → ℕ
same x id = if id == x then 1 else 0

abbrev pub count : ℕ → List ℕ → ℕ
count x [] = 0
count x (id ∷ ids) = same x id + count x ids

-- How often a check is in the hands of a worker, and of the workers together.
abbrev pub busy_with : ℕ → Worker → ℕ
busy_with x waiting = 0
busy_with x (checking id) = same x id
busy_with x (releasing id) = same x id
busy_with x gone = 0

abbrev pub pool_count : ℕ → List Worker → ℕ
pool_count x [] = 0
pool_count x (w ∷ ws) = busy_with x w + pool_count x ws

abbrev pub sending_count : ℕ → Dispatcher → ℕ
sending_count x idle = 0
sending_count x (dispatching ids) = 0
sending_count x (sending id ids) = same x id
sending_count x closed = 0

-- How many workers have a check at hand.
abbrev pub busy : Worker → ℕ
busy waiting = 0
busy (checking id) = 1
busy (releasing id) = 1
busy gone = 0

abbrev pub busy_workers : List Worker → ℕ
busy_workers [] = 0
busy_workers (w ∷ ws) = busy w + busy_workers ws

abbrev pub is_sending : Dispatcher → ℕ
is_sending (sending id ids) = 1
is_sending _ = 0

pub count-append : (x : ℕ) (xs ys : List ℕ) → count x (xs ++ ys) ≡ count x xs + count x ys
count-append x [] ys = omega arith
count-append x (y ∷ xs) ys = omega (arith, count-append x xs ys)

pub count-remove :
    (x id : ℕ) (ids : List ℕ) → count x (remove id ids) ≡ (if id == x then 0 else count x ids)
count-remove x id [] = ground arith
count-remove x id (y ∷ ys) = ground (arith, count-remove x id ys)

pub length-remove : (id : ℕ) (ids : List ℕ) → length (remove id ids) + count id ids ≡ length ids
length-remove id [] = refl
length-remove id (y ∷ ys) = ground (arith, length-remove id ys)

pub mem-false : (id : ℕ) (ids : List ℕ) → mem id ids ≡ false → count id ids ≡ 0
mem-false id [] h = refl
mem-false id (y ∷ ys) h = ground (arith, mem-false id ys)

pub pool_count-put :
    (x i : ℕ) (ws : List Worker) (v w : Worker)
    → worker_at ws i ≡ some v
    → pool_count x (put_worker ws i w) + busy_with x v ≡ pool_count x ws + busy_with x w
pool_count-put x i [] v w h = ground arith
pool_count-put x zero (u ∷ ws) v w h = ground arith
pool_count-put x (suc i) (u ∷ ws) v w h = omega (arith, pool_count-put x i ws v w h)

pub busy_workers-put :
    (i : ℕ) (ws : List Worker) (v w : Worker)
    → worker_at ws i ≡ some v
    → busy_workers (put_worker ws i w) + busy v ≡ busy_workers ws + busy w
busy_workers-put i [] v w h = ground arith
busy_workers-put zero (u ∷ ws) v w h = ground arith
busy_workers-put (suc i) (u ∷ ws) v w h = omega (arith, busy_workers-put i ws v w h)

pub length-put_worker :
    (i : ℕ) (ws : List Worker) (w : Worker) → length (put_worker ws i w) ≡ length ws
length-put_worker i [] w = refl
length-put_worker zero (u ∷ ws) w = refl
length-put_worker (suc i) (u ∷ ws) w = omega (arith, length-put_worker i ws w)

pub workers_waiting_free :
    (x n : ℕ)
    → (pool_count x (workers_waiting n) ≡ 0)
      × (busy_workers (workers_waiting n) ≡ 0)
      × (length (workers_waiting n) ≡ n)
workers_waiting_free x zero = (refl, refl, refl)
workers_waiting_free x (suc n) = omega (arith, workers_waiting_free x n)

pub busy_workers-le : (ws : List Worker) → busy_workers ws ≤ length ws
busy_workers-le [] = omega arith
busy_workers-le (waiting ∷ ws) = omega (arith, busy_workers-le ws)
busy_workers-le (checking id ∷ ws) = omega (arith, busy_workers-le ws)
busy_workers-le (releasing id ∷ ws) = omega (arith, busy_workers-le ws)
busy_workers-le (gone ∷ ws) = omega (arith, busy_workers-le ws)

-- The places where a check can be: the queue, the blocked send, the workers.
abbrev pub held : ℕ → Scheduler → ℕ
held x s = count x s.jobs + sending_count x s.dispatcher + pool_count x s.pool
