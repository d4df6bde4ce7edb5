-- ===== src/Monitoring/Scheduler/Exclusion.antt =====
-- Who holds a check while the scheduler runs: no check is in the queue or with a worker twice.
use agentless_monitoring.Common.{
  ℕ, ◌+◌, ◌*◌, ◌≤◌, ◌≡◌, refl, inl, inr, List, [], ◌∷◌, some, arith, length, length-append,
  Bool-cases,
}
use agentless_monitoring.Monitoring.Scheduler.{
  SchedulerOptions, Worker, waiting, checking, releasing, gone, Dispatcher, dispatching, Scheduler,
  capacity, mem, new_scheduler, release, dispatch_one, Ending, cancelled, stored, failed,
  finish_check, record_error, worker_at, put_worker, Step, start, poll, poll_failed, try, send,
  give_up, stop, receive, finish, let_go, leave, Reach, here, next,
}
use agentless_monitoring.Monitoring.Scheduler.Holding.{
  same, count, pool_count, sending_count, busy_workers, is_sending, count-append, count-remove,
  length-remove, mem-false, pool_count-put, busy_workers-put, length-put_worker,
  workers_waiting_free, busy_workers-le, held,
}

pub record Inv (s : Scheduler) : Type 0 where
  -- `inFlight` has exactly the checks that are held somewhere,
  pub tracked : (x : ℕ) → held x s ≡ count x s.in_flight
  -- each of them once,
  pub once : (x : ℕ) → count x s.in_flight ≤ 1
  -- and as many as there are places taken.
  pub placed : length s.in_flight ≡ length s.jobs + is_sending s.dispatcher + busy_workers s.pool
  pub queue_bounded : length s.jobs ≤ capacity s
  pub staffed : length s.pool ≤ s.workers

pub new-Inv : (options : SchedulerOptions) → Inv (new_scheduler options)
unfolding new_scheduler
new-Inv options = record {
  tracked = λ x. refl;
  once = λ x. omega arith;
  placed = refl;
  queue_bounded = omega arith;
  staffed = omega arith;
}

try-Inv :
    (s : Scheduler) (id : ℕ) (rest : List ℕ)
    → s.dispatcher ≡ dispatching (id ∷ rest)
    → Inv s
    → Inv (dispatch_one s id rest)
unfolding dispatch_one
try-Inv s id rest d i = elim (Bool-cases (mem id s.in_flight)) [
  | inl e ↦ rw e (record {
    tracked = λ x. ground (arith, i.tracked x);
    once = i.once;
    placed = ground arith;
    queue_bounded = i.queue_bounded;
    staffed = i.staffed;
  })
  | inr e ↦ rw e (record {
    tracked = λ x. ground (arith, i.tracked x);
    once = λ x. ground (arith, i.once x, mem-false id s.in_flight e);
    placed = ground arith;
    queue_bounded = i.queue_bounded;
    staffed = i.staffed;
  })
]

-- A release of a check that is held once, with the place where it was held cleared.
release-Inv :
    (s : Scheduler) (id : ℕ) (d : Dispatcher) (pool : List Worker)
    → ((x : ℕ)
        → sending_count x d + pool_count x pool + same x id
          ≡ sending_count x s.dispatcher + pool_count x s.pool)
    → is_sending d + busy_workers pool + 1 ≡ is_sending s.dispatcher + busy_workers s.pool
    → length pool ≡ length s.pool
    → Inv s
    → Inv (record (release s id) { dispatcher = d; pool = pool })
unfolding release
release-Inv s id d pool cleared fewer sized i = record {
  tracked = λ x. ground (arith, cleared x, i.tracked x, i.once x, count-remove x id s.in_flight);
  once = λ x. ground (arith, i.once x, count-remove x id s.in_flight);
  placed =
      ground (arith, cleared id, i.tracked id, i.once id, i.placed, length-remove id s.in_flight);
  queue_bounded = i.queue_bounded;
  staffed = ground (arith, i.staffed);
}

finish_check-Inv : (s : Scheduler) (ending : Ending) → Inv s → Inv (finish_check s ending)
unfolding finish_check
finish_check-Inv s cancelled i = i
finish_check-Inv s (stored now) i = record {
  tracked = i.tracked;
  once = i.once;
  placed = i.placed;
  queue_bounded = i.queue_bounded;
  staffed = i.staffed;
}
finish_check-Inv s (failed message) i = record {
  tracked = i.tracked;
  once = i.once;
  placed = i.placed;
  queue_bounded = i.queue_bounded;
  staffed = i.staffed;
}

-- Moving a check from one hand of a worker to the other.
swap-Inv :
    (s : Scheduler) (i id : ℕ)
    → worker_at s.pool i ≡ some (checking id)
    → Inv s
    → Inv (record s { pool = put_worker s.pool i (releasing id) })
swap-Inv s i id w v = record {
  tracked =
      λ x. omega (arith, pool_count-put x i s.pool (checking id) (releasing id) w, v.tracked x);
  once = v.once;
  placed = omega (arith, busy_workers-put i s.pool (checking id) (releasing id) w, v.placed);
  queue_bounded = v.queue_bounded;
  staffed = omega (arith, length-put_worker i s.pool (releasing id), v.staffed);
}

finish-Inv :
    (s : Scheduler) (i id : ℕ) (ending : Ending)
    → worker_at s.pool i ≡ some (checking id)
    → Inv s
    → Inv (record (finish_check s ending) { pool = put_worker s.pool i (releasing id) })
unfolding finish_check
finish-Inv s i id cancelled w v = swap-Inv s i id w v
finish-Inv s i id (stored now) w v =
    swap-Inv (finish_check s (stored now)) i id w (finish_check-Inv s (stored now) v)
finish-Inv s i id (failed message) w v =
    swap-Inv (finish_check s (failed message)) i id w (finish_check-Inv s (failed message) v)

-- Every step of the scheduler keeps the invariant.
pub Step-Inv : {s t : Scheduler} → Step s t → Inv s → Inv t
unfolding record_error release
Step-Inv {s} (start d p t e) v = rw e (record {
  tracked = λ x. ground (arith, v.tracked x, workers_waiting_free x s.workers);
  once = v.once;
  placed = ground (arith, v.placed, workers_waiting_free 0 s.workers);
  queue_bounded = v.queue_bounded;
  staffed = omega (arith, workers_waiting_free 0 s.workers);
})
Step-Inv {s} (poll due d l t e) v = rw e (record {
  tracked = λ x. ground (arith, v.tracked x);
  once = v.once;
  placed = ground (arith, v.placed);
  queue_bounded = v.queue_bounded;
  staffed = v.staffed;
})
Step-Inv {s} (poll_failed message d t e) v = rw e (record {
  tracked = v.tracked;
  once = v.once;
  placed = v.placed;
  queue_bounded = v.queue_bounded;
  staffed = v.staffed;
})
Step-Inv {s} (try id rest d t e) v = rw e (try-Inv s id rest d v)
Step-Inv {s} (send id rest d room t e) v = rw e (record {
  tracked = λ x. ground (arith, v.tracked x, count-append x s.jobs (id ∷ []));
  once = v.once;
  placed = ground (arith, v.placed, length-append {0} s.jobs (id ∷ []));
  queue_bounded = omega (arith, length-append {0} s.jobs (id ∷ []));
  staffed = v.staffed;
})
Step-Inv {s} (give_up id rest d t e) v =
    rw e (release-Inv s id (dispatching []) s.pool (λ x. ground arith) (ground arith) refl v)
Step-Inv {s} (stop d t e) v = rw e (record {
  tracked = λ x. ground (arith, v.tracked x);
  once = v.once;
  placed = ground (arith, v.placed);
  queue_bounded = v.queue_bounded;
  staffed = v.staffed;
})
Step-Inv {s} (receive i id rest w j t e) v = rw e (record {
  tracked = λ x. ground (arith, v.tracked x, pool_count-put x i s.pool waiting (checking id) w);
  once = v.once;
  placed = ground (arith, v.placed, busy_workers-put i s.pool waiting (checking id) w);
  queue_bounded = ground (arith, v.queue_bounded);
  staffed = omega (arith, length-put_worker i s.pool (checking id), v.staffed);
})
Step-Inv {s} (finish i id ending w t e) v = rw e (finish-Inv s i id ending w v)
Step-Inv {s} (let_go i id w t e) v = rw e (
    release-Inv s id s.dispatcher (put_worker s.pool i waiting)
      (λ x. omega (arith, pool_count-put x i s.pool (releasing id) waiting w))
      (omega (arith, busy_workers-put i s.pool (releasing id) waiting w))
      (length-put_worker i s.pool waiting) v)
Step-Inv {s} (leave i w j d t e) v = rw e (record {
  tracked = λ x. omega (arith, v.tracked x, pool_count-put x i s.pool waiting gone w);
  once = v.once;
  placed = omega (arith, v.placed, busy_workers-put i s.pool waiting gone w);
  queue_bounded = v.queue_bounded;
  staffed = omega (arith, length-put_worker i s.pool gone, v.staffed);
})

Reach-Inv : {s t : Scheduler} → Inv s → Reach s t → Inv t
Reach-Inv v here = v
Reach-Inv v (next r st) = Step-Inv st (Reach-Inv v r)

-- In every state that a new scheduler reaches, whatever the store, the runner and the context do, no
-- check is twice among those in the queue, in the blocked send and with the workers: a check is never
-- queued again, nor run by two workers at once, before its run has ended.
pub Reach-exclusive :
    (options : SchedulerOptions) {t : Scheduler}
    → Reach (new_scheduler options) t
    → (x : ℕ) → held x t ≤ 1
Reach-exclusive options r x =
    let v = Reach-Inv (new-Inv options) r in omega (arith, v.tracked x, v.once x)

-- In every state that a new scheduler reaches, the queue holds at most two checks for each worker,
-- and at most three for each worker and one more are in flight.
pub Reach-bounded :
    (options : SchedulerOptions) {t : Scheduler}
    → Reach (new_scheduler options) t
    → (length t.jobs ≤ t.workers * 2) × (length t.in_flight ≤ t.workers * 3 + 1)
Reach-bounded options {t} r =
    let v = Reach-Inv (new-Inv options) r in
    (v.queue_bounded, ground (arith, v.placed, v.queue_bounded, v.staffed, busy_workers-le t.pool))
