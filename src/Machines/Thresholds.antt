-- ===== src/Machines/Thresholds.antt =====
-- What the thresholds of a check mean: its status after a history of results, newest first.
use agentless_monitoring.Common.{
  ℕ, suc, ◌+◌, ◌≤◌, ◌≡◌, refl, ◌⊎◌, Bool, true, false, List, [], ◌∷◌, arith, leb, if◌then◌else◌,
}
use agentless_monitoring.Storage.Tables.{Status, healthy, critical, unknown, disabled}
use agentless_monitoring.Machines.Record.{Counters, advance}

-- The counters of a new check.
abbrev pub fresh : Counters
fresh = record { status = unknown; failures = 0; successes = 0 }

abbrev pub is_healthy : Status → Bool
is_healthy healthy = true
is_healthy _ = false

abbrev pub is_failure : Status → Bool
is_failure healthy = false
is_failure _ = true

-- How many of the newest results pass a test, without a break.
abbrev pub streak : (Status → Bool) → List Status → ℕ
streak p [] = 0
streak p (s ∷ older) = if p s then suc (streak p older) else 0

-- At some time the newest `n` results were failures, or more.
abbrev pub HadFailures : ℕ → List Status → Type 0
HadFailures n [] = ⊥
HadFailures n (s ∷ older) = (n ≤ streak is_failure (s ∷ older)) ⊎ HadFailures n older

module _ (failure_threshold recovery_threshold : ℕ) where
  -- The counters after the results.
  unfoldable pub after : List Status → Counters
  unfolding advance
  after [] = fresh
  after (s ∷ older) = advance failure_threshold recovery_threshold (after older) s

  -- After any results, the counters hold the length of the run of failures and of the run of healthy
  -- results that end with the newest one.
  pub after-streaks :
      (results : List Status)
      → ((after results).failures ≡ streak is_failure results)
        × ((after results).successes ≡ streak is_healthy results)
  unfolding after
  after-streaks [] = (refl, refl)
  after-streaks (healthy ∷ older) = ground (arith, after-streaks older)
  after-streaks (critical ∷ older) = ground (arith, after-streaks older)
  after-streaks (unknown ∷ older) = ground (arith, after-streaks older)
  after-streaks (disabled ∷ older) = ground (arith, after-streaks older)

  -- When the newest results have failed `failure_threshold` times in a row or more, the check is
  -- critical, and when the newest `recovery_threshold` results or more are healthy, it is healthy.
  -- Both thresholds are at least 1.
  pub after-alarm :
      (results : List Status)
      → 1 ≤ failure_threshold
      → 1 ≤ recovery_threshold
      → (failure_threshold ≤ streak is_failure results)
        ⊎ (recovery_threshold ≤ streak is_healthy results)
      → (after results).status
        ≡ (if leb failure_threshold (streak is_failure results) then critical else healthy)
  unfolding after
  after-alarm [] f r h = absurd (omega arith)
  after-alarm (healthy ∷ older) f r h = ground (arith, after-streaks older)
  after-alarm (critical ∷ older) f r h = ground (arith, after-streaks older)
  after-alarm (unknown ∷ older) f r h = ground (arith, after-streaks older)
  after-alarm (disabled ∷ older) f r h = ground (arith, after-streaks older)

  -- A check is critical only if at some time its results had failed `failure_threshold` times in a
  -- row: fewer failures than that between healthy results never raise an alarm.
  pub after-critical :
      (results : List Status)
      → (after results).status ≡ critical
      → HadFailures failure_threshold results
  unfolding after
  after-critical [] h = cc
  after-critical (healthy ∷ older) h = ground (arith, after-critical older)
  after-critical (critical ∷ older) h = ground (arith, after-critical older, after-streaks older)
  after-critical (unknown ∷ older) h = ground (arith, after-critical older, after-streaks older)
  after-critical (disabled ∷ older) h = ground (arith, after-critical older, after-streaks older)

  -- Until a run of results reaches a threshold the status stays as it was.
  pub after-steady :
      (s : Status) (older : List Status)
      → streak is_failure (s ∷ older) + 1 ≤ failure_threshold
      → streak is_healthy (s ∷ older) + 1 ≤ recovery_threshold
      → (after (s ∷ older)).status ≡ (after older).status
  unfolding after
  after-steady healthy older f r = ground (arith, after-streaks older)
  after-steady critical older f r = ground (arith, after-streaks older)
  after-steady unknown older f r = ground (arith, after-streaks older)
  after-steady disabled older f r = ground (arith, after-streaks older)
