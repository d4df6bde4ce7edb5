-- ===== src/Machines/Rows.antt =====
-- The rows that recordResult changes, told without the functions that change them.
use agentless_monitoring.Common.{
  ℕ, ◌+◌, ◌≤◌, ◌<◌, ◌≡◌, ◌≢◌, ◌⊎◌, ap, subst, inl, inr, refl, true, false, List, [], ◌∷◌, ◌++◌,
  none, some, Bytes, arith, leb, length, keep, find, All, Bool-cases, ◌==◌,
}
use agentless_monitoring.Storage.Tables.{
  MachineRow, CheckRow, ResultRow, Status, healthy, critical, unknown, disabled, largest_id,
}
use agentless_monitoring.Machines.Record.{
  advance, counters, is_check, is_result, noted, update_checks, update_status,
}

-- The row of a check after a result: a healthy one adds to its successes, ends its failures, and makes
-- it healthy once the successes reach the recovery threshold; a critical one the other way round.
abbrev pub Noted : Status → ℕ → ℕ → Bytes → CheckRow → CheckRow → Type 0
Noted healthy now elapsed_ms summary c d =
    (d ≡ record c {
      status = d.status;
      last_checked_at = some now;
      response_time_ms = some elapsed_ms;
      last_error = none;
      consecutive_failures = 0;
      consecutive_successes = c.consecutive_successes + 1;
    })
    × (((c.recovery_threshold ≤ c.consecutive_successes + 1) × (d.status ≡ healthy))
        ⊎ ((c.consecutive_successes + 1 < c.recovery_threshold) × (d.status ≡ c.status)))
Noted critical now elapsed_ms summary c d =
    (d ≡ record c {
      status = d.status;
      last_checked_at = some now;
      response_time_ms = some elapsed_ms;
      last_error = some summary;
      consecutive_failures = c.consecutive_failures + 1;
      consecutive_successes = 0;
    })
    × (((c.failure_threshold ≤ c.consecutive_failures + 1) × (d.status ≡ critical))
        ⊎ ((c.consecutive_failures + 1 < c.failure_threshold) × (d.status ≡ c.status)))
Noted unknown now elapsed_ms summary c d = ⊥
Noted disabled now elapsed_ms summary c d = ⊥

-- A row that is not that of an enabled check with this id.
abbrev pub IsOther : ℕ → CheckRow → Type 0
IsOther id c = (c.id ≢ id) ⊎ (c.enabled ≡ false)

-- The machines with the id have this status now, and the others are as they were.
abbrev pub HaveStatus : ℕ → Status → List MachineRow → List MachineRow → Type 0
HaveStatus id status [] [] = Unit
HaveStatus id status (m ∷ ms) (n ∷ ns) =
    (((m.id ≡ id) × (n ≡ record m { status = status })) ⊎ ((m.id ≢ id) × (n ≡ m)))
    × HaveStatus id status ms ns
HaveStatus id status [] (n ∷ ns) = ⊥
HaveStatus id status (m ∷ ms) [] = ⊥

pub update_status-HaveStatus :
    (id : ℕ) (s : Status) (ms : List MachineRow) → HaveStatus id s ms (update_status id s ms)
unfolding update_status
update_status-HaveStatus id s [] = tt
update_status-HaveStatus id s (m ∷ ms) = elim (Bool-cases (m.id == id)) [
  | inl e ↦ rw e (inl (ground arith, refl), update_status-HaveStatus id s ms)
  | inr e ↦ rw e (inr ((λ h. ground arith), refl), update_status-HaveStatus id s ms)
]

pub All-below :
    (rs : List ResultRow) (bound : ℕ)
    → largest_id (λ (r : ResultRow). r.id) rs < bound
    → All (λ r. r.id < bound) rs
All-below [] bound h = tt
All-below (r ∷ rs) bound h = (ground arith, All-below rs bound (ground arith))

is_check-IsOther : (id : ℕ) (c : CheckRow) → is_check id c ≡ false → IsOther id c
is_check-IsOther id c h = elim (Bool-cases c.enabled) [
  | inr e ↦ inr e
  | inl e ↦ inl (λ same. ground arith)
]

-- The row that an update finds, when it finds one only.
pub record Single (id : ℕ) (change : CheckRow → CheckRow) (cs : List CheckRow) (check : CheckRow)
    : Type 0 where
  pub front : List CheckRow
  pub back : List CheckRow
  pub found : cs ≡ front ++ check ∷ back
  pub same_id : check.id ≡ id
  pub enabled : check.enabled ≡ true
  pub others_before : All (IsOther id) front
  pub others_after : All (IsOther id) back
  pub written : update_checks id change cs ≡ front ++ change check ∷ back

module _ (id : ℕ) (change : CheckRow → CheckRow) where
  update_checks-none :
      (cs : List CheckRow)
      → length (keep (is_check id) cs) ≡ 0
      → All (IsOther id) cs × (update_checks id change cs ≡ cs)
  unfolding update_checks
  update_checks-none [] h = (tt, refl)
  update_checks-none (c ∷ cs) h = elim (Bool-cases (is_check id c)) [
    | inl e ↦ absurd (ground arith)
    | inr e ↦
        let (others, same) = update_checks-none cs (ground arith) in
        ((is_check-IsOther id c e, others), rw e (ap (◌∷◌ c) same))
  ]

  pub update_checks-Single :
      (cs : List CheckRow) (check : CheckRow)
      → find (is_check id) cs ≡ some check
      → length (keep (is_check id) cs) ≡ 1
      → Single id change cs check
  unfolding update_checks
  update_checks-Single [] check f h = absurd (ground arith)
  update_checks-Single (c ∷ cs) check f h = elim (Bool-cases (is_check id c)) [
    | inl e ↦
        let (others, same) = update_checks-none cs (ground arith) in
        let it : c ≡ check = ground arith in
        subst (Single id change (c ∷ cs)) it (record {
          front = [];
          back = cs;
          found = refl;
          same_id = ground arith;
          enabled = ground arith;
          others_before = tt;
          others_after = others;
          written = rw (e, same) refl;
        })
    | inr e ↦
        let s = update_checks-Single cs check (ground arith) (ground arith) in
        record {
          front = c ∷ s.front;
          back = s.back;
          found = ap (◌∷◌ c) s.found;
          same_id = s.same_id;
          enabled = s.enabled;
          others_before = (is_check-IsOther id c e, s.others_before);
          others_after = s.others_after;
          written = rw e (ap (◌∷◌ c) s.written);
        }
  ]

pub noted-Noted :
    (status : Status) (now elapsed_ms : ℕ) (summary : Bytes) (c : CheckRow)
    → is_result status ≡ true
    → Noted status now elapsed_ms summary c (
        noted now status elapsed_ms summary
          (advance c.failure_threshold c.recovery_threshold (counters c) status)
          c)
unfolding advance
noted-Noted healthy now elapsed_ms summary c h =
    elim (Bool-cases (leb c.recovery_threshold (c.consecutive_successes + 1))) [
      | inl e ↦ rw e (refl, inl (ground arith, refl))
      | inr e ↦ rw e (refl, inr (ground arith, refl))
    ]
noted-Noted critical now elapsed_ms summary c h =
    elim (Bool-cases (leb c.failure_threshold (c.consecutive_failures + 1))) [
      | inl e ↦ rw e (refl, inl (ground arith, refl))
      | inr e ↦ rw e (refl, inr (ground arith, refl))
    ]
noted-Noted unknown now elapsed_ms summary c h = cc
noted-Noted disabled now elapsed_ms summary c h = cc
