-- ===== src/Machines/Invariant.antt =====
-- The status of a machine is that of its enabled checks, after every method of the store.
use agentless_monitoring.Common.{
  ℕ, ◌≤◌, ◌≡◌, refl, sym, ap, ◌∙◌, ◌≢◌, inl, inr, List, [], ◌∷◌, some, arith, ◌==◌, length, keep,
  find, All, Bool-cases, ==_iff,
}
use agentless_monitoring.Storage.Tables.{Db, MachineRow, CheckRow, Status, largest_id}
use agentless_monitoring.Machines.Record.{
  is_check, is_enabled_check_of, machine_status, update_checks, update_status,
}

-- The enabled checks of a machine.
abbrev pub checks_of : ℕ → List CheckRow → List CheckRow
checks_of id checks = keep (is_enabled_check_of id) checks

abbrev pub HasStatus : List CheckRow → MachineRow → Type 0
HasStatus checks m = m.status ≡ machine_status (checks_of m.id checks)

abbrev pub Refers : ℕ → CheckRow → Type 0
Refers bound c = c.machine_id ≤ bound

-- Every machine has the status that its enabled checks give it, and no check refers to a machine id
-- that is still to be given out.
pub record IsConsistent (db : Db) : Type 0 where
  pub statuses : All (HasStatus db.checks) db.machines
  pub references : All (Refers (largest_id (λ (r : MachineRow). r.id) db.machines)) db.checks

-- An update that keeps the id, the machine and the `enabled` of a check that is not there changes
-- nothing.
update_checks_absent :
    (id : ℕ) (change : CheckRow → CheckRow) (cs : List CheckRow)
    → length (keep (is_check id) cs) ≡ 0
    → update_checks id change cs ≡ cs
unfolding update_checks
update_checks_absent id change [] h = refl
update_checks_absent id change (c ∷ cs) h = elim (Bool-cases (is_check id c)) [
  | inl e ↦ absurd (ground arith)
  | inr e ↦ rw e (ap (◌∷◌ c) (update_checks_absent id change cs (ground arith)))
]

module _ (id : ℕ) (change : CheckRow → CheckRow)
    (same_machine : (c : CheckRow) → (change c).machine_id ≡ c.machine_id) where
  -- Updating the one row with an id leaves the checks of every other machine as they are.
  pub checks_of-update_ne :
      (cs : List CheckRow) (check : CheckRow) (j : ℕ)
      → find (is_check id) cs ≡ some check
      → length (keep (is_check id) cs) ≡ 1
      → j ≢ check.machine_id
      → checks_of j (update_checks id change cs) ≡ checks_of j cs
  unfolding update_checks
  checks_of-update_ne [] check j f l h = refl
  checks_of-update_ne (c ∷ cs) check j f l h = elim (Bool-cases (is_check id c)) [
    | inl e ↦
        rw (e, update_checks_absent id change cs (ground arith)) (ground (arith, same_machine c))
    | inr e ↦ rw e (ground (arith, checks_of-update_ne cs check j (ground arith) (ground arith) h))
  ]

  pub update_checks-Refers :
      (bound : ℕ) (cs : List CheckRow)
      → All (Refers bound) cs
      → All (Refers bound) (update_checks id change cs)
  unfolding update_checks
  update_checks-Refers bound [] a = tt
  update_checks-Refers bound (c ∷ cs) a = elim (Bool-cases (is_check id c)) [
    | inl e ↦ rw e (omega (arith, same_machine c, a.0), update_checks-Refers bound cs a.1)
    | inr e ↦ rw e (a.0, update_checks-Refers bound cs a.1)
  ]

pub largest_id-update_status :
    (id : ℕ) (s : Status) (ms : List MachineRow)
    → largest_id (λ (r : MachineRow). r.id) (update_status id s ms)
      ≡ largest_id (λ (r : MachineRow). r.id) ms
unfolding update_status
largest_id-update_status id s [] = refl
largest_id-update_status id s (m ∷ ms) = ground (arith, largest_id-update_status id s ms)

pub update_status-HasStatus :
    (id : ℕ) (old new : List CheckRow) (ms : List MachineRow)
    → ((j : ℕ) → j ≢ id → checks_of j new ≡ checks_of j old)
    → All (HasStatus old) ms
    → All (HasStatus new) (update_status id (machine_status (checks_of id new)) ms)
unfolding update_status
update_status-HasStatus id old new [] k a = tt
update_status-HasStatus id old new (m ∷ ms) k a = elim (Bool-cases (m.id == id)) [
  | inl e ↦ rw e (
    ap (λ j. machine_status (checks_of j new)) (sym ((==_iff m.id id).0 e)),
    update_status-HasStatus id old new ms k a.1,
  )
  | inr e ↦ rw e (
    a.0 ∙ ap machine_status (sym (k m.id (λ p. ground arith))),
    update_status-HasStatus id old new ms k a.1,
  )
]
