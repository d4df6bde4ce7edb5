-- ===== src/Machines/Due.antt =====
-- What the queries of the machine store return.
use agentless_monitoring.Common.{
  ℕ, zero, suc, ◌+◌, ◌≤◌, ◌≡◌, refl, sym, ap, ◌∙◌, ◌≢◌, inl, inr, false, not, List, [], ◌∷◌, ◌++◌,
  arith, ok, ltb, ◌==◌, length, keep, take, Bool-cases, All, append_assoc, append-nil, ==_iff,
  length-append,
}
use agentless_monitoring.Storage.Tables.{
  Db, MachineRow, CheckRow, healthy, critical, unknown, disabled,
}
use agentless_monitoring.Machines.{Faults, Machine}
use agentless_monitoring.Machines.Record.{machine_status}
use agentless_monitoring.Machines.Invariant.{HasStatus, IsConsistent, checks_of}
use agentless_monitoring.Machines.Listing.{
  is_waiting, collect_due, list, list_due, Summary, summary, count_status,
}

-- The machines whose check is due.
abbrev pub due_now : ℕ → List Machine → List Machine
due_now now machines = keep (λ m. not (is_waiting now m)) machines

full_at :
    {limit : ℕ} (due : List Machine) (m : Machine)
    → length due + 1 ≡ limit
    → length (due ++ m ∷ []) ≡ limit
full_at due m h = omega (arith, length-append {0} due (m ∷ []))

longer :
    {limit : ℕ} (k : ℕ) (due : List Machine) (m : Machine)
    → length due + suc (suc k) ≡ limit
    → length (due ++ m ∷ []) + suc k ≡ limit
longer k due m h = omega (arith, length-append {0} due (m ∷ []))

not_full :
    {limit : ℕ} (k : ℕ) (due : List Machine) (m : Machine)
    → length due + suc (suc k) ≡ limit
    → (length (due ++ m ∷ []) == limit) ≡ false
not_full k due m h = ground (arith, length-append {0} due (m ∷ []))

not_below_one : (k : ℕ) → ltb (suc k) 1 ≡ false
not_below_one k = ground arith

-- The loop adds the first `k` due machines to those that it has.
collect_due-take :
    (now limit k : ℕ) (due ms : List Machine)
    → length due + suc k ≡ limit
    → collect_due now limit due ms ≡ due ++ take (suc k) (due_now now ms)
unfolding collect_due
collect_due-take now limit k due [] h = sym (append-nil due)
collect_due-take now limit zero due (m ∷ ms) h = elim (Bool-cases (is_waiting now m)) [
  | inl e ↦ rw e (collect_due-take now limit zero due ms h)
  | inr e ↦ rw (e, (==_iff (length (due ++ m ∷ [])) limit).1 (full_at due m h)) refl
]
collect_due-take now limit (suc k) due (m ∷ ms) h = elim (Bool-cases (is_waiting now m)) [
  | inl e ↦ rw e (collect_due-take now limit (suc k) due ms h)
  | inr e ↦
      rw (e, not_full k due m h)
        (collect_due-take now limit k (due ++ m ∷ []) ms (longer k due m h)
          ∙ append_assoc due (m ∷ []) (take (suc k) (due_now now ms)))
]

-- When the limit is at least 1 and the list of machines can be read, `list_due` gives the first
-- `limit` machines of the list whose check was never made or is as old as its interval.
pub list_due-take :
    (fails : Faults) (now limit : ℕ) (db : Db) (all : List Machine)
    → 1 ≤ limit
    → list fails db ≡ ok all
    → list_due fails now limit db ≡ ok (take limit (due_now now all))
unfolding list_due
list_due-take fails now zero db all h e = absurd (omega arith)
list_due-take fails now (suc k) db all h e =
    rw (not_below_one k, e) (ap ok (collect_due-take now (suc k) k [] all (omega arith)))

statuses_sum :
    (rows : List MachineRow)
    → length rows
      ≡ count_status healthy rows
        + count_status critical rows
        + count_status unknown rows
        + count_status disabled rows
statuses_sum [] = refl
statuses_sum (m ∷ ms) = ground (arith, statuses_sum ms)

machine_status-ne-disabled : (cs : List CheckRow) → machine_status cs ≢ disabled
unfolding machine_status
machine_status-ne-disabled cs h = ground arith

none_disabled :
    (cs : List CheckRow) (ms : List MachineRow)
    → All (HasStatus cs) ms
    → count_status disabled (keep (λ m. m.enabled) ms) ≡ 0
none_disabled cs [] a = refl
none_disabled cs (m ∷ ms) a =
    ground (arith, none_disabled cs ms a.1, machine_status-ne-disabled (checks_of m.id cs))

-- In consistent tables the summary counts every enabled machine once: as healthy, as critical or as
-- unknown.
pub summary_partition :
    (fails : Faults) (db : Db) (s : Summary)
    → IsConsistent db
    → summary fails db ≡ ok s
    → s.total ≡ s.healthy + s.critical + s.unknown
unfolding summary
summary_partition fails db s i h = ground (
  arith,
  statuses_sum (keep (λ m. m.enabled) db.machines),
  none_disabled db.checks db.machines i.statuses,
)
