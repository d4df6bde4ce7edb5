-- ===== src/Discovery/Import/Effects.antt =====
-- What an import does to the machines, and how many devices it imports.
use agentless_monitoring.Common.{
  ℕ, ◌+◌, ◌≤◌, ◌≡◌, refl, inl, inr, ap, subst, Bool, ◌||◌, List, [], ◌∷◌, Bytes, codes, trim_space,
  ok, arith, ◌>>◌, refuse_if, ltb, ◌==◌, length, any, Bool-cases, Option-cases, Result-cases, find,
}
use agentless_monitoring.Common.Int.{ℤ}
use agentless_monitoring.Storage.Tables.{Db, CheckType, DeviceRow}
use agentless_monitoring.Storage.Transaction.{transact-keeps, transact-eq-ok}
use agentless_monitoring.Machines.{has_key, insert_machine_row}
use agentless_monitoring.Machines.Invariant.{IsConsistent}
use agentless_monitoring.Machines.Creation.{statuses-append, references-append}
use agentless_monitoring.Discovery.Ports.{check_for_detected_port, unique_positive_ids}
use agentless_monitoring.Discovery.Jobs.{invalid_group, no_devices, Faults}
use agentless_monitoring.Discovery.Import.{
  is_member, is_group_named, upsert_group, insert_discovered, find_or_create_machine, add_member,
  mark_device, audit_import, import_device, is_device_of, is_imported, import_each, import_body,
  import_devices,
}

insert_discovered-IsConsistent :
    (address : Bytes) (check_type : CheckType) (port : ℕ) (db : Db)
    → IsConsistent db
    → IsConsistent (insert_discovered address check_type port db)
unfolding insert_machine_row
insert_discovered-IsConsistent address check_type port db i = record {
  statuses =
      statuses-append db.machines db.checks _ _ (omega arith) refl refl refl refl i.references
        i.statuses;
  references = references-append db.machines db.checks _ _ (omega arith) refl i.references;
}

find_or_create_machine-IsConsistent :
    (fails : Faults) (site : ℕ) (address : Bytes) (check_type : CheckType) (port : ℕ) (db : Db)
    (r : ℕ × Db)
    → IsConsistent db
    → find_or_create_machine fails site address check_type port db ≡ ok r
    → IsConsistent r.1
unfolding find_or_create_machine
find_or_create_machine-IsConsistent fails site address check_type port db r i h =
    elim (Option-cases (find (has_key address check_type port (codes "/") db.machines) db.checks)) [
      | inr (c, e) ↦ subst IsConsistent (ground arith) i
      | inl e ↦
          subst IsConsistent (ground arith)
            (insert_discovered-IsConsistent address check_type port db i)
    ]

same_machines-IsConsistent :
    (a b : Db) → b.machines ≡ a.machines → b.checks ≡ a.checks → IsConsistent a → IsConsistent b
same_machines-IsConsistent a b p q i = record {
  statuses = rw (p, q) i.statuses;
  references = rw (p, q) i.references;
}

add_member-IsConsistent : (m g : ℕ) (db : Db) → IsConsistent db → IsConsistent (add_member m g db)
add_member-IsConsistent m g db i = elim (Bool-cases (any (is_member m g) db.machine_groups)) [
  | inl e ↦ rw e i
  | inr e ↦ rw e (record { statuses = i.statuses; references = i.references })
]

upsert_group-IsConsistent :
    (name : Bytes) (db : Db) → IsConsistent db → IsConsistent (upsert_group name db)
upsert_group-IsConsistent name db i = elim (Bool-cases (any (is_group_named name) db.groups)) [
  | inl e ↦ rw e i
  | inr e ↦ rw e (record { statuses = i.statuses; references = i.references })
]

module _ (fails : Faults) (actor job_id : ℕ) where
  import_device-IsConsistent :
      (group_id : ℕ) (d : DeviceRow) (db after : Db)
      → IsConsistent db
      → import_device fails actor group_id d db ≡ ok after
      → IsConsistent after
  unfolding import_device
  import_device-IsConsistent group_id d db after i h =
      let check = check_for_detected_port d.detected_port in
      elim (Result-cases (find_or_create_machine fails d.id d.address check.0 check.1 db)) [
        | inl (x, e) ↦ absurd (ground arith)
        | inr (found, e) ↦
            let member = add_member found.0 group_id found.1 in
            let same : after ≡ audit_import actor found.0 (mark_device d.id found.0 member) =
              ground arith in
            same_machines-IsConsistent member after (ap (λ t. t.machines) same)
              (ap (λ t. t.checks) same)
              (add_member-IsConsistent found.0 group_id found.1 (
                find_or_create_machine-IsConsistent fails d.id d.address check.0 check.1 db found i
                  e))
      ]

  -- What the loop leaves: consistent tables, and a count that grows by at most one for each id.
  abbrev Imported : ℕ → ℕ → ℕ × Db → Type 0
  Imported count ids r = IsConsistent r.1 × (r.0 ≤ count + ids)

  import_each-Imported :
      (group_id : ℕ) (ids : List ℕ) (count : ℕ) (db : Db) (r : ℕ × Db)
      → IsConsistent db
      → import_each fails actor job_id group_id ids count db ≡ ok r
      → Imported count (length ids) r
  unfolding import_each
  import_each-Imported group_id [] count db r i h =
      let same : (count, db) ≡ r = ground arith in subst (Imported count 0) same (i, omega arith)
  import_each-Imported group_id (id ∷ ids) count db r i h =
      elim (Option-cases (find (is_device_of id job_id) db.discovered_devices)) [
        | inl e ↦
            let rest = import_each-Imported group_id ids count db r i (ground arith) in
            (rest.0, omega (arith, rest.1))
        | inr (d, e) ↦ elim (Bool-cases (is_imported d.status)) [
          | inl b ↦
              let rest = import_each-Imported group_id ids count db r i (ground arith) in
              (rest.0, omega (arith, rest.1))
          | inr b ↦ elim (Result-cases (import_device fails actor group_id d db)) [
            | inl (x, f) ↦ absurd (ground arith)
            | inr (w, f) ↦
                let rest =
                  import_each-Imported group_id ids (count + 1) w r
                    (import_device-IsConsistent group_id d db w i f) (ground arith) in
                (rest.0, omega (arith, rest.1))
          ]
        ]
      ]

  import_body-Imported :
      (ids : List ℤ) (name : Bytes) (db : Db) (r : ℕ × Db)
      → IsConsistent db
      → import_body fails actor job_id ids name db ≡ ok r
      → Imported 0 (length (unique_positive_ids ids)) r
  unfolding import_body
  import_body-Imported ids name db r i h =
      let grouped = upsert_group name db in
      elim (Option-cases (find (is_group_named name) grouped.groups)) [
        | inl e ↦ absurd (ground arith)
        | inr (g, e) ↦
            elim (Result-cases
              (import_each fails actor job_id g.id (unique_positive_ids ids) 0 grouped)) [
                | inl (x, f) ↦ absurd (ground arith)
                | inr (w, f) ↦
                    let same : w ≡ r = ground arith in
                    subst (Imported 0 (length (unique_positive_ids ids))) same (
                      import_each-Imported g.id (unique_positive_ids ids) 0 grouped w
                        (upsert_group-IsConsistent name db i) f)
              ]
      ]

  module _ (has_control : Bytes → Bool) where
    import_body_of :
        (ids : List ℤ) (name : Bytes) (db : Db) (r : ℕ × Db)
        → (refuse_if (length name == 0 || ltb 100 (length name) || has_control name) invalid_group
            >> refuse_if (length ids == 0) no_devices
            >> import_body fails actor job_id ids name db)
          ≡ ok r
        → import_body fails actor job_id ids name db ≡ ok r
    import_body_of ids name db r h = ground arith

    -- ImportDevices keeps the machines consistent, whether it succeeds or fails: every machine has the
    -- status that its enabled checks give it, and no check belongs to a machine that is not there yet.
    pub import_devices-IsConsistent :
        (ids : List ℤ) (name : Bytes) (db : Db)
        → IsConsistent db
        → IsConsistent (import_devices has_control fails actor job_id ids name db).1
    unfolding import_devices
    import_devices-IsConsistent ids name db i =
        transact-keeps IsConsistent db
          (refuse_if
              (length (trim_space name) == 0
                || ltb 100 (length (trim_space name))
                || has_control (trim_space name))
              invalid_group
            >> refuse_if (length ids == 0) no_devices
            >> import_body fails actor job_id ids (trim_space name) db)
          i
          (λ n after e.
            (import_body-Imported ids (trim_space name) db (n, after) i
              (import_body_of ids (trim_space name) db (n, after) e)).0)

    -- ImportDevices reports no more devices than the request has different positive ids.
    pub import_devices-count :
        (ids : List ℤ) (name : Bytes) (db : Db) (n : ℕ)
        → IsConsistent db
        → (import_devices has_control fails actor job_id ids name db).0 ≡ ok n
        → n ≤ length (unique_positive_ids ids)
    unfolding import_devices
    import_devices-count ids name db n i h =
        let e =
          transact-eq-ok db
            (refuse_if
                (length (trim_space name) == 0
                  || ltb 100 (length (trim_space name))
                  || has_control (trim_space name))
                invalid_group
              >> refuse_if (length ids == 0) no_devices
              >> import_body fails actor job_id ids (trim_space name) db)
            h in
        omega (
          arith,
          (import_body-Imported ids (trim_space name) db _ i
              (import_body_of ids (trim_space name) db _ e)).1,
        )
