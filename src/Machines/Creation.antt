-- ===== src/Machines/Creation.antt =====
-- What `create` leaves in the tables.
use agentless_monitoring.Common.{
  ℕ, ◌≤◌, ◌<◌, ◌≡◌, refl, sym, ap, ◌∙◌, Bool, true, false, ◌&&◌, ◌||◌, List, [], ◌∷◌, ◌++◌, Option,
  Bytes, arith, Result, ok, err, ◌==◌, ◌>>=◌, keep, any, All, All-append, append-nil, >>=-eq-ok,
}
use agentless_monitoring.Common.Int.{pos_part}
use agentless_monitoring.Net.{Addr, bytes_eq, bytes_eq_refl}
use agentless_monitoring.Storage.Tables.{
  Db, MachineRow, CheckRow, CheckType, tcp, http, https, other, unknown, largest_id, next_id,
}
use agentless_monitoring.Storage.Transaction.{transact, transact-keeps, transact-eq-ok}
use agentless_monitoring.Machines.{
  Error, duplicate, Faults, begin, find_duplicate, check_type_eq, Machine, check_exists, has_key,
  insert_machine_row, insert_check_row, new_machine, new_check, create_rows, create, or_invalid,
}
use agentless_monitoring.Machines.Input.{CreateInput, validate_create_input}
use agentless_monitoring.Machines.Record.{is_enabled_check_of, machine_status}
use agentless_monitoring.Machines.Invariant.{checks_of, HasStatus, Refers, IsConsistent}

keep-append {ℓ} :
    {A : Type ℓ} (p : A → Bool) (xs ys : List A) → keep p (xs ++ ys) ≡ keep p xs ++ keep p ys
keep-append p [] ys = refl
keep-append p (x ∷ xs) ys = ground (arith, keep-append p xs ys)

any-append {ℓ} :
    {A : Type ℓ} (p : A → Bool) (xs ys : List A) → any p (xs ++ ys) ≡ any p xs || any p ys
any-append p [] ys = refl
any-append p (x ∷ xs) ys = ground (arith, any-append p xs ys)

largest_id-append :
    (ms : List MachineRow) (m : MachineRow)
    → largest_id (λ (r : MachineRow). r.id) ms < m.id
    → largest_id (λ (r : MachineRow). r.id) (ms ++ m ∷ []) ≡ m.id
largest_id-append [] m h = ground arith
largest_id-append (x ∷ xs) m h = ground (arith, largest_id-append xs m)

Refers-mono : (a b : ℕ) (cs : List CheckRow) → a ≤ b → All (Refers a) cs → All (Refers b) cs
Refers-mono a b [] h r = tt
Refers-mono a b (c ∷ cs) h r = (omega arith, Refers-mono a b cs h r.1)

checks_of_new :
    (bound id : ℕ) (cs : List CheckRow) → All (Refers bound) cs → bound < id → checks_of id cs ≡ []
checks_of_new bound id [] r h = refl
checks_of_new bound id (c ∷ cs) r h = ground (arith, checks_of_new bound id cs r.1 h)

-- A check of another machine adds nothing to the checks of this one.
checks_of-append_ne :
    (id : ℕ) (cs : List CheckRow) (c : CheckRow)
    → id < c.machine_id
    → checks_of id (cs ++ c ∷ []) ≡ checks_of id cs
checks_of-append_ne id cs c h =
    keep-append (is_enabled_check_of id) cs (c ∷ []) ∙ ground (arith, append-nil (checks_of id cs))

HasStatus-append :
    (bound : ℕ) (cs : List CheckRow) (c : CheckRow) (ms : List MachineRow)
    → largest_id (λ (r : MachineRow). r.id) ms ≤ bound
    → bound < c.machine_id
    → All (HasStatus cs) ms
    → All (HasStatus (cs ++ c ∷ [])) ms
HasStatus-append bound cs c [] b h a = tt
HasStatus-append bound cs c (m ∷ ms) b h a = (
  a.0 ∙ ap machine_status (sym (checks_of-append_ne m.id cs c (ground arith))),
  HasStatus-append bound cs c ms (ground arith) h a.1,
)

any_self {ℓ} :
    {A : Type ℓ} (p : A → Bool) (xs : List A) (x : A) → p x ≡ true → any p (xs ++ x ∷ []) ≡ true
any_self p xs x h = any-append p xs (x ∷ []) ∙ ground (arith, h)

check_type_eq_refl : (t : CheckType) → check_type_eq t t ≡ true
check_type_eq_refl tcp = refl
check_type_eq_refl http = refl
check_type_eq_refl https = refl
check_type_eq_refl (other t) = bytes_eq_refl t

-- A check has its own key, beside the machine that it belongs to.
has_key_self :
    (ms : List MachineRow) (m : MachineRow) (c : CheckRow)
    → m.id ≡ c.machine_id
    → has_key m.target c.check_type c.port c.path (ms ++ m ∷ []) c ≡ true
has_key_self ms m c h = ground (
  arith,
  any_self (λ (r : MachineRow). r.id == c.machine_id && bytes_eq r.target m.target) ms m
      (ground (arith, bytes_eq_refl m.target)),
  check_type_eq_refl c.check_type,
  bytes_eq_refl c.path,
)

machine_status_fresh : (c : CheckRow) → c.status ≡ unknown → machine_status (c ∷ []) ≡ unknown
unfolding machine_status
machine_status_fresh c h = rw h

module _ (ms : List MachineRow) (cs : List CheckRow) (m : MachineRow) (c : CheckRow)
    (above : largest_id (λ (r : MachineRow). r.id) ms < m.id) (refers : c.machine_id ≡ m.id) where
  checks_of-new :
      c.enabled ≡ true
      → All (Refers (largest_id (λ (r : MachineRow). r.id) ms)) cs
      → checks_of m.id (cs ++ c ∷ []) ≡ c ∷ []
  checks_of-new e r =
      keep-append (is_enabled_check_of m.id) cs (c ∷ [])
      ∙ ground (arith, checks_of_new _ m.id cs r above)

  -- A new machine and its one check, whose status is not known, keep the tables consistent.
  pub statuses-append :
      m.status ≡ unknown
      → c.status ≡ unknown
      → c.enabled ≡ true
      → All (Refers (largest_id (λ (r : MachineRow). r.id) ms)) cs
      → All (HasStatus cs) ms
      → All (HasStatus (cs ++ c ∷ [])) (ms ++ m ∷ [])
  statuses-append sm sc e r a =
      All-append (HasStatus (cs ++ c ∷ [])) ms (m ∷ [])
        (HasStatus-append (largest_id (λ (r : MachineRow). r.id) ms) cs c ms (omega arith)
          (omega arith) a)
        (sm ∙ sym (ap machine_status (checks_of-new e r) ∙ machine_status_fresh c sc), tt)

  pub references-append :
      All (Refers (largest_id (λ (r : MachineRow). r.id) ms)) cs
      → All (Refers (largest_id (λ (r : MachineRow). r.id) (ms ++ m ∷ []))) (cs ++ c ∷ [])
  references-append r = rw (largest_id-append ms m above) (
      All-append (Refers m.id) cs (c ∷ [])
        (Refers-mono (largest_id (λ (r : MachineRow). r.id) ms) m.id cs (omega arith) r)
        (omega arith, tt))

module _ (fails : Faults) (actor : ℕ) (input : CreateInput) (db : Db) where
  new_id : ℕ
  new_id = next_id (λ (r : MachineRow). r.id) db.machines

  pub record Created (after : Db) : Type 0 where
    pub absent :
        check_exists input.target input.check_type (pos_part input.port) input.path db ≡ false
    pub machines :
        after.machines ≡ (insert_machine_row input.name input.target input.description db).machines
    pub checks :
        after.checks
        ≡ (insert_check_row (next_id (λ (r : MachineRow). r.id) db.machines) input db).checks

  create_rows-Created :
      (m : Machine) (after : Db) → create_rows fails actor input db ≡ ok (m, after) → Created after
  unfolding create_rows insert_machine_row insert_check_row
  create_rows-Created m after h = record {
    absent = ground arith;
    machines = ground arith;
    checks = ground arith;
  }

  Created-IsConsistent : (after : Db) → Created after → IsConsistent db → IsConsistent after
  unfolding insert_machine_row insert_check_row
  Created-IsConsistent after c i = record {
    statuses =
        rw (c.machines, c.checks)
          (statuses-append db.machines db.checks _ _ (omega arith) refl refl refl refl i.references
            i.statuses);
    references =
        rw (c.machines, c.checks)
          (references-append db.machines db.checks _ _ (omega arith) refl i.references);
  }

  -- Once a machine is created, its target has its check.
  Created-exists :
      (after : Db)
      → Created after
      → check_exists input.target input.check_type (pos_part input.port) input.path after ≡ true
  unfolding insert_machine_row insert_check_row check_exists
  Created-exists after c =
      rw (c.machines, c.checks)
        (any_self
          (has_key input.target input.check_type (pos_part input.port) input.path
            (db.machines ++ new_machine input.name input.target input.description db ∷ []))
          db.checks row
          (has_key_self db.machines (new_machine input.name input.target input.description db) row
            refl))
    where
      row : CheckRow
      row = new_check (next_id (λ (r : MachineRow). r.id) db.machines) input db

create_rows_duplicate :
    (fails : Faults) (actor : ℕ) (input : CreateInput) (db : Db)
    → fails begin ≡ false
    → fails find_duplicate ≡ false
    → check_exists input.target input.check_type (pos_part input.port) input.path db ≡ true
    → create_rows fails actor input db ≡ err duplicate
unfolding create_rows
create_rows_duplicate fails actor input db b f x = rw (b, f, x)

create_rows_twice :
    (fails : Faults) (actor : ℕ) (input : CreateInput) (db : Db) (m : Machine) (fails' : Faults)
    (actor' : ℕ)
    → (transact db (create_rows fails actor input db)).0 ≡ ok m
    → fails' begin ≡ false
    → fails' find_duplicate ≡ false
    → let after = (transact db (create_rows fails actor input db)).1 in
      transact after (create_rows fails' actor' input after) ≡ (err duplicate, after)
create_rows_twice fails actor input db m fails' actor' h b f =
    let after = (transact db (create_rows fails actor input db)).1 in
    let made =
      create_rows-Created fails actor input db m after
        (transact-eq-ok db (create_rows fails actor input db) h) in
    ap (transact after) (
      create_rows_duplicate fails' actor' input after b f
        (Created-exists fails actor input db after made))

module _ (parse_addr : Bytes → Option Addr) (addr_string : Addr → Bytes)
    (has_control : Bytes → Bool) (fails : Faults) (actor : ℕ) where
  create_body : CreateInput → Db → Result Error (Machine × Db)
  create_body input db =
      or_invalid (validate_create_input parse_addr addr_string has_control input) >>= λ valid.
      create_rows fails actor valid db

  -- Whatever the input, and whichever database calls fail, `create` leaves every machine with the
  -- status that its enabled checks give it.
  pub create-IsConsistent :
      (input : CreateInput) (db : Db)
      → IsConsistent db
      → IsConsistent (create parse_addr addr_string has_control fails actor input db).1
  unfolding create create_body
  create-IsConsistent input db i =
      transact-keeps IsConsistent db (create_body input db) i λ m after e.
        let (valid, _, h) =
          >>=-eq-ok (or_invalid (validate_create_input parse_addr addr_string has_control input))
            (λ v. create_rows fails actor v db) e in
        Created-IsConsistent fails actor valid db after
          (create_rows-Created fails actor valid db m after h) i

  -- After a successful `create` the same input is refused as a duplicate, unless the database fails
  -- before it looks for one, and the tables stay as they are.
  pub create_twice :
      (input : CreateInput) (db : Db) (m : Machine) (fails' : Faults) (actor' : ℕ)
      → (create parse_addr addr_string has_control fails actor input db).0 ≡ ok m
      → fails' begin ≡ false
      → fails' find_duplicate ≡ false
      → let after = (create parse_addr addr_string has_control fails actor input db).1 in
        create parse_addr addr_string has_control fails' actor' input after ≡ (err duplicate, after)
  unfolding create create_body
  create_twice input db m fails' actor' h b f =
      let e = transact-eq-ok db (create_body input db) h in
      let (valid, v, c) =
        >>=-eq-ok (or_invalid (validate_create_input parse_addr addr_string has_control input))
          (λ v. create_rows fails actor v db) e in
      rw v (create_rows_twice fails actor valid db m fails' actor' (rw v at h) b f)
