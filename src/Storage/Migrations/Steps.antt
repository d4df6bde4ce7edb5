-- ===== src/Storage/Migrations/Steps.antt =====
-- What one step of the loop of migrate does, and that a step is not undone.
use agentless_monitoring.Common.{
  arith, ◌≡◌, inl, inr, refl, ap, sym, subst, true, false, List, [], ◌∷◌, ◌++◌, Option, Bytes, ok,
  err, Bool-cases, Option-cases, Result-cases,
}
use agentless_monitoring.Net.{bytes_eq, bytes_eq_refl}
use agentless_monitoring.Storage.Transaction.{transact, transact-eq-ok, transact-eq-err}
use agentless_monitoring.Storage.Migrations.{
  Error, Faults, Entry, Database, is_skipped, is_applied, apply_new, apply_body, apply_migration,
  migrate_each,
}

abbrev pub no_faults : Faults
no_faults site = false

-- A ledger with this migration and with all that was in it.
pub record Extends (name : Bytes) (old versions : List Bytes) : Type 0 where
  pub applied : is_applied name versions ≡ true
  pub kept : (n : Bytes) → is_applied n old ≡ true → is_applied n versions ≡ true

is_applied-front :
    (n : Bytes) (old new : List Bytes) → is_applied n old ≡ true → is_applied n (old ++ new) ≡ true
is_applied-front n [] new h = absurd (ground arith)
is_applied-front n (v ∷ old) new h = elim (Bool-cases (bytes_eq v n)) [
  | inl e ↦ rw (e) refl
  | inr e ↦ let rest = is_applied-front n old new (ground arith) in ground arith
]

is_applied-back :
    (n : Bytes) (old new : List Bytes) → is_applied n new ≡ true → is_applied n (old ++ new) ≡ true
is_applied-back n [] new h = h
is_applied-back n (v ∷ old) new h = let rest = is_applied-back n old new h in ground arith

module _ {Schema : Type 0} (contents : Bytes → Bytes)
    (execute : Bytes → Schema → Option Schema) where
  apply_new-runs :
      (fails : Faults) (name : Bytes) (db : Database Schema) (r : Unit {0} × Database Schema)
      → apply_new contents execute fails name db ≡ ok r
      → (apply_new contents execute no_faults name db ≡ ok r)
        × (r.1.versions ≡ db.versions ++ name ∷ [])
  apply_new-runs fails name db r h = elim (Option-cases (execute (contents name) db.schema)) [
    | inl e ↦ absurd (ground arith)
    | inr (schema, e) ↦
        let made : r ≡ (tt, record { schema = schema; versions = db.versions ++ name ∷ [] }) =
          ground arith in
        (rw (e, made) refl, ap (λ x. x.1.versions) made)
  ]

  apply_body-runs :
      (fails : Faults) (name : Bytes) (db : Database Schema) (r : Unit {0} × Database Schema)
      → apply_body contents execute fails name db ≡ ok r
      → (apply_body contents execute no_faults name db ≡ ok r)
        × Extends name db.versions r.1.versions
  apply_body-runs fails name db r h = elim (Bool-cases (is_applied name db.versions)) [
    | inl b ↦
        let same : (tt, db) ≡ r = ground arith in
        (
          rw (b) (ap ok same),
          subst (λ x. Extends name db.versions x.1.versions) same
              (record { applied = b; kept = λ n a. a }),
        )
    | inr b ↦
        let (runs, versions) = apply_new-runs fails name db r (ground arith) in
        (
          rw (b) runs,
          subst (Extends name db.versions) (sym versions) (record {
            applied = is_applied-back name db.versions (name ∷ []) (rw (bytes_eq_refl name) refl);
            kept = λ n a. is_applied-front n db.versions (name ∷ []) a;
          }),
        )
  ]

  apply_migration-db :
      (fails : Faults) (name : Bytes) (db : Database Schema) (why : Error)
      → (apply_migration contents execute fails name db).0 ≡ err why
      → (apply_migration contents execute fails name db).1 ≡ db
  unfolding apply_migration
  apply_migration-db fails name db why h = transact-eq-err db _ h

  -- A migration that succeeds is in the ledger, which keeps what it had, and without faults it does
  -- the same.
  pub apply_migration-runs :
      (fails : Faults) (name : Bytes) (db : Database Schema)
      → (apply_migration contents execute fails name db).0 ≡ ok tt
      → (apply_migration contents execute no_faults name db
          ≡ (ok tt, (apply_migration contents execute fails name db).1))
        × Extends name db.versions (apply_migration contents execute fails name db).1.versions
  unfolding apply_migration
  apply_migration-runs fails name db h =
      let (runs, extends) = apply_body-runs fails name db _ (transact-eq-ok db _ h) in
      (ap (transact db) runs, extends)

  pub apply_migration-applied :
      (name : Bytes) (db : Database Schema)
      → is_applied name db.versions ≡ true
      → apply_migration contents execute no_faults name db ≡ (ok tt, db)
  unfolding apply_migration
  apply_migration-applied name db b = rw (b) refl

  module _ (fails : Faults) (e : Entry) (es : List Entry) (db : Database Schema) where
    pub migrate_each-skip :
        is_skipped e ≡ true
        → migrate_each contents execute fails (e ∷ es) db
          ≡ migrate_each contents execute fails es db
    unfolding migrate_each
    migrate_each-skip b = rw (b, migrate_each) refl

    pub migrate_each-stop :
        {why : Error}
        → is_skipped e ≡ false
        → (apply_migration contents execute fails e.name db).0 ≡ err why
        → migrate_each contents execute fails (e ∷ es) db ≡ (err why, db)
    unfolding migrate_each
    migrate_each-stop {why} b f =
        rw (b, f, apply_migration-db fails e.name db why f, migrate_each) refl

    pub migrate_each-next :
        is_skipped e ≡ false
        → (apply_migration contents execute fails e.name db).0 ≡ ok tt
        → migrate_each contents execute fails (e ∷ es) db
          ≡ migrate_each contents execute fails es
              (apply_migration contents execute fails e.name db).1
    unfolding migrate_each
    migrate_each-next b f = rw (b, f, migrate_each) refl

  module _ (fails : Faults) where
    -- A run keeps what is in the ledger.
    pub migrate_each-keeps :
        (es : List Entry) (db : Database Schema) (n : Bytes)
        → is_applied n db.versions ≡ true
        → is_applied n (migrate_each contents execute fails es db).1.versions ≡ true
    unfolding migrate_each
    migrate_each-keeps [] db n a = a
    migrate_each-keeps (e ∷ es) db n a = elim (Bool-cases (is_skipped e)) [
      | inl b ↦
          let rest = migrate_each-keeps es db n a in rw (migrate_each-skip fails e es db b) rest
      | inr b ↦ elim (Result-cases (apply_migration contents execute fails e.name db).0) [
        | inl (why, f) ↦ rw (migrate_each-stop fails e es db b f) a
        | inr (u, f) ↦
            let (runs, extends) = apply_migration-runs fails e.name db f in
            let rest =
              migrate_each-keeps es (apply_migration contents execute fails e.name db).1 n
                (extends.kept n a) in
            rw (migrate_each-next fails e es db b f) rest
      ]
    ]
