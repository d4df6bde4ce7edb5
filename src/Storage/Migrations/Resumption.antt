-- ===== src/Storage/Migrations/Resumption.antt =====
-- What a run of the migrations leaves behind when it is interrupted.
use agentless_monitoring.Common.{
  ◌≡◌, inl, inr, refl, ap, sym, ◌∙◌, List, [], ◌∷◌, Option, Bytes, Bool-cases, Result-cases,
}
use agentless_monitoring.Storage.Migrations.{
  create_ledger, read_directory, Faults, Entry, Database, is_skipped, apply_migration, migrate_each,
  migrate,
}
use agentless_monitoring.Storage.Migrations.Steps.{
  no_faults, apply_migration-runs, apply_migration-applied, migrate_each-skip, migrate_each-stop,
  migrate_each-next, migrate_each-keeps,
}

module _ {Schema : Type 0} (contents : Bytes → Bytes)
    (execute : Bytes → Schema → Option Schema) where
  module _ (fails : Faults) where
    -- What is left of an interrupted loop is completed by a loop without faults.
    migrate_each-resumed :
        (es : List Entry) (db : Database Schema)
        → migrate_each contents execute no_faults es (migrate_each contents execute fails es db).1
          ≡ migrate_each contents execute no_faults es db
    unfolding migrate_each
    migrate_each-resumed [] db = refl
    migrate_each-resumed (e ∷ es) db = elim (Bool-cases (is_skipped e)) [
      | inl b ↦
          ap (λ x. migrate_each contents execute no_faults (e ∷ es) x.1)
            (migrate_each-skip contents execute fails e es db b)
          ∙ migrate_each-skip contents execute no_faults e es _ b
          ∙ migrate_each-resumed es db
          ∙ sym (migrate_each-skip contents execute no_faults e es db b)
      | inr b ↦ elim (Result-cases (apply_migration contents execute fails e.name db).0) [
        | inl (why, f) ↦
            ap (λ x. migrate_each contents execute no_faults (e ∷ es) x.1)
              (migrate_each-stop contents execute fails e es db b f)
        | inr (u, f) ↦
            let (runs, extends) = apply_migration-runs contents execute fails e.name db f in
            let next = (apply_migration contents execute fails e.name db).1 in
            let last = (migrate_each contents execute fails es next).1 in
            let again =
              apply_migration-applied contents execute e.name last
                (migrate_each-keeps contents execute fails es next e.name extends.applied) in
            ap (λ x. migrate_each contents execute no_faults (e ∷ es) x.1)
              (migrate_each-next contents execute fails e es db b f)
            ∙ migrate_each-next contents execute no_faults e es last b (ap (λ x. x.0) again)
            ∙ ap (λ x. migrate_each contents execute no_faults es x.1) again
            ∙ migrate_each-resumed es next
            ∙ sym (
                migrate_each-next contents execute no_faults e es db b (ap (λ x. x.0) runs)
                ∙ ap (λ x. migrate_each contents execute no_faults es x.1) runs)
      ]
    ]

    -- A start that was interrupted, whichever call failed, leaves the database so that a later start
    -- without faults ends as it would have ended on the database as it was before: with the same
    -- answer and the same schema and ledger. In particular, to migrate twice is to migrate once.
    pub migrate-resumed :
        (entries : List Entry) (db : Database Schema)
        → migrate contents execute no_faults entries (migrate contents execute fails entries db).1
          ≡ migrate contents execute no_faults entries db
    unfolding migrate
    migrate-resumed entries db = elim (Bool-cases (fails create_ledger)) [
      | inl a ↦ rw (a) refl
      | inr a ↦ elim (Bool-cases (fails read_directory)) [
        | inl b ↦ rw (a, b) refl
        | inr b ↦ rw (a, b) (migrate_each-resumed entries db)
      ]
    ]
