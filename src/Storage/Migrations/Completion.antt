-- ===== src/Storage/Migrations/Completion.antt =====
-- What a run of the migrations that succeeds has done.
use agentless_monitoring.Common.{
  ◌++◌, codes, reverse, refl, starts_with, strip_prefix, Elem, arith, ◌≡◌, ◌⊎◌, inl, inr, ap, sym,
  ◌∙◌, subst, true, List, [], ◌∷◌, Option, Bytes, ok, err≢ok, All, Bool-cases, Result-cases,
}
use mathlib.Core.List.{reverse_aux}
use agentless_monitoring.Net.{bytes_eq}
use agentless_monitoring.Storage.Migrations.{
  create_ledger, read_directory, Faults, Entry, Database, is_skipped, is_applied, apply_migration,
  migrate_each, migrate,
}
use agentless_monitoring.Storage.Migrations.Steps.{
  apply_migration-runs, migrate_each-skip, migrate_each-stop, migrate_each-next, migrate_each-keeps,
}

-- A name that ends in ".sql".
abbrev pub IsSqlName : Bytes → Type 0
IsSqlName name = (stem : Bytes) × (name ≡ stem ++ codes ".sql")

-- An entry of the directory is a directory itself, or its name is not that of an SQL file, or its
-- migration is in the ledger.
abbrev pub IsDone : List Bytes → Entry → Type 0
IsDone versions e = (e.is_dir ≡ true) ⊎ ((IsSqlName e.name → ⊥) ⊎ Elem e.name versions)

reverse_aux-append :
    (stem end r : Bytes) → reverse_aux (stem ++ end) r ≡ reverse_aux end (reverse_aux stem r)
reverse_aux-append [] end r = refl
reverse_aux-append (c ∷ stem) end r = reverse_aux-append stem end (c ∷ r)

IsSqlName-starts_with :
    (name : Bytes) → IsSqlName name → starts_with (reverse name) (reverse (codes ".sql")) ≡ true
unfolding starts_with strip_prefix
IsSqlName-starts_with name (stem, same) =
    ap (λ n. starts_with n (reverse (codes ".sql")))
      (ap reverse same ∙ reverse_aux-append stem (codes ".sql") [])

is_skipped-IsDone : (versions : List Bytes) (e : Entry) → is_skipped e ≡ true → IsDone versions e
is_skipped-IsDone versions e h = elim (Bool-cases e.is_dir) [
  | inl d ↦ inl d
  | inr d ↦ inr (inl (λ sql. ground (arith, IsSqlName-starts_with e.name sql)))
]

is_applied-Elem :
    (name : Bytes) (versions : List Bytes) → is_applied name versions ≡ true → Elem name versions
is_applied-Elem name [] h = absurd (ground arith)
is_applied-Elem name (v ∷ versions) h = elim (Bool-cases (bytes_eq v name)) [
  | inl e ↦ inl (ground arith)
  | inr e ↦ inr (is_applied-Elem name versions (ground arith))
]

module _ {Schema : Type 0} (contents : Bytes → Bytes)
    (execute : Bytes → Schema → Option Schema) where
  module _ (fails : Faults) where
    migrate_each_complete :
        (es : List Entry) (db : Database Schema)
        → (migrate_each contents execute fails es db).0 ≡ ok tt
        → All (IsDone (migrate_each contents execute fails es db).1.versions) es
    unfolding migrate_each
    migrate_each_complete [] db h = tt
    migrate_each_complete (e ∷ es) db h = elim (Bool-cases (is_skipped e)) [
      | inl b ↦
          let same = migrate_each-skip contents execute fails e es db b in
          subst (λ x. All (IsDone x.1.versions) (e ∷ es)) (sym same)
            (is_skipped-IsDone _ e b, migrate_each_complete es db (ap (λ x. x.0) (sym same) ∙ h))
      | inr b ↦ elim (Result-cases (apply_migration contents execute fails e.name db).0) [
        | inl (why, f) ↦ absurd (
            err≢ok (ap (λ x. x.0) (sym (migrate_each-stop contents execute fails e es db b f)) ∙ h))
        | inr (u, f) ↦
            let same = migrate_each-next contents execute fails e es db b f in
            let (runs, extends) = apply_migration-runs contents execute fails e.name db f in
            let next = (apply_migration contents execute fails e.name db).1 in
            subst (λ x. All (IsDone x.1.versions) (e ∷ es)) (sym same)
              (
                inr (
                    inr (
                      is_applied-Elem e.name _ (
                        migrate_each-keeps contents execute fails es next e.name extends.applied))),
                migrate_each_complete es next (ap (λ x. x.0) (sym same) ∙ h),
              )
      ]
    ]

    -- A run of the migrations that succeeds leaves every file of the directory whose name ends in
    -- ".sql" in the ledger.
    pub migrate_complete :
        (entries : List Entry) (db : Database Schema)
        → (migrate contents execute fails entries db).0 ≡ ok tt
        → All (IsDone (migrate contents execute fails entries db).1.versions) entries
    unfolding migrate
    migrate_complete entries db h = elim (Bool-cases (fails create_ledger)) [
      | inl a ↦ absurd (ground arith)
      | inr a ↦ elim (Bool-cases (fails read_directory)) [
        | inl b ↦ absurd (ground arith)
        | inr b ↦ rw (a, b) (migrate_each_complete entries db (ground arith))
      ]
    ]
