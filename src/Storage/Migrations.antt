-- ===== src/Storage/Migrations.antt =====
-- internal/storage/migrations.go: the statements that bring a database to the present schema. The
-- embedded files and what SQLite makes of their statements are parameters, and the database is its
-- schema, of any type, with the versions in its ledger. A ledger that is not there has no versions.
pub mod Steps
pub mod Resumption
pub mod Completion
pub mod Ledger
use agentless_monitoring.Common.{
  Bool, not, ◌||◌, List, [], ◌∷◌, ◌++◌, Option, Bytes, codes, reverse, starts_with, Result, ok, err,
  ◌>>=◌, ◌>>◌, refuse_if, or_err, if◌then◌else◌, any,
}
use agentless_monitoring.Net.{bytes_eq}
use agentless_monitoring.Storage.Transaction.{transact}

-- The calls that may fail, with the name of the migration that they are made for.
pub data Site : Type 0 where
  create_ledger read_directory : Site
  begin check_applied read_file apply_file record_version commit : Bytes → Site

pub data Error : Type 0 where
  failed_call : Site → Error

abbrev pub Faults : Type 0
Faults = Site → Bool

abbrev pub call : Faults → Site → Result Error (Unit {0})
call fails site = refuse_if (fails site) (failed_call site)

-- fs.DirEntry
pub record Entry : Type 0 where
  pub name : Bytes
  pub is_dir : Bool

pub record Database (Schema : Type 0) : Type 0 where
  pub schema : Schema
  pub versions : List Bytes

-- entry.IsDir() || !strings.HasSuffix(entry.Name(), ".sql")
abbrev pub is_skipped : Entry → Bool
is_skipped e = e.is_dir || not (starts_with (reverse e.name) (reverse (codes ".sql")))

abbrev pub is_applied : Bytes → List Bytes → Bool
is_applied name versions = any (λ v. bytes_eq v name) versions

module _ {Schema : Type 0} (contents : Bytes → Bytes)
    (execute : Bytes → Schema → Option Schema) where
  -- What the transaction of applyMigration does for a migration that is not in the ledger.
  abbrev pub apply_new :
      Faults → Bytes → Database Schema → Result Error (Unit {0} × Database Schema)
  apply_new fails name db =
      call fails (read_file name)
      >> call fails (apply_file name)
      >> (or_err (execute (contents name) db.schema) (failed_call (apply_file name)) >>= λ schema.
          call fails (record_version name)
          >> call fails (commit name)
          >> ok (tt, record { schema = schema; versions = db.versions ++ name ∷ [] }))

  abbrev pub apply_body :
      Faults → Bytes → Database Schema → Result Error (Unit {0} × Database Schema)
  apply_body fails name db =
      call fails (begin name)
      >> call fails (check_applied name)
      >> (if is_applied name db.versions then ok (tt, db) else apply_new fails name db)

  unfoldable pub apply_migration :
      Faults → Bytes → Database Schema → Result Error (Unit {0}) × Database Schema
  apply_migration fails name db = transact db (apply_body fails name db)

  -- The loop of migrate, which ends at the first error.
  unfoldable pub migrate_each :
      Faults → List Entry → Database Schema → Result Error (Unit {0}) × Database Schema
  migrate_each fails [] db = (ok tt, db)
  migrate_each fails (e ∷ es) db =
      if is_skipped e then migrate_each fails es db else elim (apply_migration fails e.name db).0 [
        | err why ↦ (err why, (apply_migration fails e.name db).1)
        | ok u ↦ migrate_each fails es (apply_migration fails e.name db).1
      ]

  unfoldable pub migrate :
      Faults → List Entry → Database Schema → Result Error (Unit {0}) × Database Schema
  unfolding migrate_each
  migrate fails entries db =
      if fails create_ledger
      then (err (failed_call create_ledger), db)
      else if fails read_directory
      then (err (failed_call read_directory), db)
      else migrate_each fails entries db
