-- ===== src/Storage/Tests.antt =====
-- Migrations on a concrete directory. A schema is the list of the statements that were executed.
use agentless_monitoring.Common.{
  ◌≡◌, refl, false, List, [], ◌∷◌, ◌++◌, Option, some, Bytes, codes, ok, All, arith, bytes_discrete,
  strip_prefix, starts_with,
}
use agentless_monitoring.Net.{bytes_eq}
use agentless_monitoring.Storage.Migrations.{
  apply_file, Faults, Entry, Database, apply_migration, migrate_each, migrate,
}
use agentless_monitoring.Storage.Migrations.Steps.{no_faults}
use agentless_monitoring.Storage.Migrations.Resumption.{migrate-resumed}
use agentless_monitoring.Storage.Migrations.Completion.{IsDone, migrate_complete}
use agentless_monitoring.Storage.Migrations.Ledger.{IsBuilt, migrate-IsBuilt}

abbrev contents : Bytes → Bytes
contents name = 32 ∷ name

abbrev execute : Bytes → List Bytes → Option (List Bytes)
execute sql schema = some (schema ++ sql ∷ [])

abbrev entries : List Entry
entries =
    record { name = codes "a.sql"; is_dir = false }
    ∷ record { name = codes "notes"; is_dir = false }
    ∷ record { name = codes "b.sql"; is_dir = false }
    ∷ []

abbrev fresh : Database (List Bytes)
fresh = record { schema = []; versions = [] }

-- The second file cannot be executed.
abbrev interrupting : Faults
interrupting (apply_file name) = bytes_eq name (codes "b.sql")
interrupting _ = false

stopped : (migrate contents execute interrupting entries fresh).1.versions ≡ codes "a.sql" ∷ []
unfolding migrate migrate_each apply_migration starts_with strip_prefix bytes_discrete
stopped = refl

migrate-resumed_example :
    migrate contents execute no_faults entries
      (migrate contents execute interrupting entries fresh).1
    ≡ migrate contents execute no_faults entries fresh
migrate-resumed_example = migrate-resumed contents execute interrupting entries fresh

all_done : (migrate contents execute no_faults entries fresh).0 ≡ ok tt
unfolding migrate migrate_each apply_migration starts_with strip_prefix bytes_discrete
all_done = refl

migrate_complete_example :
    All (IsDone (migrate contents execute no_faults entries fresh).1.versions) entries
migrate_complete_example = migrate_complete contents execute no_faults entries fresh all_done

fresh-IsBuilt : IsBuilt contents execute [] fresh
fresh-IsBuilt = record { built = refl; once = λ n. omega arith }

migrate-IsBuilt_example :
    IsBuilt contents execute [] (migrate contents execute interrupting entries fresh).1
migrate-IsBuilt_example =
    migrate-IsBuilt contents execute interrupting [] entries fresh fresh-IsBuilt
