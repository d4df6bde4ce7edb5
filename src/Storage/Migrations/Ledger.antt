-- ===== src/Storage/Migrations/Ledger.antt =====
-- The ledger of the migrations tells how the schema came about.
use agentless_monitoring.Common.{
  ℕ, ◌+◌, ◌≤◌, ◌≡◌, inl, inr, refl, subst, arith, false, List, [], ◌∷◌, ◌++◌, Option, none, some,
  Bytes, ok, Bool-cases, Option-cases, Result-cases, some_inj, length, keep,
}
use agentless_monitoring.Net.{bytes_eq}
use agentless_monitoring.Storage.Transaction.{transact-keeps}
use agentless_monitoring.Storage.Migrations.{
  Faults, Entry, Database, create_ledger, read_directory, is_skipped, is_applied, apply_body,
  apply_migration, migrate_each, migrate,
}

-- How often a version is in a ledger.
abbrev pub times : Bytes → List Bytes → ℕ
times n versions = length (keep (λ v. bytes_eq v n) versions)

times-append :
    (n m : Bytes) (vs : List Bytes) → times n (vs ++ m ∷ []) ≡ times n vs + times n (m ∷ [])
times-append n m [] = omega arith
times-append n m (v ∷ vs) =
    let rest = times-append n m vs in
    elim (Bool-cases (bytes_eq v n)) [ inl e ↦ rw (e) (omega (arith, rest)) | inr e ↦ rw (e) rest ]

times-new : (n : Bytes) (vs : List Bytes) → is_applied n vs ≡ false → times n vs ≡ 0
times-new n [] h = refl
times-new n (v ∷ vs) h = let rest = times-new n vs (ground arith) in ground arith

times-next :
    (n m : Bytes) (vs : List Bytes)
    → is_applied m vs ≡ false
    → times n vs ≤ 1
    → times n (vs ++ m ∷ []) ≤ 1
times-next n m vs new le = elim (Bool-cases (bytes_eq m n)) [
  | inl e ↦
      let same : m ≡ n = ground arith in
      let none_yet : times n vs ≡ 0 = subst (λ x. times x vs ≡ 0) same (times-new m vs new) in
      let one : times n (m ∷ []) ≡ 1 = rw (e) refl in
      omega (arith, times-append n m vs, none_yet, one)
  | inr e ↦
      let zero_more : times n (m ∷ []) ≡ 0 = rw (e) refl in
      omega (arith, times-append n m vs, zero_more, le)
]

module _ {Schema : Type 0} (contents : Bytes → Bytes)
    (execute : Bytes → Schema → Option Schema) where
  -- The schema after the migrations of these names, one after the other.
  abbrev pub replay : List Bytes → Schema → Option Schema
  replay [] s = some s
  replay (v ∷ vs) s = elim (execute (contents v) s) [ none ↦ none | some s' ↦ replay vs s' ]

  replay-append :
      (vs : List Bytes) (n : Bytes) (s t u : Schema)
      → replay vs s ≡ some t
      → execute (contents n) t ≡ some u
      → replay (vs ++ n ∷ []) s ≡ some u
  replay-append [] n s t u h e = let same : s ≡ t = some_inj h in rw (same, e) refl
  replay-append (v ∷ vs) n s t u h e = elim (Option-cases (execute (contents v) s)) [
    | inl f ↦ absurd (ground arith)
    | inr (s', f) ↦ let rest = replay-append vs n s' t u (ground arith) e in rw (f) rest
  ]

  pub record IsBuilt (start : Schema) (db : Database Schema) : Type 0 where
    pub built : replay db.versions start ≡ some db.schema
    pub once : (n : Bytes) → times n db.versions ≤ 1

  module _ (fails : Faults) (start : Schema) where
    apply_body-IsBuilt :
        (name : Bytes) (db : Database Schema) (r : Unit {0} × Database Schema)
        → IsBuilt start db
        → apply_body contents execute fails name db ≡ ok r
        → IsBuilt start r.1
    apply_body-IsBuilt name db r i h = elim (Bool-cases (is_applied name db.versions)) [
      | inl b ↦ let same : (tt, db) ≡ r = ground arith in subst (λ x. IsBuilt start x.1) same i
      | inr b ↦ elim (Option-cases (execute (contents name) db.schema)) [
        | inl e ↦ absurd (ground arith)
        | inr (schema, e) ↦
            let made : (tt, record { schema = schema; versions = db.versions ++ name ∷ [] }) ≡ r =
              ground arith in
            subst (λ x. IsBuilt start x.1) made
              (record {
                built = replay-append db.versions name start db.schema schema i.built e;
                once = λ n. times-next n name db.versions b (i.once n);
              })
      ]
    ]

    apply_migration-IsBuilt :
        (name : Bytes) (db : Database Schema)
        → IsBuilt start db
        → IsBuilt start (apply_migration contents execute fails name db).1
    unfolding apply_migration
    apply_migration-IsBuilt name db i =
        transact-keeps (IsBuilt start) db (apply_body contents execute fails name db) i
          (λ u after h. apply_body-IsBuilt name db (u, after) i h)

    migrate_each-IsBuilt :
        (es : List Entry) (db : Database Schema)
        → IsBuilt start db
        → IsBuilt start (migrate_each contents execute fails es db).1
    unfolding migrate_each
    migrate_each-IsBuilt [] db i = i
    migrate_each-IsBuilt (e ∷ es) db i = elim (Bool-cases (is_skipped e)) [
      | inl b ↦ let rest = migrate_each-IsBuilt es db i in rw (b) rest
      | inr b ↦
          let one = apply_migration-IsBuilt e.name db i in
          elim (Result-cases (apply_migration contents execute fails e.name db).0) [
            | inl (why, f) ↦ rw (b, f) one
            | inr (u, f) ↦
                let rest =
                  migrate_each-IsBuilt es (apply_migration contents execute fails e.name db).1
                    one in
                rw (b, f) rest
          ]
    ]

    -- Whichever call fails, a run of the migrations keeps this true: the schema is what the
    -- migrations in the ledger give, executed in the order of the ledger from the schema at the
    -- beginning, and no version is in the ledger twice.
    pub migrate-IsBuilt :
        (entries : List Entry) (db : Database Schema)
        → IsBuilt start db
        → IsBuilt start (migrate contents execute fails entries db).1
    unfolding migrate
    migrate-IsBuilt entries db i = elim (Bool-cases (fails create_ledger)) [
      | inl a ↦ rw (a) i
      | inr a ↦ elim (Bool-cases (fails read_directory)) [
        | inl b ↦ rw (a, b) i
        | inr b ↦ rw (a, b) (migrate_each-IsBuilt entries db i)
      ]
    ]
