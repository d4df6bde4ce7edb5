-- ===== src/Auth/Users/Administrators.antt =====
-- The first account, and that there is only one.
use agentless_monitoring.Common.{
  ℕ, ◌+◌, ◌≤◌, ◌≡◌, ◌⊎◌, inl, inr, refl, ap, List, [], ◌∷◌, Option, Bytes, Result, ok, err, length,
  arith, Result-cases,
}
use agentless_monitoring.Storage.Tables.{Db}
use agentless_monitoring.Auth.Passwords.{PasswordParams}
use agentless_monitoring.Auth.Users.{
  User, Error, Faults, create_administrator, insert_administrator, prepare_administrator,
}

-- A call of CreateAdministrator: its faults, its arguments, and the tables that its first check saw.
pub record Request : Type 0 where
  pub fails : Faults
  pub params : PasswordParams
  pub random : Option Bytes
  pub username : Bytes
  pub secret : Bytes
  pub before : Db

abbrev pub accepted {ℓ} : {A : Type ℓ} → Result Error A → ℕ
accepted (ok a) = 1
accepted (err e) = 0

-- A refused setup leaves the users as they are, and an accepted one finds none and leaves one.
abbrev Outcome : Db → Result Error User × Db → Type 0
Outcome db r =
    ((r.1.users ≡ db.users) × (accepted r.0 ≡ 0))
    ⊎ ((db.users ≡ []) × (length r.1.users ≡ 1) × (accepted r.0 ≡ 1))

insert_administrator-Outcome :
    (fails : Faults) (username hash : Bytes) (db : Db)
    → Outcome db (insert_administrator fails username hash db)
unfolding insert_administrator
insert_administrator-Outcome fails username hash db = ground arith

Outcome-counts :
    (db : Db) (r : Result Error User × Db)
    → Outcome db r
    → length db.users ≤ 1
    → (length r.1.users ≤ 1) × (length r.1.users ≡ length db.users + accepted r.0)
Outcome-counts db r (inl (same, n)) h =
    let kept : length r.1.users ≡ length db.users = ap length same in
    (omega (arith, kept), omega (arith, kept, n))
Outcome-counts db r (inr (empty, one, n)) h =
    let none_yet : length db.users ≡ 0 = ap length empty in
    (omega (arith, one), omega (arith, one, n, none_yet))

module _ (id_key : Bytes → Bytes → ℕ → ℕ → ℕ → ℕ → Bytes) (version : ℕ) where
  abbrev pub answer : Request → Db → Result Error User × Db
  answer r db =
      create_administrator id_key version r.fails r.params r.random r.username r.secret r.before db

  -- Calls whose transactions run one after the other, and how many of them were accepted.
  abbrev pub answer_all : List Request → Db → ℕ × Db
  answer_all [] db = (0, db)
  answer_all (r ∷ rs) db =
      let (result, after) = answer r db in
      let (count, last) = answer_all rs after in (accepted result + count, last)

  answer-Outcome : (r : Request) (db : Db) → Outcome db (answer r db)
  unfolding create_administrator
  answer-Outcome r db =
      elim (Result-cases (
        prepare_administrator id_key version r.fails r.params r.random r.username r.secret
          r.before)) [
            | inl (e, h) ↦ rw (h, create_administrator) (inl (refl, refl))
            | inr (made, h) ↦
                rw (h, create_administrator) (insert_administrator-Outcome r.fails made.0 made.1 db)
          ]

  counts :
      (rs : List Request) (db : Db)
      → length db.users ≤ 1
      → (length (answer_all rs db).1.users ≤ 1)
        × (length (answer_all rs db).1.users ≡ length db.users + (answer_all rs db).0)
  counts [] db h = (h, omega arith)
  counts (r ∷ rs) db h =
      let (le, n) = Outcome-counts db (answer r db) (answer-Outcome r db) h in
      let (last_le, last_n) = counts rs (answer r db).1 le in (last_le, omega (arith, n, last_n))

  -- However many setups are sent, whatever the tables were when each one looked whether there is an
  -- account, and whatever fails: if there is no user at the beginning, at most one setup is accepted,
  -- and there are as many users at the end as setups were accepted.
  pub one_administrator :
      (rs : List Request) (db : Db)
      → db.users ≡ []
      → ((answer_all rs db).0 ≤ 1) × (length (answer_all rs db).1.users ≡ (answer_all rs db).0)
  one_administrator rs db h =
      let none_yet : length db.users ≡ 0 = ap length h in
      let (le, n) = counts rs db (omega (arith, none_yet)) in
      (omega (arith, le, n, none_yet), omega (arith, n, none_yet))
