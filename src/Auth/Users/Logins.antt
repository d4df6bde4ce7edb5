-- ===== src/Auth/Users/Logins.antt =====
-- How a login ends, and what it takes to be let in.
use agentless_monitoring.Common.{
  ℕ, ◌≡◌, ◌≢◌, inl, inr, refl, ap, sym, ◌∙◌, true, not, ◌||◌, Option, none, some, Bytes, codes,
  trim_space, Result, ok, err, ltb, length, find, arith, Bool-cases, Option-cases, Result-cases,
}
use agentless_monitoring.Storage.Tables.{Db, UserRow}
use agentless_monitoring.Auth.Passwords.{verify_password, maximum_password_bytes}
use agentless_monitoring.Auth.Users.{
  User, Error, Faults, password, failed_call, wait_slot, read_credentials, matches_username,
  user_of, with_login, is_active_named, record_success, record_failure, refuse_login, accept_login,
  burn_and_refuse, check_password, authenticate,
}

module _ (id_key : Bytes → Bytes → ℕ → ℕ → ℕ → ℕ → Bytes) (version : ℕ) (fails : Faults)
    (username secret source_ip : Bytes) (db : Db) where
  -- The active user of that name has that password.
  pub record IsKnown (u : UserRow) : Type 0 where
    pub name : matches_username (trim_space username) ≡ true
    pub found : find (is_active_named (trim_space username)) db.users ≡ some u
    pub verified : verify_password id_key version secret u.password_hash ≡ ok true

  -- The three ways in which a login ends.
  pub data Ending (r : Result Error User × Db) : Type 0 where
    broken : (e : Error) → r ≡ (err e, db) → Ending r
    refused : (user_id : Option ℕ) → r ≡ refuse_login fails user_id source_ip db → Ending r
    accepted : (u : UserRow) → IsKnown u → r ≡ accept_login fails u source_ip db → Ending r

  burn_and_refuse-Ending : Ending (burn_and_refuse fails source_ip db)
  unfolding burn_and_refuse
  burn_and_refuse-Ending = elim (Bool-cases (fails wait_slot)) [
    | inl e ↦ broken (failed_call wait_slot) (rw e refl)
    | inr e ↦ refused none (rw e refl)
  ]

  check_password-Ending :
      (u : UserRow)
      → matches_username (trim_space username) ≡ true
      → find (is_active_named (trim_space username)) db.users ≡ some u
      → Ending (check_password id_key version fails u secret source_ip db)
  unfolding check_password
  check_password-Ending u m f = elim (Bool-cases (fails wait_slot)) [
    | inl e ↦ broken (failed_call wait_slot) (rw e refl)
    | inr e ↦ elim (Result-cases (verify_password id_key version secret u.password_hash)) [
      | inl (why, v) ↦ broken (password why) (rw (e, v) refl)
      | inr (valid, v) ↦ elim (Bool-cases valid) [
        | inl yes_valid ↦
            accepted u (record { name = m; found = f; verified = v ∙ ap ok yes_valid })
              (rw (e, v, yes_valid) refl)
        | inr not_valid ↦ refused (some u.id) (rw (e, v, not_valid) refl)
      ]
    ]
  ]

  pub authenticate-Ending : Ending (authenticate id_key version fails username secret source_ip db)
  unfolding authenticate
  authenticate-Ending =
      elim (Bool-cases (
        not (matches_username (trim_space username))
        || ltb maximum_password_bytes (length secret))) [
          | inl e ↦ rw (e, authenticate) burn_and_refuse-Ending
          | inr e ↦ elim (Bool-cases (fails read_credentials)) [
            | inl r ↦ broken (failed_call read_credentials) (rw (e, r) refl)
            | inr r ↦ elim (Option-cases (find (is_active_named (trim_space username)) db.users)) [
              | inl o ↦ rw (e, r, o, authenticate) burn_and_refuse-Ending
              | inr (u, o) ↦ rw (e, r, o, authenticate) (check_password-Ending u (ground arith) o)
            ]
          ]
        ]

  accept_login-ok :
      (u : UserRow) (who : User)
      → (accept_login fails u source_ip db).0 ≡ ok who
      → (who ≡ user_of u)
        × ((accept_login fails u source_ip db).1
            ≡ with_login (some u.id) source_ip (codes "success") db)
  unfolding accept_login record_success
  accept_login-ok u who h = ground arith

  refuse_login-err :
      (user_id : Option ℕ) (who : User) → (refuse_login fails user_id source_ip db).0 ≢ ok who
  unfolding refuse_login record_failure
  refuse_login-err user_id who h = ground arith

  -- A login is accepted only for an active user of that name whose stored hash the password fits,
  -- and then it is this user that is returned, and the audit log has the success as its newest row,
  -- with the rest of the tables as they were.
  pub authenticate-IsKnown :
      (who : User)
      → (authenticate id_key version fails username secret source_ip db).0 ≡ ok who
      → (u : UserRow) × IsKnown u
        × (who ≡ user_of u)
        × ((authenticate id_key version fails username secret source_ip db).1
            ≡ with_login (some u.id) source_ip (codes "success") db)
  authenticate-IsKnown who h = elim authenticate-Ending [
    | broken e r ↦ absurd (cc)
    | refused user_id r ↦ absurd (refuse_login-err user_id who (sym (ap (λ x. x.0) r) ∙ h))
    | accepted u k r ↦
        let (same, after) = accept_login-ok u who (sym (ap (λ x. x.0) r) ∙ h) in
        (u, k, same, ap (λ x. x.1) r ∙ after)
  ]
