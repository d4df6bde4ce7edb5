-- ===== src/Auth/Users/FirstLogin.antt =====
-- From the setup to the first login.
use agentless_monitoring.Common.{
  ℕ, ◌≡◌, ◌<◌, refl, ap, ◌∙◌, true, false, [], ◌∷◌, some, Bytes, trim_space, ok, ltb, length, find,
  arith, All,
}
use agentless_monitoring.Common.Base64.{IsByte}
use agentless_monitoring.Net.{bytes_eq_refl}
use agentless_monitoring.Storage.Tables.{Db, UserRow, nocase_eq}
use agentless_monitoring.Auth.Passwords.{
  PasswordParams, validate_new_password, hash_password, verify_password, maximum_password_bytes,
}
use agentless_monitoring.Auth.Passwords.RoundTrip.{
  IsAllowed, HasKeyLength, verify_password-hash_password,
}
use agentless_monitoring.Auth.Users.{
  User, Faults, matches_username, initialized, new_user, user_of, is_active_named, record_success,
  accept_login, check_password, authenticate, prepare_administrator, insert_administrator,
  create_administrator,
}

abbrev pub no_faults : Faults
no_faults site = false

nocase_eq_refl : (a : Bytes) → nocase_eq a a ≡ true
nocase_eq_refl a = ground arith

validate-short :
    (secret : Bytes)
    → validate_new_password secret ≡ ok tt
    → ltb maximum_password_bytes (length secret) ≡ false
unfolding validate_new_password
validate-short secret h = ground arith

module _ (id_key : Bytes → Bytes → ℕ → ℕ → ℕ → ℕ → Bytes) (version : ℕ) (params : PasswordParams)
    (salt username secret : Bytes) where
  verify-hash :
      HasKeyLength id_key
      → 0 < version
      → version < 256
      → IsAllowed params
      → length salt ≡ params.salt_len
      → All IsByte salt
      → (h : Bytes) × (hash_password id_key version (some salt) secret params ≡ ok h)
        × (verify_password id_key version secret h ≡ ok true)
  unfolding hash_password
  verify-hash keys v w allowed n bytes = (
    _,
    refl,
    verify_password-hash_password id_key version salt secret secret params keys v w allowed n bytes
        ∙ ap ok (bytes_eq_refl _),
  )

  prepare-ok :
      (h : Bytes) (before : Db)
      → hash_password id_key version (some salt) secret params ≡ ok h
      → matches_username (trim_space username) ≡ true
      → validate_new_password secret ≡ ok tt
      → before.users ≡ []
      → prepare_administrator id_key version no_faults params (some salt) username secret before
        ≡ ok (trim_space username, h)
  unfolding prepare_administrator initialized
  prepare-ok h before made m valid b = ground arith

  insert-ok :
      (h : Bytes) (db : Db)
      → db.users ≡ []
      → let r = insert_administrator no_faults (trim_space username) h db in
        let u = new_user (trim_space username) h db in (r.0 ≡ ok (user_of u)) × (r.1.users ≡ u ∷ [])
  unfolding insert_administrator
  insert-ok h db d = ground arith

  create-ok :
      (h : Bytes) (before db : Db)
      → hash_password id_key version (some salt) secret params ≡ ok h
      → matches_username (trim_space username) ≡ true
      → validate_new_password secret ≡ ok tt
      → before.users ≡ []
      → db.users ≡ []
      → let r =
          create_administrator id_key version no_faults params
            (some salt)
            username
            secret
            before
            db in
        let u = new_user (trim_space username) h db in (r.0 ≡ ok (user_of u)) × (r.1.users ≡ u ∷ [])
  unfolding create_administrator
  create-ok h before db made m valid b d =
      rw (prepare-ok h before made m valid b, create_administrator) (insert-ok h db d)

  is_named :
      (u : UserRow)
      → u.username ≡ trim_space username
      → u.active ≡ true
      → is_active_named (trim_space username) u ≡ true
  is_named u name active = rw (name, active, nocase_eq_refl (trim_space username)) refl

  login-ok :
      (u : UserRow) (source_ip : Bytes) (db : Db)
      → db.users ≡ u ∷ []
      → u.username ≡ trim_space username
      → u.active ≡ true
      → matches_username (trim_space username) ≡ true
      → ltb maximum_password_bytes (length secret) ≡ false
      → verify_password id_key version secret u.password_hash ≡ ok true
      → (authenticate id_key version no_faults username secret source_ip db).0 ≡ ok (user_of u)
  unfolding authenticate check_password accept_login record_success
  login-ok u source_ip db one name active m short v =
      let found : find (is_active_named (trim_space username)) db.users ≡ some u =
        ap (find (is_active_named (trim_space username))) one
        ∙ ground (arith, is_named u name active) in
      rw (m, short, found, v, authenticate, check_password) refl

  -- A setup on tables without users, with a good name and a good password and no fault, is accepted,
  -- and whoever then gives that name and that password is let in as that user, from wherever they
  -- come and whatever else has changed in the tables. argon2 gives keys of the length it is asked
  -- for, its version is a byte that is not zero, the parameters are within the limits, and the salt
  -- has the length that they say.
  pub authenticate-create_administrator :
      (source_ip : Bytes) (before db later : Db)
      → HasKeyLength id_key
      → 0 < version
      → version < 256
      → IsAllowed params
      → length salt ≡ params.salt_len
      → All IsByte salt
      → matches_username (trim_space username) ≡ true
      → validate_new_password secret ≡ ok tt
      → before.users ≡ []
      → db.users ≡ []
      → later.users
        ≡ (create_administrator id_key version no_faults params
            (some salt)
            username
            secret
            before
            db).1.users
      → (who : User) × ((create_administrator id_key version no_faults params
            (some salt)
            username
            secret
            before
            db).0
          ≡ ok who)
        × (who.username ≡ trim_space username)
        × ((authenticate id_key version no_faults username secret source_ip later).0 ≡ ok who)
  authenticate-create_administrator source_ip before db later keys v w allowed n bytes m valid b d
        l =
      let (h, made, verified) = verify-hash keys v w allowed n bytes in
      let (created, users) = create-ok h before db made m valid b d in
      (
        user_of (new_user (trim_space username) h db),
        created,
        refl,
        login-ok (new_user (trim_space username) h db) source_ip later (l ∙ users) refl refl m
            (validate-short secret valid) verified,
      )
