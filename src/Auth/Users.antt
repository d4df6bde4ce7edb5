-- ===== src/Auth/Users.antt =====
-- internal/auth/store.go. Each method takes the tables and the test that says which of its calls
-- fail; the wait for a password slot is such a call, and it fails when the request's context ends.
-- The argon2 functions are parameters, and a salt is an argument, as in Auth.Passwords.
pub mod Administrators
pub mod Logins
pub mod Audit
pub mod FirstLogin
use agentless_monitoring.Common.{
  ℕ, zero, suc, ◌+◌, Bool, true, false, not, ◌&&◌, ◌||◌, List, [], ◌∷◌, ◌++◌, Option, none, some,
  Bytes, codes, itoa, trim_space, Result, ok, err, ◌>>=◌, ◌>>◌, refuse_if, or_err, ltb, leb, ◌==◌,
  if◌then◌else◌, length, keep, all, any, find,
}
use agentless_monitoring.Net.{bytes_eq}
use agentless_monitoring.Storage.Tables.{Db, UserRow, AuditRow, next_id, insert_audit, nocase_eq}
use agentless_monitoring.Storage.Transaction.{transact}
use agentless_monitoring.Auth.Passwords.{
  PasswordParams, PasswordError, validate_new_password, hash_password, verify_password,
  maximum_password_bytes,
}

abbrev pub administrator_role : Bytes
administrator_role = codes "administrator"

abbrev pub maximum_failed_login_audit_events : ℕ
maximum_failed_login_audit_events = 10000

pub record User : Type 0 where
  pub id : ℕ
  pub username : Bytes
  pub role : Bytes

-- The calls that may fail: the database's, and the wait for a password slot.
pub data Site : Type 0 where
  check_setup wait_slot begin_setup check_setup_again insert_user commit_setup : Site
  read_credentials begin_login prune_login commit_login insert_audit_event : Site
  read_user clean_sessions insert_session read_session delete_session : Site

pub data Error : Type 0 where
  already_initialized invalid_credentials invalid_username invalid_session no_user : Error
  invalid_duration no_random bad_expiry : Error
  password : PasswordError → Error
  failed_call : Site → Error

abbrev pub Faults : Type 0
Faults = Site → Bool

abbrev pub call : Faults → Site → Result Error (Unit {0})
call fails site = refuse_if (fails site) (failed_call site)

abbrev pub or_password {ℓ} : {A : Type ℓ} → Result PasswordError A → Result Error A
or_password (ok a) = ok a
or_password (err e) = err (password e)

abbrev is_alphanumeric : ℕ → Bool
is_alphanumeric c = leb 48 c && leb c 57 || leb 65 c && leb c 90 || leb 97 c && leb c 122

abbrev is_name_byte : ℕ → Bool
is_name_byte c = is_alphanumeric c || c == 46 || c == 95 || c == 45

-- usernamePattern.MatchString: `^[A-Za-z0-9][A-Za-z0-9._-]{2,63}$`
unfoldable pub matches_username : Bytes → Bool
matches_username [] = false
matches_username (c ∷ s) =
    is_alphanumeric c && all is_name_byte s && leb 2 (length s) && leb (length s) 63

abbrev has_rows : List UserRow → Bool
has_rows [] = false
has_rows (u ∷ us) = true

unfoldable pub initialized : Faults → Db → Result Error Bool
initialized fails db = call fails check_setup >> ok (has_rows db.users)

abbrev pub user_of : UserRow → User
user_of u = record { id = u.id; username = u.username; role = u.role }

abbrev pub new_user : Bytes → Bytes → Db → UserRow
new_user username hash db = record {
  id = next_id (λ r. r.id) db.users;
  username = username;
  password_hash = hash;
  role = administrator_role;
  active = true;
}

-- The transaction of CreateAdministrator.
unfoldable pub insert_administrator : Faults → Bytes → Bytes → Db → Result Error User × Db
insert_administrator fails username hash db =
    let u = new_user username hash db in
    transact db (
      call fails begin_setup
      >> call fails check_setup_again
      >> refuse_if (has_rows db.users) already_initialized
      >> call fails insert_user
      >> call fails insert_audit_event
      >> call fails commit_setup
      >> ok (
        user_of u,
        insert_audit (some u.id) (codes "user.created") (some (codes "user")) (some (itoa u.id))
            (codes "success") none (record db { users = db.users ++ u ∷ [] }),
      ))

abbrev pub is_failed_login : AuditRow → Bool
is_failed_login r = bytes_eq r.action (codes "user.login") && bytes_eq r.outcome (codes "failure")

-- The failed logins that are newer than a row.
abbrev pub newer : AuditRow → List AuditRow → ℕ
newer r rows = length (keep (λ (s : AuditRow). is_failed_login s && ltb r.id s.id) rows)

-- DELETE FROM audit_events, for the failed logins after the newest ones.
unfoldable pub prune_failed_logins : ℕ → List AuditRow → List AuditRow
prune_failed_logins limit rows =
    keep (λ r. not (is_failed_login r) || ltb (newer r rows) limit) rows

abbrev pub null_if_empty : Bytes → Option Bytes
null_if_empty [] = none
null_if_empty (c ∷ s) = some (c ∷ s)

abbrev pub with_login : Option ℕ → Bytes → Bytes → Db → Db
with_login user_id source_ip outcome db =
    insert_audit user_id (codes "user.login") none none outcome (null_if_empty source_ip) db

-- recordLogin for the outcome "success", and for the outcome "failure".
unfoldable pub record_success : Faults → Option ℕ → Bytes → Db → Result Error (Unit {0}) × Db
record_success fails user_id source_ip db = transact db (
    call fails begin_login
    >> call fails insert_audit_event
    >> call fails commit_login
    >> ok (tt, with_login user_id source_ip (codes "success") db))

unfoldable pub record_failure : Faults → Option ℕ → Bytes → Db → Result Error (Unit {0}) × Db
unfolding prune_failed_logins
record_failure fails user_id source_ip db =
    let noted = with_login user_id source_ip (codes "failure") db in
    transact db (
      call fails begin_login
      >> call fails insert_audit_event
      >> call fails prune_login
      >> call fails commit_login
      >> ok (
        tt,
        record noted {
          audit_events = prune_failed_logins maximum_failed_login_audit_events noted.audit_events;
        },
      ))

-- What a refused login returns, once its record is written or has failed.
unfoldable pub refuse_login : Faults → Option ℕ → Bytes → Db → Result Error User × Db
unfolding record_failure
refuse_login fails user_id source_ip db =
    let (noted, after) = record_failure fails user_id source_ip db in
    (noted >> err invalid_credentials, after)

unfoldable pub accept_login : Faults → UserRow → Bytes → Db → Result Error User × Db
unfolding record_success
accept_login fails u source_ip db =
    let (noted, after) = record_success fails (some u.id) source_ip db in
    (noted >> ok (user_of u), after)

-- A refusal without a password to compare waits for a slot and computes a hash all the same.
unfoldable pub burn_and_refuse : Faults → Bytes → Db → Result Error User × Db
unfolding refuse_login
burn_and_refuse fails source_ip db =
    if fails wait_slot
    then (err (failed_call wait_slot), db)
    else refuse_login fails none source_ip db

-- WHERE username = ? AND active = 1
abbrev pub is_active_named : Bytes → UserRow → Bool
is_active_named username u = nocase_eq u.username username && u.active

abbrev pub is_active_user : ℕ → UserRow → Bool
is_active_user id u = u.id == id && u.active

unfoldable pub user_by_id : Faults → ℕ → Db → Result Error User
user_by_id fails id db =
    call fails read_user
    >> (or_err (find (is_active_user id) db.users) no_user >>= λ u. ok (user_of u))

module _ (id_key : Bytes → Bytes → ℕ → ℕ → ℕ → ℕ → Bytes) (version : ℕ) where
  -- CreateAdministrator up to its transaction: the name and the hash that go into the table.
  unfoldable pub prepare_administrator :
      Faults → PasswordParams → Option Bytes → Bytes → Bytes → Db → Result Error (Bytes × Bytes)
  unfolding initialized
  prepare_administrator fails params random username secret db =
      let name = trim_space username in
      initialized fails db >>= λ done.
      refuse_if done already_initialized
      >> refuse_if (not (matches_username name)) invalid_username
      >> or_password (validate_new_password secret)
      >> call fails wait_slot
      >> (or_password (hash_password id_key version random secret params) >>= λ hash.
          ok (name, hash))

  -- CreateAdministrator. The tables when the transaction begins need not be those that the first
  -- check read: other requests may have come in between.
  unfoldable pub create_administrator :
      Faults → PasswordParams → Option Bytes → Bytes → Bytes → Db → Db → Result Error User × Db
  unfolding prepare_administrator insert_administrator
  create_administrator fails params random username secret before db =
      elim (prepare_administrator fails params random username secret before) [
        | err e ↦ (err e, db)
        | ok made ↦ insert_administrator fails made.0 made.1 db
      ]

  -- Authenticate, once the user is found.
  unfoldable pub check_password : Faults → UserRow → Bytes → Bytes → Db → Result Error User × Db
  unfolding refuse_login accept_login
  check_password fails u secret source_ip db =
      if fails wait_slot
      then (err (failed_call wait_slot), db)
      else elim (verify_password id_key version secret u.password_hash) [
        | err e ↦ (err (password e), db)
        | ok valid ↦ elim valid [
          | true ↦ accept_login fails u source_ip db
          | false ↦ refuse_login fails (some u.id) source_ip db
        ]
      ]

  unfoldable pub authenticate : Faults → Bytes → Bytes → Bytes → Db → Result Error User × Db
  unfolding burn_and_refuse check_password
  authenticate fails username secret source_ip db =
      let name = trim_space username in
      if not (matches_username name) || ltb maximum_password_bytes (length secret)
      then burn_and_refuse fails source_ip db
      else if fails read_credentials
      then (err (failed_call read_credentials), db)
      else elim (find (is_active_named name) db.users) [
        | none ↦ burn_and_refuse fails source_ip db
        | some u ↦ check_password fails u secret source_ip db
      ]
