-- ===== src/Auth/Tests.antt =====
-- Passwords, users and sessions on concrete data: a key derivation that fills the password up with
-- zeros, a hash that is the identity, and a text of a second that is its number.
use agentless_monitoring.Common.{
  ℕ, zero, suc, ◌+◌, ◌*◌, ◌/◌, ◌%◌, ◌≤◌, ◌≡◌, ◌≢◌, refl, [], ◌∷◌, Bytes, arith, true, false, Option,
  some, codes, ok, ◌>>=◌, length, All, trim_space, bytes_discrete, split, starts_with, strip_prefix,
}
use agentless_monitoring.Common.Base64.{IsByte, raw_url_encode, raw_std_decode}
use agentless_monitoring.Common.Int.{pos}
use agentless_monitoring.Common.Utf8.{valid_utf8, rune_count}
use agentless_monitoring.Net.{bytes_eq}
use agentless_monitoring.Storage.Tables.{Db, empty_db, UserRow}
use agentless_monitoring.Auth.Passwords.{
  production_password_params, hash_password, verify_password, validate_new_password,
  parse_parameters, parse_uint_parameter, decode_field,
}
use agentless_monitoring.Auth.Passwords.RoundTrip.{
  IsAllowed, HasKeyLength, verify_password-hash_password,
}
use agentless_monitoring.Auth.Users.{
  User, Faults, user_of, matches_username, create_administrator, authenticate, with_login,
  check_password, accept_login, record_success, user_by_id,
}
use agentless_monitoring.Auth.Users.Administrators.{Request, answer_all, one_administrator}
use agentless_monitoring.Auth.Users.Logins.{IsKnown, authenticate-IsKnown}
use agentless_monitoring.Auth.Users.Audit.{IsBounded, authenticate-IsBounded}
use agentless_monitoring.Auth.Users.FirstLogin.{authenticate-create_administrator}
use agentless_monitoring.Auth.Sessions.{
  Session, second, format_time, new_session, create_session, session_by_token, delete_session,
  resolve, random_token, prepare_session, store_session,
}
use agentless_monitoring.Auth.Sessions.Expiry.{IsClockFormat}
use agentless_monitoring.Auth.Sessions.Lookup.{IsHeld, session_by_token-IsHeld}
use agentless_monitoring.Auth.Sessions.Creation.{session_by_token-create_session}
use agentless_monitoring.Auth.Sessions.Deletion.{delete_session-gone}

abbrev pub no_faults : Faults
no_faults site = false

-- The first `n` bytes of a text, with zeros after its end.
abbrev pub fill : ℕ → Bytes → Bytes
fill zero s = []
fill (suc n) [] = 0 ∷ fill n []
fill (suc n) (c ∷ s) = c % 256 ∷ fill n s

abbrev pub id_key : Bytes → Bytes → ℕ → ℕ → ℕ → ℕ → Bytes
id_key password salt time memory threads n = fill n password

fill-length : (n : ℕ) (s : Bytes) → (length (fill n s) ≡ n) × All IsByte (fill n s)
fill-length zero s = (refl, tt)
fill-length (suc n) [] = let (l, b) = fill-length n [] in (omega (arith, l), (omega arith, b))
fill-length (suc n) (c ∷ s) = let (l, b) = fill-length n s in (omega (arith, l), (omega arith, b))

id_key-HasKeyLength : HasKeyLength id_key
id_key-HasKeyLength password salt time memory threads n = fill-length n password

abbrev pub secret : Bytes
secret = codes "correct horse"

abbrev other_secret : Bytes
other_secret = codes "battery staple"

abbrev pub salt : Bytes
salt = codes "sixteen bytes ok"

salt-bytes : All IsByte salt
salt-bytes = ground arith

params-IsAllowed : IsAllowed production_password_params
params-IsAllowed = record {
  memory = (omega arith, omega arith);
  time = (omega arith, omega arith);
  threads = (omega arith, omega arith);
  salt_len = (omega arith, omega arith);
  key_len = (omega arith, omega arith);
}

verify_password-hash_password_example :
    (hash_password id_key 19 (some salt) secret production_password_params
      >>= verify_password id_key 19 other_secret)
    ≡ ok (bytes_eq (fill 32 other_secret) (fill 32 secret))
verify_password-hash_password_example =
    verify_password-hash_password id_key 19 salt secret other_secret production_password_params
      id_key-HasKeyLength (omega arith) (omega arith) params-IsAllowed refl salt-bytes

abbrev pub admin : Bytes
admin = codes " admin "

abbrev setup : Request
setup = record {
  fails = no_faults;
  params = production_password_params;
  random = some salt;
  username = admin;
  secret = secret;
  before = empty_db;
}

one_administrator_example :
    ((answer_all id_key 19 (setup ∷ setup ∷ []) empty_db).0 ≤ 1)
    × (length (answer_all id_key 19 (setup ∷ setup ∷ []) empty_db).1.users
        ≡ (answer_all id_key 19 (setup ∷ setup ∷ []) empty_db).0)
one_administrator_example = one_administrator id_key 19 (setup ∷ setup ∷ []) empty_db refl

abbrev set_up : Db
set_up =
    (create_administrator id_key 19 no_faults production_password_params (some salt) admin secret
      empty_db empty_db).1

admin-matches : matches_username (trim_space admin) ≡ true
unfolding matches_username trim_space
admin-matches = refl

secret-valid : validate_new_password secret ≡ ok tt
unfolding validate_new_password valid_utf8 rune_count
secret-valid = refl

authenticate-create_administrator_example :
    (who : User) × ((create_administrator id_key 19 no_faults production_password_params
        (some salt)
        admin
        secret
        empty_db
        empty_db).0
      ≡ ok who)
    × (who.username ≡ trim_space admin)
    × ((authenticate id_key 19 no_faults admin secret [] set_up).0 ≡ ok who)
authenticate-create_administrator_example =
    authenticate-create_administrator id_key 19 production_password_params salt admin secret []
      empty_db empty_db set_up id_key-HasKeyLength (omega arith) (omega arith) params-IsAllowed refl
      salt-bytes admin-matches secret-valid refl refl refl

abbrev pub stored : UserRow
stored = record {
  id = 1;
  username = codes "admin";
  password_hash =
      codes
        "$argon2id$v=19$m=65536,t=3,p=4$c2l4dGVlbiBieXRlcyBvaw$Y29ycmVjdCBob3JzZQAAAAAAAAAAAAAAAAAAAAAAAAA";
  role = codes "administrator";
  active = true;
}

abbrev pub tables : Db
tables = record empty_db { users = stored ∷ [] }

known : (authenticate id_key 19 no_faults admin secret [] tables).0 ≡ ok (user_of stored)
unfolding authenticate check_password accept_login record_success matches_username trim_space
    verify_password parse_parameters parse_uint_parameter decode_field raw_std_decode split
    starts_with strip_prefix bytes_discrete
known = refl

authenticate-IsKnown_example :
    (u : UserRow) × IsKnown id_key 19 no_faults admin secret [] tables u
    × (user_of stored ≡ user_of u)
    × ((authenticate id_key 19 no_faults admin secret [] tables).1
        ≡ with_login (some u.id) [] (codes "success") tables)
authenticate-IsKnown_example =
    authenticate-IsKnown id_key 19 no_faults admin secret [] tables (user_of stored) known

authenticate-IsBounded_example :
    IsBounded (authenticate id_key 19 no_faults admin other_secret [] tables).1.audit_events
authenticate-IsBounded_example =
    authenticate-IsBounded id_key 19 no_faults admin other_secret [] tables
      (record { ascending = tt; bounded = omega arith })

abbrev pub sha256 : Bytes → Bytes
sha256 s = s

abbrev pub format_seconds : ℕ → Bytes
format_seconds n = n ∷ []

pub clock : IsClockFormat format_seconds
clock = record { increasing = λ a b h l. ground arith; uniform = λ a b h l. refl }

abbrev pub raw : Bytes
raw = codes "0123456789abcdef0123456789abcdef"

abbrev pub raw_csrf : Bytes
raw_csrf = codes "fedcba9876543210fedcba9876543210"

abbrev token : Bytes
token = raw_url_encode raw

abbrev csrf : Bytes
csrf = raw_url_encode raw_csrf

abbrev pub start : ℕ
start = 1000 * second

abbrev hour : ℕ
hour = 3600 * second

-- The one time that the tests read.
abbrev parse_time : Bytes → Option ℕ
parse_time s = some (start + hour)

abbrev opened : Session
opened = record { user = user_of stored; csrf_token = csrf; expires_at = start + hour }

created :
    (create_session format_seconds sha256 no_faults
      (some raw)
      (some raw_csrf)
      1
      (pos hour)
      start
      tables).0
    ≡ ok (token, opened)
unfolding create_session prepare_session store_session user_by_id random_token
created = refl

session_by_token-create_session_example :
    session_by_token format_seconds sha256 parse_time no_faults token
      (2000 * second)
      (create_session format_seconds sha256 no_faults
        (some raw)
        (some raw_csrf)
        1
        (pos hour)
        start
        tables).1
    ≡ ok opened
session_by_token-create_session_example =
    session_by_token-create_session format_seconds sha256 parse_time clock no_faults raw
      (some raw_csrf) 1 (pos hour) start (2000 * second) tables token opened refl created
      (omega arith) (omega arith) refl

abbrev with_session : Db
with_session = record tables {
  sessions = new_session format_seconds sha256 1 token csrf (start + hour) ∷ [];
}

looked_up :
    session_by_token format_seconds sha256 parse_time no_faults token start with_session ≡ ok opened
unfolding session_by_token resolve bytes_discrete format_time raw_url_encode
looked_up = refl

session_by_token-IsHeld_example :
    (held : IsHeld format_seconds sha256 parse_time token start with_session opened) × (expires : ℕ)
    × ((held.row).expires_at ≡ format_time format_seconds expires)
    × (start / second ≤ expires / second)
session_by_token-IsHeld_example =
    session_by_token-IsHeld format_seconds sha256 parse_time clock no_faults token start
      with_session opened (omega arith) ((start + hour, refl), tt) looked_up

deleted : (delete_session format_seconds sha256 no_faults token with_session).0 ≡ ok tt
unfolding delete_session raw_url_encode
deleted = refl

delete_session-gone_example :
    session_by_token format_seconds sha256 parse_time no_faults token start
      (delete_session format_seconds sha256 no_faults token with_session).1
    ≢ ok opened
delete_session-gone_example =
    delete_session-gone format_seconds sha256 parse_time no_faults no_faults token start
      with_session opened deleted
