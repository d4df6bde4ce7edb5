-- ===== src/Auth/Sessions.antt =====
-- internal/auth/sessions.go. A time is a number of nanoseconds; the text of whole seconds,
-- "2006-01-02T15:04:05", is a parameter, as are its reading, SHA-256 and the clock. A session's
-- expiry is stored as text, and SQLite compares it byte by byte.
pub mod Expiry
pub mod Resolve
pub mod Lookup
pub mod Creation
pub mod Deletion
use agentless_monitoring.Common.{
  ℕ, zero, suc, ◌+◌, ◌*◌, ◌/◌, ◌%◌, ◌^◌, Bool, true, false, not, ◌&&◌, ◌||◌, List, [], ◌∷◌, ◌++◌,
  Option, none, some, Bytes, codes, Result, ok, err, ◌>>=◌, ◌>>◌, refuse_if, or_err, ltb, ◌==◌,
  if◌then◌else◌, length, keep, any, find, bytes_less,
}
use agentless_monitoring.Common.Base64.{raw_url_encode}
use agentless_monitoring.Common.Int.{ℤ, pos_part, below, above}
use agentless_monitoring.Net.{bytes_eq}
use agentless_monitoring.Storage.Tables.{Db, UserRow, SessionRow}
use agentless_monitoring.Auth.Users.{
  User, user_of, Error, invalid_session, invalid_duration, no_random, bad_expiry, failed_call,
  Faults, call, clean_sessions, insert_session, read_session, delete_session as delete_session_call,
  is_active_user, user_by_id,
}

abbrev pub second : ℕ
second = 10 ^ 9

abbrev pub session_duration : ℕ
session_duration = 12 * 3600 * second

abbrev pub maximum_session_ttl : ℕ
maximum_session_ttl = 30 * 24 * 3600 * second

abbrev pub maximum_token_bytes : ℕ
maximum_token_bytes = 256

pub record Session : Type 0 where
  pub user : User
  pub csrf_token : Bytes
  pub expires_at : ℕ

-- The digits of a fraction of 10 to the power of `k`, without the zeros at its end.
abbrev fraction : ℕ → ℕ → Bytes
fraction zero n = []
fraction (suc k) n =
    let rest = fraction k (n % 10 ^ k) in if n == 0 then [] else (48 + n / 10 ^ k) ∷ rest

abbrev nanoseconds : ℕ → Bytes
nanoseconds n = if n == 0 then [] else 46 ∷ fraction 9 n

abbrev same_token : Bytes → SessionRow → Bool
same_token hash s = bytes_eq s.token_hash hash

-- The unique indices on `token_hash` and `csrf_token`.
abbrev pub taken : Bytes → Bytes → List SessionRow → Bool
taken hash csrf rows = any (λ s. bytes_eq s.token_hash hash || bytes_eq s.csrf_token csrf) rows

-- The sessions that have not expired.
abbrev pub live : Bytes → List SessionRow → List SessionRow
live now rows = keep (λ s. bytes_less now s.expires_at) rows

-- SELECT … FROM sessions JOIN users
unfoldable pub resolve :
    Bytes → Bytes → List UserRow → List SessionRow → Option (SessionRow × UserRow)
resolve hash now users [] = none
resolve hash now users (s ∷ rows) =
    if bytes_eq s.token_hash hash && bytes_less now s.expires_at
    then elim (find (is_active_user s.user_id) users) [
      | some u ↦ some (s, u)
      | none ↦ resolve hash now users rows
    ]
    else resolve hash now users rows

-- randomToken, for the 32 bytes that rand.Read gives.
unfoldable pub random_token : Option Bytes → Result Error Bytes
random_token random = or_err random no_random >>= λ bytes. ok (raw_url_encode bytes)

-- CreateSession up to its statements: the user, and the two tokens.
unfoldable pub prepare_session :
    Faults → Option Bytes → Option Bytes → ℕ → ℤ → Db → Result Error (User × Bytes × Bytes)
unfolding random_token
prepare_session fails token_random csrf_random user_id ttl db =
    refuse_if (below ttl 1 || above ttl maximum_session_ttl) invalid_duration
    >> (user_by_id fails user_id db >>= λ user. random_token token_random >>= λ token.
        random_token csrf_random >>= λ csrf. ok (user, token, csrf))

abbrev pub is_no_token : Bytes → Bool
is_no_token token = length token == 0 || ltb maximum_token_bytes (length token)

module _ (format_seconds : ℕ → Bytes) where
  -- t.Format(time.RFC3339Nano), for a time in UTC.
  unfoldable pub format_time : ℕ → Bytes
  format_time t = format_seconds (t / second) ++ (nanoseconds (t % second) ++ codes "Z")

  module _ (sha256 : Bytes → Bytes) where
    abbrev pub new_session : ℕ → Bytes → Bytes → ℕ → SessionRow
    new_session user_id token csrf expires = record {
      user_id = user_id;
      token_hash = sha256 token;
      csrf_token = csrf;
      expires_at = format_time expires;
    }

    -- The two statements of CreateSession, which are no transaction.
    unfoldable pub store_session :
        Faults → ℕ → User → Bytes → Bytes → ℕ → ℕ → Db → Result Error (Bytes × Session) × Db
    store_session fails user_id user token csrf now expires db =
        let kept = live (format_time now) db.sessions in
        if fails clean_sessions
        then (err (failed_call clean_sessions), db)
        else if fails insert_session || taken (sha256 token) csrf kept
        then (err (failed_call insert_session), record db { sessions = kept })
        else (
          ok (token, record { user = user; csrf_token = csrf; expires_at = expires }),
          record db { sessions = kept ++ new_session user_id token csrf expires ∷ [] },
        )

    unfoldable pub create_session :
        Faults → Option Bytes → Option Bytes → ℕ → ℤ → ℕ → Db → Result Error (Bytes × Session) × Db
    unfolding prepare_session store_session
    create_session fails token_random csrf_random user_id ttl now db =
        elim (prepare_session fails token_random csrf_random user_id ttl db) [
          | err e ↦ (err e, db)
          | ok made ↦ store_session fails user_id made.0 made.1 made.2 now (now + pos_part ttl) db
        ]

    unfoldable pub delete_session : Faults → Bytes → Db → Result Error (Unit {0}) × Db
    delete_session fails token db =
        if is_no_token token
        then (ok tt, db)
        else if fails delete_session_call
        then (err (failed_call delete_session_call), db)
        else (
          ok tt,
          record db { sessions = keep (λ s. not (same_token (sha256 token) s)) db.sessions },
        )

    module _ (parse_time : Bytes → Option ℕ) where
      unfoldable pub session_by_token : Faults → Bytes → ℕ → Db → Result Error Session
      session_by_token fails token now db =
          refuse_if (is_no_token token) invalid_session
          >> call fails read_session
          >> (or_err (resolve (sha256 token) (format_time now) db.users db.sessions) invalid_session
              >>= λ r. or_err (parse_time (r.0).expires_at) bad_expiry >>= λ expires. ok (record {
                user = user_of r.1;
                csrf_token = (r.0).csrf_token;
                expires_at = expires;
              }))
