-- ===== src/Auth/Sessions/Lookup.antt =====
-- What it takes for a token to be accepted.
use agentless_monitoring.Common.{
  All-Elem, bytes_less, ℕ, ◌/◌, ◌≤◌, ◌≡◌, inl, inr, refl, subst, true, Option, none, some, Bytes,
  Result, ok, ◌>>=◌, or_err, All, arith, Option-cases,
}
use agentless_monitoring.Storage.Tables.{Db, UserRow, SessionRow}
use agentless_monitoring.Auth.Users.{user_of, Error, invalid_session, bad_expiry, Faults}
use agentless_monitoring.Auth.Sessions.{second, Session, resolve, format_time, session_by_token}
use agentless_monitoring.Auth.Sessions.Expiry.{last_second, IsClockFormat, later_second}
use agentless_monitoring.Auth.Sessions.Resolve.{IsResolved, resolve-IsResolved}

-- What session_by_token makes of what the join finds.
unfoldable pub session_of :
    (Bytes → Option ℕ) → Option (SessionRow × UserRow) → Result Error Session
session_of parse_time found = or_err found invalid_session >>= λ r.
    or_err (parse_time (r.0).expires_at) bad_expiry >>= λ expires.
    ok (record { user = user_of r.1; csrf_token = (r.0).csrf_token; expires_at = expires })

module _ (format_seconds : ℕ → Bytes) (sha256 : Bytes → Bytes) (parse_time : Bytes → Option ℕ) where
  -- The session that a token names: a row with the hash of the token, and its user.
  pub record IsHeld (token : Bytes) (now : ℕ) (db : Db) (session : Session) : Type 0 where
    pub row : SessionRow
    pub owner : UserRow
    pub resolved :
        IsResolved (sha256 token) (format_time format_seconds now) db.users db.sessions (row, owner)
    pub user : session.user ≡ user_of owner
    pub csrf_token : session.csrf_token ≡ row.csrf_token
    pub expires_at : parse_time row.expires_at ≡ some session.expires_at

  pub session_by_token-session_of :
      (fails : Faults) (token : Bytes) (now : ℕ) (db : Db) (session : Session)
      → session_by_token format_seconds sha256 parse_time fails token now db ≡ ok session
      → session_of parse_time
          (resolve (sha256 token) (format_time format_seconds now) db.users db.sessions)
        ≡ ok session
  unfolding session_by_token session_of
  session_by_token-session_of fails token now db session h = ground arith

  pub session_of-ok :
      (found : Option (SessionRow × UserRow)) (session : Session)
      → session_of parse_time found ≡ ok session
      → (r : SessionRow × UserRow) × (found ≡ some r)
        × (session.user ≡ user_of r.1)
        × (session.csrf_token ≡ (r.0).csrf_token)
        × (parse_time (r.0).expires_at ≡ some session.expires_at)
  unfolding session_of
  session_of-ok none session h = absurd (ground arith)
  session_of-ok (some r) session h = elim (Option-cases (parse_time (r.0).expires_at)) [
    | inl e ↦ absurd (ground arith)
    | inr (t, e) ↦ (r, refl, ground arith, ground arith, ground arith)
  ]

  -- The program has written the expiry of every session in the table.
  abbrev pub IsWritten : SessionRow → Type 0
  IsWritten s = (t : ℕ) × (s.expires_at ≡ format_time format_seconds t)

  -- A token is accepted only for a session that is in the table under the hash of this token and
  -- whose user is active; the session returned has this user, and the row's CSRF token and expiry;
  -- and the time is not in a later second than the expiry, if the program has written the expiries
  -- in the table.
  pub session_by_token-IsHeld :
      IsClockFormat format_seconds
      → (fails : Faults) (token : Bytes) (now : ℕ) (db : Db) (session : Session)
      → now / second ≤ last_second
      → All IsWritten db.sessions
      → session_by_token format_seconds sha256 parse_time fails token now db ≡ ok session
      → (held : IsHeld token now db session) × (expires : ℕ) × ((held.row).expires_at
          ≡ format_time format_seconds expires)
        × (now / second ≤ expires / second)
  session_by_token-IsHeld clock fails token now db session last written h =
      let (r, found, user, csrf, expiry) =
        session_of-ok _ session (session_by_token-session_of fails token now db session h) in
      let resolved = resolve-IsResolved _ _ _ _ r found in
      let (expires, e) = All-Elem IsWritten db.sessions r.0 written resolved.row in
      (
        record {
          row = r.0;
          owner = r.1;
          resolved = resolved;
          user = user;
          csrf_token = csrf;
          expires_at = expiry;
        },
        expires,
        e,
        later_second format_seconds clock now expires last (
            subst (λ t. bytes_less (format_time format_seconds now) t ≡ true) e resolved.unexpired),
      )
