-- ===== src/Auth/Sessions/Deletion.antt =====
-- A session that was deleted is found no more.
use agentless_monitoring.Common.{
  err≢ok, ℕ, ◌≡◌, ◌≢◌, ◌⊎◌, inl, inr, refl, ap, sym, ◌∙◌, subst, true, false, not, List, [], ◌∷◌,
  Option, none, Bytes, ok, ◌>>◌, refuse_if, keep, any, arith, Bool-cases,
}
use agentless_monitoring.Net.{bytes_eq}
use agentless_monitoring.Storage.Tables.{Db, SessionRow}
use agentless_monitoring.Auth.Users.{
  invalid_session, Faults, delete_session as delete_session_call, read_session, call,
}
use agentless_monitoring.Auth.Sessions.{
  Session, format_time, session_by_token, delete_session, is_no_token,
}
use agentless_monitoring.Auth.Sessions.Resolve.{resolve-other, resolve-keep}
use agentless_monitoring.Auth.Sessions.Lookup.{session_of, session_by_token-session_of}

any-removed :
    (hash : Bytes) (rows : List SessionRow)
    → any
        (λ (s : SessionRow). bytes_eq s.token_hash hash)
        (keep (λ (s : SessionRow). not (bytes_eq s.token_hash hash)) rows)
      ≡ false
any-removed hash [] = refl
any-removed hash (s ∷ rows) = ground (arith, any-removed hash rows)

module _ (format_seconds : ℕ → Bytes) (sha256 : Bytes → Bytes) (parse_time : Bytes → Option ℕ) where
  delete_session-db :
      (fails : Faults) (token : Bytes) (db : Db)
      → (delete_session format_seconds sha256 fails token db).0 ≡ ok tt
      → ((is_no_token token ≡ true)
          × ((delete_session format_seconds sha256 fails token db).1 ≡ db))
        ⊎ ((is_no_token token ≡ false)
            × ((delete_session format_seconds sha256 fails token db).1 ≡ record db {
              sessions =
                  keep (λ (s : SessionRow). not (bytes_eq s.token_hash (sha256 token))) db.sessions;
            }))
  unfolding delete_session
  delete_session-db fails token db h = elim (Bool-cases (is_no_token token)) [
    | inl e ↦ inl (e, rw (e, delete_session) refl)
    | inr e ↦ elim (Bool-cases (fails delete_session_call)) [
      | inl f ↦ absurd (ground arith)
      | inr f ↦ inr (e, rw (e, f, delete_session) refl)
    ]
  ]

  session_by_token-no_token :
      (fails : Faults) (token : Bytes) (now : ℕ) (db : Db) (session : Session)
      → is_no_token token ≡ true
      → session_by_token format_seconds sha256 parse_time fails token now db ≢ ok session
  unfolding session_by_token
  session_by_token-no_token fails token now db session t h = ground arith

  abbrev without : Bytes → Db → Db
  without token db = record db {
    sessions = keep (λ (s : SessionRow). not (bytes_eq s.token_hash (sha256 token))) db.sessions;
  }

  session_of-none : (session : Session) → session_of parse_time none ≢ ok session
  unfolding session_of
  session_of-none session h = err≢ok h

  session_by_token-gone :
      (fails : Faults) (token : Bytes) (now : ℕ) (db : Db) (session : Session)
      → session_by_token format_seconds sha256 parse_time fails token now (without token db)
        ≢ ok session
  session_by_token-gone fails token now db session h =
      let nothing =
        resolve-other (sha256 token) (format_time format_seconds now) db.users
          (without token db).sessions (any-removed (sha256 token) db.sessions) in
      session_of-none session (
        sym (ap (session_of parse_time) nothing)
        ∙ session_by_token-session_of format_seconds sha256 parse_time fails token now
            (without token db) session h)

  session_by_token-same :
      (fails : Faults) (token other : Bytes) (now : ℕ) (db : Db)
      → bytes_eq (sha256 other) (sha256 token) ≡ false
      → session_by_token format_seconds sha256 parse_time fails other now (without token db)
        ≡ session_by_token format_seconds sha256 parse_time fails other now db
  unfolding session_by_token session_of
  session_by_token-same fails token other now db ne =
      ap
        (λ found.
          refuse_if (is_no_token other) invalid_session
          >> call fails read_session
          >> session_of parse_time found)
        (resolve-keep (sha256 token) (sha256 other) (format_time format_seconds now) db.users
          db.sessions ne)

  -- Once a session is deleted, its token is refused, whenever it is sent and whatever fails then.
  pub delete_session-gone :
      (fails later : Faults) (token : Bytes) (now : ℕ) (db : Db) (session : Session)
      → (delete_session format_seconds sha256 fails token db).0 ≡ ok tt
      → session_by_token format_seconds sha256 parse_time later token now
          (delete_session format_seconds sha256 fails token db).1
        ≢ ok session
  delete_session-gone fails later token now db session h e =
      elim (delete_session-db fails token db h) [
        | inl (no_token, same) ↦ session_by_token-no_token later token now _ session no_token e
        | inr (a_token, after) ↦ session_by_token-gone later token now db session (
            subst
              (λ x.
                session_by_token format_seconds sha256 parse_time later token now x ≡ ok session)
              after e)
      ]

  -- What is answered to a token with another hash stays the same.
  pub delete_session-other :
      (fails later : Faults) (token other : Bytes) (now : ℕ) (db : Db)
      → bytes_eq (sha256 other) (sha256 token) ≡ false
      → (delete_session format_seconds sha256 fails token db).0 ≡ ok tt
      → session_by_token format_seconds sha256 parse_time later other now
          (delete_session format_seconds sha256 fails token db).1
        ≡ session_by_token format_seconds sha256 parse_time later other now db
  delete_session-other fails later token other now db ne h =
      elim (delete_session-db fails token db h) [
        | inl (no_token, same) ↦
            ap (session_by_token format_seconds sha256 parse_time later other now) same
        | inr (a_token, after) ↦
            ap (session_by_token format_seconds sha256 parse_time later other now) after
            ∙ session_by_token-same later token other now db ne
      ]
