-- ===== src/Auth/Sessions/Creation.antt =====
-- A session that was created is found again.
use agentless_monitoring.Common.{
  ok_inj, err≢ok, some_inj, bytes_less, ℕ, ◌+◌, ◌/◌, ◌<◌, ◌≤◌, ◌≡◌, inl, inr, refl, ap, sym, ◌∙◌,
  subst, true, false, List, [], ◌∷◌, ◌++◌, Option, none, some, Bytes, ok, err, length, any, find,
  arith, Bool-cases, Option-cases, Result-cases,
}
use agentless_monitoring.Common.Int.{ℤ, pos_part}
use agentless_monitoring.Common.Base64.{raw_url_encode, length-raw_url_encode}
use agentless_monitoring.Net.{bytes_eq, bytes_eq_refl}
use agentless_monitoring.Storage.Tables.{Db, UserRow, SessionRow}
use agentless_monitoring.Auth.Users.{
  User, user_of, user_by_id, is_active_user, Faults, clean_sessions, insert_session,
}
use agentless_monitoring.Auth.Sessions.{
  second, Session, live, resolve, format_time, new_session, store_session, create_session,
  session_by_token, random_token, is_no_token, prepare_session, taken,
}
use agentless_monitoring.Auth.Sessions.Expiry.{last_second, IsClockFormat, format_time-increasing}
use agentless_monitoring.Auth.Sessions.Resolve.{resolve-new}

abbrev pub no_faults : Faults
no_faults site = false

taken-hash :
    (hash csrf : Bytes) (rows : List SessionRow)
    → taken hash csrf rows ≡ false
    → any (λ (s : SessionRow). bytes_eq s.token_hash hash) rows ≡ false
taken-hash hash csrf [] h = refl
taken-hash hash csrf (s ∷ rows) h = ground (arith, taken-hash hash csrf rows (ground arith))

module _ (format_seconds : ℕ → Bytes) (sha256 : Bytes → Bytes) (parse_time : Bytes → Option ℕ) where
  prepare_session-ok :
      (fails : Faults) (token_random csrf_random : Option Bytes) (user_id : ℕ) (ttl : ℤ) (db : Db)
      (made : User × Bytes × Bytes)
      → prepare_session fails token_random csrf_random user_id ttl db ≡ ok made
      → (owner : UserRow) × (raw : Bytes) × (find (is_active_user user_id) db.users ≡ some owner)
        × (token_random ≡ some raw)
        × (made.0 ≡ user_of owner)
        × (made.1 ≡ raw_url_encode raw)
  unfolding prepare_session user_by_id random_token
  prepare_session-ok fails none csrf_random user_id ttl db made h = absurd (ground arith)
  prepare_session-ok fails (some raw) none user_id ttl db made h = absurd (ground arith)
  prepare_session-ok fails (some raw) (some csrf) user_id ttl db made h =
      elim (Option-cases (find (is_active_user user_id) db.users)) [
        | inl o ↦ absurd (ground arith)
        | inr (owner, o) ↦ (owner, raw, o, refl, ground arith, ground arith)
      ]

  store_session-runs :
      (fails : Faults) (user_id : ℕ) (user : User) (token csrf : Bytes) (now expires : ℕ) (db : Db)
      → fails clean_sessions ≡ false
      → fails insert_session ≡ false
      → taken (sha256 token) csrf (live (format_time format_seconds now) db.sessions) ≡ false
      → store_session format_seconds sha256 fails user_id user token csrf now expires db ≡ (
        ok (token, record { user = user; csrf_token = csrf; expires_at = expires }),
        record db {
          sessions =
              live (format_time format_seconds now) db.sessions
              ++ new_session format_seconds sha256 user_id token csrf expires ∷ [];
        },
      )
  unfolding store_session
  store_session-runs fails user_id user token csrf now expires db e f t =
      rw (e, f, t, store_session) refl

  store_session-ok :
      (fails : Faults) (user_id : ℕ) (user : User) (token csrf : Bytes) (now expires : ℕ) (db : Db)
      (result : Bytes × Session)
      → (store_session format_seconds sha256 fails user_id user token csrf now expires db).0
        ≡ ok result
      → (result ≡ (token, record { user = user; csrf_token = csrf; expires_at = expires }))
        × (taken (sha256 token) csrf (live (format_time format_seconds now) db.sessions) ≡ false)
        × ((store_session format_seconds sha256 fails user_id user token csrf now expires db).1
            ≡ record db {
              sessions =
                  live (format_time format_seconds now) db.sessions
                  ++ new_session format_seconds sha256 user_id token csrf expires ∷ [];
            })
  unfolding store_session
  store_session-ok fails user_id user token csrf now expires db result h =
      let stored_by = store_session-runs fails user_id user token csrf now expires db in
      elim (Bool-cases (fails clean_sessions)) [
        | inl e ↦ absurd (ground arith)
        | inr e ↦ elim (Bool-cases (fails insert_session)) [
          | inl f ↦ absurd (ground arith)
          | inr f ↦
              elim (Bool-cases
                (taken (sha256 token) csrf (live (format_time format_seconds now) db.sessions))) [
                  | inl t ↦ absurd (ground arith)
                  | inr t ↦ (
                    ok_inj (sym h ∙ ap (λ x. x.0) (stored_by e f t)),
                    t,
                    ap (λ x. x.1) (stored_by e f t),
                  )
                ]
        ]
      ]

  -- What a session that was created has put into the tables.
  pub record IsStored (token_random : Option Bytes) (user_id expires now : ℕ) (db : Db)
      (token : Bytes) (session : Session) (after : Db) : Type 0 where
    pub owner : UserRow
    pub raw : Bytes
    pub found : find (is_active_user user_id) db.users ≡ some owner
    pub random : token_random ≡ some raw
    pub encoded : token ≡ raw_url_encode raw
    pub user : session.user ≡ user_of owner
    pub expires_at : session.expires_at ≡ expires
    pub unused :
        any
          (λ (s : SessionRow). bytes_eq s.token_hash (sha256 token))
          (live (format_time format_seconds now) db.sessions)
        ≡ false
    pub stored : after ≡ record db {
      sessions =
          live (format_time format_seconds now) db.sessions
          ++ new_session format_seconds sha256 user_id token session.csrf_token session.expires_at
            ∷ [];
    }

  pub create_session-IsStored :
      (fails : Faults) (token_random csrf_random : Option Bytes) (user_id : ℕ) (ttl : ℤ) (now : ℕ)
      (db : Db) (token : Bytes) (session : Session)
      → (create_session format_seconds sha256 fails token_random csrf_random user_id ttl now db).0
        ≡ ok (token, session)
      → IsStored token_random user_id
          (now + pos_part ttl)
          now
          db
          token
          session
          (create_session format_seconds sha256 fails token_random csrf_random user_id ttl now db).1
  unfolding create_session
  create_session-IsStored fails token_random csrf_random user_id ttl now db token session h =
      elim (Result-cases (prepare_session fails token_random csrf_random user_id ttl db)) [
        | inl (e, p) ↦
            let same : create_session format_seconds sha256 fails token_random csrf_random user_id
                  ttl now db
                ≡ (err e, db) =
              rw (p, create_session) refl in
            absurd (err≢ok (sym (ap (λ x. x.0) same) ∙ h))
        | inr (made, p) ↦
            let same : create_session format_seconds sha256 fails token_random csrf_random user_id
                  ttl now db
                ≡ store_session format_seconds sha256 fails user_id made.0 made.1 made.2 now
                    (now + pos_part ttl) db =
              rw (p, create_session) refl in
            let (owner, raw, found, random, user, encoded) =
              prepare_session-ok fails token_random csrf_random user_id ttl db made p in
            let (result, free, after) =
              store_session-ok fails user_id made.0 made.1 made.2 now (now + pos_part ttl) db
                (token, session) (sym (ap (λ x. x.0) same) ∙ h) in
            record {
              owner = owner;
              raw = raw;
              found = found;
              random = random;
              encoded = ap (λ x. x.0) result ∙ encoded;
              user = ap (λ x. (x.1).user) result ∙ user;
              expires_at = ap (λ x. (x.1).expires_at) result;
              unused =
                  subst
                    (λ t.
                      any (λ (s : SessionRow). bytes_eq s.token_hash (sha256 t))
                        (live (format_time format_seconds now) db.sessions)
                      ≡ false)
                    (sym (ap (λ x. x.0) result)) (taken-hash _ _ _ free);
              stored =
                  ap (λ x. x.1) same
                  ∙ after
                  ∙ ap
                      (λ (x : Bytes × Session). record db {
                        sessions =
                            live (format_time format_seconds now) db.sessions
                            ++ new_session format_seconds sha256 user_id x.0 (x.1).csrf_token
                                (x.1).expires_at
                              ∷ [];
                      })
                      (sym result);
            }
      ]

  session_by_token-found :
      (token : Bytes) (now : ℕ) (db : Db) (row : SessionRow) (owner : UserRow) (expires : ℕ)
      → is_no_token token ≡ false
      → resolve (sha256 token) (format_time format_seconds now) db.users db.sessions
        ≡ some (row, owner)
      → parse_time row.expires_at ≡ some expires
      → session_by_token format_seconds sha256 parse_time no_faults token now db
        ≡ ok (record { user = user_of owner; csrf_token = row.csrf_token; expires_at = expires })
  unfolding session_by_token
  session_by_token-found token now db row owner expires t r e = rw (t, r, e, session_by_token) refl

  -- A session that was created is found by its token, with its user, its CSRF token and its expiry,
  -- at every time in a second before that of its expiry: if the token was made of 32 random bytes,
  -- times of the years up to 9999 are written in their order, and the expiry is read back as it was
  -- written.
  pub session_by_token-create_session :
      IsClockFormat format_seconds
      → (fails : Faults) (raw : Bytes) (csrf_random : Option Bytes) (user_id : ℕ) (ttl : ℤ)
        (now later : ℕ) (db : Db) (token : Bytes) (session : Session)
      → length raw ≡ 32
      → (create_session format_seconds sha256 fails (some raw) csrf_random user_id ttl now db).0
        ≡ ok (token, session)
      → later / second < (now + pos_part ttl) / second
      → (now + pos_part ttl) / second ≤ last_second
      → parse_time (format_time format_seconds (now + pos_part ttl)) ≡ some (now + pos_part ttl)
      → session_by_token format_seconds sha256 parse_time no_faults token later
          (create_session format_seconds sha256 fails (some raw) csrf_random user_id ttl now db).1
        ≡ ok session
  session_by_token-create_session clock fails raw csrf_random user_id ttl now later db token session
        n h before last reads =
      let made =
        create_session-IsStored fails (some raw) csrf_random user_id ttl now db token session h in
      let row =
        new_session format_seconds sha256 user_id token session.csrf_token session.expires_at in
      let (low, high) = length-raw_url_encode raw in
      let size : length token ≡ length (raw_url_encode raw) =
        ap length (made.encoded ∙ ap raw_url_encode (some_inj (sym made.random))) in
      let token_ok : is_no_token token ≡ false = ground (arith, n, low, high, size) in
      let ends : bytes_less (format_time format_seconds later)
            (format_time format_seconds session.expires_at)
          ≡ true =
        subst
          (λ t. bytes_less (format_time format_seconds later) (format_time format_seconds t) ≡ true)
          (sym made.expires_at)
          (format_time-increasing format_seconds clock later (now + pos_part ttl) before last) in
      let read : parse_time row.expires_at ≡ some session.expires_at =
        subst (λ t. parse_time (format_time format_seconds t) ≡ some t) (sym made.expires_at)
          reads in
      let kept = live (format_time format_seconds now) db.sessions in
      subst
        (λ x.
          session_by_token format_seconds sha256 parse_time no_faults token later x ≡ ok session)
        (sym made.stored)
        (session_by_token-found token later (record db { sessions = kept ++ row ∷ [] }) row
            made.owner session.expires_at token_ok
            (resolve-new (sha256 token) (format_time format_seconds later) db.users kept row
              made.owner made.unused (bytes_eq_refl (sha256 token)) ends made.found)
            read
          ∙ ap (λ u. ok (record session { user = u })) (sym made.user))
