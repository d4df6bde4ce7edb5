-- ===== src/Server/Handlers/SignIn.antt =====
-- What a login that succeeds has done.
use agentless_monitoring.Common.{
  ℕ, ◌+◌, ◌/◌, ◌<◌, ◌≤◌, ◌≡◌, ◌≢◌, refl, ap, sym, ◌∙◌, subst, Bool, true, false, List, [], ◌∷◌,
  Option, none, some, some_inj, Bytes, codes, Result, ok, err, if◌then◌else◌, length, find, arith,
  Bool-cases, Option-cases, inl, inr,
}
use agentless_monitoring.Common.Int.{pos}
use agentless_monitoring.Storage.Tables.{Db, UserRow}
use agentless_monitoring.Auth.Users.{User, is_active_user, Error as AuthError, authenticate}
use agentless_monitoring.Auth.Users.Logins.{IsKnown, authenticate-IsKnown}
use agentless_monitoring.Auth.Sessions.{
  Session, second, session_duration, format_time, create_session, session_by_token,
}
use agentless_monitoring.Auth.Sessions.Expiry.{last_second, IsClockFormat}
use agentless_monitoring.Auth.Sessions.Creation.{
  no_faults, session_by_token-create_session, create_session-IsStored,
}
use agentless_monitoring.Server.Limiter.{allow}
use agentless_monitoring.Server.Web.{Request, form_value, validate_form_csrf, client_address}
use agentless_monitoring.Server.Handlers.{
  Platform, Settings, Surroundings, World, Response, Answer, redirect, plain, Message, text,
  bad_form, bad_token, render_auth_page,
}
use agentless_monitoring.Server.Handlers.Forms.{
  login_submit, login_form, login_answer, open_session, session_answer, clears_form,
}

abbrev to_dashboard : Answer
to_dashboard = redirect (codes "/dashboard")

find-holds :
    (p : UserRow → Bool) (us : List UserRow) (u : UserRow) → find p us ≡ some u → p u ≡ true
find-holds p [] u h = absurd (ground arith)
find-holds p (x ∷ us) u h = elim (Bool-cases (p x)) [
  | inl e ↦
      let first : find p (x ∷ us) ≡ some x = rw e refl in
      subst (λ y. p y ≡ true) (some_inj (sym first ∙ h)) e
  | inr e ↦ find-holds p us u (ground arith)
]

either-no_redirect :
    (b : Bool) (x y : Response)
    → x.answer ≢ to_dashboard
    → y.answer ≢ to_dashboard
    → (if b then x else y).answer ≢ to_dashboard
either-no_redirect true x y h k = h
either-no_redirect false x y h k = k

plain-no_redirect : (status : ℕ) (body : Bytes) → plain status body ≢ to_dashboard
plain-no_redirect status body h = cc

same_id : (id : ℕ) (u : UserRow) → is_active_user id u ≡ true → u.id ≡ id
same_id id u h = ground arith

module _ (p : Platform) (s : Settings) (e : Surroundings) where
  render-no_redirect :
      (status : ℕ) (name : Bytes) (message : Message)
      → (render_auth_page p s e status name message).answer ≢ to_dashboard
  unfolding render_auth_page
  render-no_redirect status name message h = ground arith

  session_answer-ok :
      (w : World) (r : Result AuthError (Bytes × Session) × Db)
      → (session_answer p s e w r).0.answer ≡ to_dashboard
      → (token : Bytes) × (session : Session) × (r.0 ≡ ok (token, session))
        × ((session_answer p s e w r).1.db ≡ r.1)
  session_answer-ok w (err why, db) h = absurd (ground arith)
  session_answer-ok w (ok (token, session), db) h = (token, session, refl, refl)

  open_session-ok :
      (user : User) (w : World)
      → (open_session p s e user w).0.answer ≡ to_dashboard
      → (token : Bytes) × (session : Session) × ((create_session p.format_seconds p.sha256
            e.auth_fails e.token_random e.csrf_random user.id
            (pos session_duration)
            e.now
            w.db).0
          ≡ ok (token, session))
        × ((open_session p s e user w).1.db
            ≡ (create_session p.format_seconds p.sha256 e.auth_fails e.token_random e.csrf_random
                user.id
                (pos session_duration)
                e.now
                w.db).1)
  unfolding open_session
  open_session-ok user w h = session_answer-ok w _ h

  login_answer-ok :
      (client username : Bytes) (w : World) (r : Result AuthError User × Db)
      → (login_answer p s e client username w r).0.answer ≡ to_dashboard
      → (user : User) × (after : World) × (r.0 ≡ ok user)
        × (after.db ≡ r.1)
        × (login_answer p s e client username w r ≡ open_session p s e user after)
  login_answer-ok client username w (err why, db) h =
      absurd (either-no_redirect _ _ _ (render-no_redirect 401 _ _) (plain-no_redirect 500 _) h)
  login_answer-ok client username w (ok user, db) h = (user, _, refl, refl, refl)

  login_form-ok :
      (r : Request) (form : List (Bytes × Bytes)) (w : World)
      → (login_form p s e r form w).0.answer ≡ to_dashboard
      → (user : User) × (after : World) × ((authenticate p.id_key p.argon2_version e.auth_fails
            (form_value (codes "username") form)
            (form_value (codes "password") form)
            (client_address p.split_host_port p.parse_addr p.addr_string s.trusted_proxies r)
            w.db).0
          ≡ ok user)
        × (after.db
            ≡ (authenticate p.id_key p.argon2_version e.auth_fails
                (form_value (codes "username") form)
                (form_value (codes "password") form)
                (client_address p.split_host_port p.parse_addr p.addr_string s.trusted_proxies r)
                w.db).1)
        × (login_form p s e r form w ≡ open_session p s e user after)
  login_form-ok r form w h =
      let client =
        client_address p.split_host_port p.parse_addr p.addr_string s.trusted_proxies r in
      let username = form_value (codes "username") form in
      let limited = allow p.to_lower p.sha256 w.limiter client username e.now in
      let tried =
        authenticate p.id_key p.argon2_version e.auth_fails username
          (form_value (codes "password") form) client w.db in
      elim (Bool-cases limited.1) [
        | inl yes_allowed ↦
            let same : login_form p s e r form w
                ≡ login_answer p s e client username (record w { limiter = limited.0 }) tried =
              rw (yes_allowed, login_form) refl in
            let (user, after, accepted, db, opened) =
              login_answer-ok client username (record w { limiter = limited.0 }) tried
                (subst (λ x. (x.0).answer ≡ to_dashboard) same h) in
            (user, after, accepted, db, same ∙ opened)
        | inr turned_away ↦
            let same : (login_form p s e r form w).0
                ≡ render_auth_page p s e 429 (codes "login")
                    (text (codes "Too many login attempts. Try again shortly.")) =
              rw (turned_away, login_form) refl in
            absurd (render-no_redirect 429 _ _ (subst (λ x. x.answer ≡ to_dashboard) same h))
      ]

  unparsed_form : (r : Request) (w : World) → r.form ≡ none → login_submit p s e r w ≡ (bad_form, w)
  unfolding login_submit
  unparsed_form r w n = rw (n, login_submit) refl

  wrong_token :
      (r : Request) (w : World) (form : List (Bytes × Bytes))
      → r.form ≡ some form
      → validate_form_csrf s.secure_cookies r form ≡ false
      → login_submit p s e r w ≡ (bad_token, w)
  unfolding login_submit
  wrong_token r w form parsed c = rw (parsed, c, login_submit) refl

  right_token :
      (r : Request) (w : World) (form : List (Bytes × Bytes))
      → r.form ≡ some form
      → validate_form_csrf s.secure_cookies r form ≡ true
      → login_submit p s e r w ≡ clears_form p s e (login_form p s e r form w)
  unfolding login_submit client_address
  right_token r w form parsed c = rw (parsed, c, login_submit) refl

  login_submit-form :
      (r : Request) (w : World)
      → (login_submit p s e r w).0.answer ≡ to_dashboard
      → (form : List (Bytes × Bytes)) × (r.form ≡ some form)
        × (validate_form_csrf s.secure_cookies r form ≡ true)
        × ((login_form p s e r form w).0.answer ≡ to_dashboard)
        × ((login_submit p s e r w).1 ≡ (login_form p s e r form w).1)
  unfolding login_submit
  login_submit-form r w h = elim (Option-cases r.form) [
    | inl n ↦ absurd (
        plain-no_redirect 400 _
          (sym (ap (λ (x : Response × World). (x.0).answer) (unparsed_form r w n)) ∙ h))
    | inr (form, parsed) ↦ elim (Bool-cases (validate_form_csrf s.secure_cookies r form)) [
      | inr c ↦ absurd (
          plain-no_redirect 403 _
            (sym (ap (λ (x : Response × World). (x.0).answer) (wrong_token r w form parsed c)) ∙ h))
      | inl c ↦
          let same = right_token r w form parsed c in
          (
            form,
            parsed,
            c,
            sym (ap (λ (x : Response × World). (x.0).answer) same) ∙ h,
            ap (λ (x : Response × World). x.1) same,
          )
    ]
  ]

  abbrev created : User → World → Option Bytes → Result AuthError (Bytes × Session) × Db
  created user w random =
      create_session p.format_seconds p.sha256 e.auth_fails random e.csrf_random user.id
        (pos session_duration) e.now w.db

  -- A login that leads to the dashboard came from an active user of the name and with the password in
  -- the form, and it has left a session in the tables: its token is accepted, and stands for that
  -- user, at every time in a second before that of 12 hours later, if no database call fails then.
  -- The token was made of 32 random bytes, times of the years up to 9999 are written in their order,
  -- and the expiry is read back as it was written.
  pub login_submit-session :
      IsClockFormat p.format_seconds
      → (r : Request) (w : World) (raw : Bytes) (later : ℕ) → e.token_random ≡ some raw
      → length raw ≡ 32
      → (login_submit p s e r w).0.answer ≡ to_dashboard
      → later / second < (e.now + session_duration) / second
      → (e.now + session_duration) / second ≤ last_second
      → p.parse_time (format_time p.format_seconds (e.now + session_duration))
        ≡ some (e.now + session_duration)
      → (form : List (Bytes × Bytes)) × (u : UserRow) × (token : Bytes) × (session : Session)
        × (r.form ≡ some form)
        × IsKnown p.id_key p.argon2_version e.auth_fails
            (form_value (codes "username") form)
            (form_value (codes "password") form)
            (client_address p.split_host_port p.parse_addr p.addr_string s.trusted_proxies r)
            w.db
            u
        × (session.user.id ≡ u.id)
        × (session_by_token p.format_seconds p.sha256 p.parse_time no_faults token later
              (login_submit p s e r w).1.db
            ≡ ok session)
  login_submit-session clock r w raw later random n h before last reads =
      let (form, parsed, c, led, state) = login_submit-form r w h in
      let (user, after, accepted, db, opened) = login_form-ok r form w led in
      let (token, session, made, stored) =
        open_session-ok user after
          (sym (ap (λ (x : Response × World). (x.0).answer) opened) ∙ led) in
      let (u, known, who, left) =
        authenticate-IsKnown p.id_key p.argon2_version e.auth_fails _ _ _ w.db user accepted in
      let made_with : (created user after (some raw)).0 ≡ ok (token, session) =
        subst (λ t. (created user after t).0 ≡ ok (token, session)) random made in
      let put =
        create_session-IsStored p.format_seconds p.sha256 p.parse_time e.auth_fails (some raw)
          e.csrf_random user.id (pos session_duration) e.now after.db token session made_with in
      let tables : (login_submit p s e r w).1.db ≡ (created user after (some raw)).1 =
        ap (λ (x : World). x.db) state
        ∙ ap (λ (x : Response × World). (x.1).db) opened
        ∙ stored
        ∙ ap (λ t. (created user after t).1) random in
      (
        form,
        u,
        token,
        session,
        parsed,
        known,
        ap (λ (x : User). x.id) put.user
            ∙ same_id user.id put.owner (find-holds _ after.db.users put.owner put.found)
            ∙ ap (λ (x : User). x.id) who,
        subst
            (λ d.
              session_by_token p.format_seconds p.sha256 p.parse_time no_faults token later d
              ≡ ok session)
            (sym tables)
            (session_by_token-create_session p.format_seconds p.sha256 p.parse_time clock
              e.auth_fails raw e.csrf_random user.id (pos session_duration) e.now later after.db
              token session n made_with before last reads),
      )
