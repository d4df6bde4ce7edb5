-- ===== src/Server/Limiter/History.antt =====
-- The login limiter over histories of calls.
use agentless_monitoring.Common.{
  ℕ, ◌≤◌, ◌≡◌, List, [], ◌∷◌, ◌++◌, arith, Bool, ◌&&◌, Bytes, if◌then◌else◌, length,
}
use agentless_monitoring.Server.Limiter.{
  LoginLimiter, Records, source_login_window, source_login_attempts, account_login_window,
  account_login_attempts, maximum_limiter_keys, new_login_limiter, sweep, account_key, allow, reset,
}
use agentless_monitoring.Common.{length-keep-le, none, Bool-cases, inl, inr, bytes_discrete}
use agentless_monitoring.Common.Assoc.{lookup, delete, lookup-delete_self, lookup-delete_ne}
use agentless_monitoring.Server.Limiter.{recent}
use agentless_monitoring.Server.Limiter.Records.{count_recent, attempts_of, Covers}
use agentless_monitoring.Server.Limiter.Attempt.{allow_attempt-Inv}
use agentless_monitoring.Server.Limiter.Sweep.{delete-Inv}
use agentless_monitoring.Server.Limiter.Window.{
  Event, attempt, success, InOrder, end_time, same, LimiterInv, new-LimiterInv, sweep-LimiterInv,
  sweep-sources, sweep-accounts, attempt-Covers, reset-Covers, same-eq, same-ne,
}

lookup-delete-same :
    (key q : Bytes) (records : Records)
    → lookup bytes_discrete q (delete bytes_discrete key records)
      ≡ (if same key q then none else lookup bytes_discrete q records)
lookup-delete-same key q records = elim (Bool-cases (same key q)) [
  | inl e ↦ rw (e, same-eq key q e) (lookup-delete_self bytes_discrete key records)
  | inr e ↦ rw e (lookup-delete_ne bytes_discrete key q records (same-ne key q e))
]

module _ (to_lower sha256 : Bytes → Bytes) where
  -- The times of the attempts that the limiter let through among those that `mine` selects by their
  -- source and their account, since the last reset that `mine` selects.
  unfoldable pub admitted : (Bytes → Bytes → Bool) → LoginLimiter → List ℕ → List Event → List ℕ
  unfolding allow reset
  admitted mine l hist [] = hist
  admitted mine l hist (attempt now source username ∷ es) =
      let (after, allowed) = allow to_lower sha256 l source username now in
      admitted mine after
        (if allowed && mine source (account_key to_lower sha256 username)
          then hist ++ now ∷ []
          else hist)
        es
  admitted mine l hist (success source username ∷ es) =
      admitted mine (reset to_lower sha256 l source username)
        (if mine source (account_key to_lower sha256 username) then [] else hist) es

  -- The limiter after the calls.
  unfoldable pub run : LoginLimiter → List Event → LoginLimiter
  unfolding allow reset
  run l [] = l
  run l (attempt now source username ∷ es) = run (allow to_lower sha256 l source username now).0 es
  run l (success source username ∷ es) = run (reset to_lower sha256 l source username) es

  allow-LimiterInv :
      (l : LoginLimiter) (source username : Bytes) (t now : ℕ)
      → t ≤ now
      → LimiterInv t l
      → LimiterInv now (allow to_lower sha256 l source username now).0
  unfolding allow
  allow-LimiterInv l source username t now h i =
      let swept = sweep-LimiterInv l now h i in
      record {
        sources =
            allow_attempt-Inv (sweep l now).sources source source_login_window source_login_attempts
              now {t = now} (omega arith) swept.sources;
        accounts =
            allow_attempt-Inv (sweep l now).accounts (account_key to_lower sha256 username)
              account_login_window account_login_attempts now {t = now} (omega arith)
              swept.accounts;
      }

  reset-LimiterInv :
      (l : LoginLimiter) (source username : Bytes) (t : ℕ)
      → LimiterInv t l
      → LimiterInv t (reset to_lower sha256 l source username)
  unfolding reset
  reset-LimiterInv l source username t i = record {
    sources = delete-Inv source_login_attempts t source l.sources i.sources;
    accounts =
        delete-Inv account_login_attempts t (account_key to_lower sha256 username) l.accounts
          i.accounts;
  }

  run-LimiterInv :
      (l : LoginLimiter) (es : List Event) (t : ℕ)
      → InOrder t es
      → LimiterInv t l
      → LimiterInv (end_time t es) (run l es)
  unfolding run
  run-LimiterInv l [] t o i = i
  run-LimiterInv l (attempt now source username ∷ es) t o i =
      run-LimiterInv (allow to_lower sha256 l source username now).0 es now o.1
        (allow-LimiterInv l source username t now o.0 i)
  run-LimiterInv l (success source username ∷ es) t o i =
      run-LimiterInv (reset to_lower sha256 l source username) es t o
        (reset-LimiterInv l source username t i)

  -- After any calls of a new limiter, in the order of their times, neither map has more than 4096
  -- entries: the eviction never has to delete one.
  pub run-bounded :
      (es : List Event)
      → InOrder 0 es
      → (length (run new_login_limiter es).sources ≤ maximum_limiter_keys)
        × (length (run new_login_limiter es).accounts ≤ maximum_limiter_keys)
  run-bounded es o =
      let i = run-LimiterInv new_login_limiter es 0 o new-LimiterInv in
      (i.sources.bounded, i.accounts.bounded)

  abbrev pub from_source : Bytes → Bytes → Bytes → Bool
  from_source q source account = same source q

  abbrev pub at_account : Bytes → Bytes → Bytes → Bool
  at_account q source account = same account q

  admitted-sources :
      (q : Bytes) (l : LoginLimiter) (hist : List ℕ) (es : List Event) (t : ℕ)
      → InOrder t es
      → LimiterInv t l
      → Covers source_login_window t q l.sources hist
      → Covers source_login_window
          (end_time t es)
          q
          (run l es).sources
          (admitted (from_source q) l hist es)
  unfolding run admitted
  admitted-sources q l hist [] t o i c = c
  admitted-sources q l hist (attempt now source username ∷ es) t o i c =
      admitted-sources q (allow to_lower sha256 l source username now).0 _ es now o.1
        (allow-LimiterInv l source username t now o.0 i)
        (attempt-Covers (sweep l now).sources source q source_login_window source_login_attempts now
          hist _ (λ h. ground arith) (λ h. same-eq source q (ground arith))
          (sweep-sources l t now q hist o.0 i c))
  admitted-sources q l hist (success source username ∷ es) t o i c =
      admitted-sources q (reset to_lower sha256 l source username) _ es t o
        (reset-LimiterInv l source username t i)
        (reset-Covers l.sources source q source_login_window t hist _ (same-ne source q) c)

  admitted-accounts :
      (q : Bytes) (l : LoginLimiter) (hist : List ℕ) (es : List Event) (t : ℕ)
      → InOrder t es
      → LimiterInv t l
      → Covers account_login_window t q l.accounts hist
      → Covers account_login_window
          (end_time t es)
          q
          (run l es).accounts
          (admitted (at_account q) l hist es)
  unfolding run admitted
  admitted-accounts q l hist [] t o i c = c
  admitted-accounts q l hist (attempt now source username ∷ es) t o i c =
      let key = account_key to_lower sha256 username in
      admitted-accounts q (allow to_lower sha256 l source username now).0 _ es now o.1
        (allow-LimiterInv l source username t now o.0 i)
        (attempt-Covers (sweep l now).accounts key q account_login_window account_login_attempts now
          hist _ (λ h. ground arith) (λ h. same-eq key q (ground arith))
          (sweep-accounts l t now q hist o.0 i c))
  admitted-accounts q l hist (success source username ∷ es) t o i c =
      let key = account_key to_lower sha256 username in
      admitted-accounts q (reset to_lower sha256 l source username) _ es t o
        (reset-LimiterInv l source username t i)
        (reset-Covers l.accounts key q account_login_window t hist _ (same-ne key q) c)

  -- In any calls of a new limiter, in the order of their times, and for any source address: of the
  -- attempts from that address that `allow` let through since its last reset, at most 20 lie in any
  -- one minute that ends at the last call or later.
  pub admitted-source_window :
      (source : Bytes) (es : List Event) (n : ℕ)
      → InOrder 0 es
      → end_time 0 es ≤ n
      → count_recent source_login_window n (admitted (from_source source) new_login_limiter [] es)
        ≤ source_login_attempts
  admitted-source_window source es n o h =
      let l = run new_login_limiter es in
      let i = run-LimiterInv new_login_limiter es 0 o new-LimiterInv in
      omega (
        arith,
        admitted-sources source new_login_limiter [] es 0 o new-LimiterInv (λ k m. omega arith) n h,
        length-keep-le (recent source_login_window n) (attempts_of source l.sources),
        (i.sources.fits source).few,
      )

  -- In any calls of a new limiter, in the order of their times, and for any account key: of the
  -- attempts at that account, from any source, that `allow` let through since its last reset, at most
  -- 10 lie in any five minutes that end at the last call or later.
  pub admitted-account_window :
      (account : Bytes) (es : List Event) (n : ℕ)
      → InOrder 0 es
      → end_time 0 es ≤ n
      → count_recent account_login_window n (admitted (at_account account) new_login_limiter [] es)
        ≤ account_login_attempts
  admitted-account_window account es n o h =
      let l = run new_login_limiter es in
      let i = run-LimiterInv new_login_limiter es 0 o new-LimiterInv in
      omega (
        arith,
        admitted-accounts account new_login_limiter [] es 0 o new-LimiterInv (λ k m. omega arith) n
            h,
        length-keep-le (recent account_login_window n) (attempts_of account l.accounts),
        (i.accounts.fits account).few,
      )

  -- A reset forgets the source and the account, and leaves the record of every other key.
  pub reset_lem :
      (l : LoginLimiter) (source username q : Bytes)
      → let after = reset to_lower sha256 l source username in
        (lookup bytes_discrete q after.sources
          ≡ (if same source q then none else lookup bytes_discrete q l.sources))
        × (lookup bytes_discrete q after.accounts ≡ (
            if same (account_key to_lower sha256 username) q
            then none
            else lookup bytes_discrete q l.accounts))
  unfolding reset
  reset_lem l source username q =
      let key = account_key to_lower sha256 username in
      (lookup-delete-same source q l.sources, lookup-delete-same key q l.accounts)
