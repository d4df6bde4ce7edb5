-- ===== src/Server/Limiter/Window.antt =====
-- The login limiter over a history of calls: how many attempts a window can hold.
use agentless_monitoring.Common.{
  ℕ, ◌+◌, ◌≤◌, ◌≡◌, refl, List, [], ◌∷◌, ◌++◌, arith, Bool, true, false, not, ◌&&◌, Bytes,
  bytes_discrete, ltb, ◌==◌, if◌then◌else◌, Bool-cases, inl, inr, sym, subst, ◌≢◌,
}
use agentless_monitoring.Common.Assoc.{delete}
use agentless_monitoring.Server.Limiter.{
  LoginLimiter, Records, source_login_window, source_login_attempts, account_login_window,
  account_login_attempts, limiter_sweep_interval, new_login_limiter, allow_attempt, remove_expired,
  evict_oldest, sweep,
}
use agentless_monitoring.Server.Limiter.Records.{Inv, Covers, empty-Inv, Inv-mono}
use agentless_monitoring.Server.Limiter.Attempt.{
  allow_attempt-Covers, allow_attempt-Covers_admitted,
}
use agentless_monitoring.Server.Limiter.Sweep.{
  remove_expired-Inv, remove_expired-Covers, evict_oldest_of_le, delete-Covers_ne,
}

-- A call of the limiter: a login attempt with the clock's reading, or the reset that follows a
-- login with the right password.
pub data Event : Type 0 where
  attempt : ℕ → Bytes → Bytes → Event
  success : Bytes → Bytes → Event

-- The clock does not run backwards.
abbrev pub InOrder : ℕ → List Event → Type 0
InOrder t [] = Unit
InOrder t (attempt now source username ∷ es) = (t ≤ now) × InOrder now es
InOrder t (success source username ∷ es) = InOrder t es

abbrev pub end_time : ℕ → List Event → ℕ
end_time t [] = t
end_time t (attempt now source username ∷ es) = end_time now es
end_time t (success source username ∷ es) = end_time t es

abbrev pub same : Bytes → Bytes → Bool
same a b = elim (bytes_discrete a b) [ yes _ ↦ true | no _ ↦ false ]

pub record LimiterInv (now : ℕ) (l : LoginLimiter) : Type 0 where
  pub sources : Inv source_login_attempts now l.sources
  pub accounts : Inv account_login_attempts now l.accounts

pub new-LimiterInv : LimiterInv 0 new_login_limiter
unfolding new_login_limiter
new-LimiterInv = record { sources = empty-Inv 20 0; accounts = empty-Inv 10 0 }

swept-Inv :
    (limit window t now : ℕ) (records : Records)
    → t ≤ now
    → Inv limit t records
    → Inv limit now (evict_oldest (remove_expired records window now))
swept-Inv limit window t now records h i =
    let r = remove_expired-Inv records limit window now (Inv-mono limit records h i) in
    rw (evict_oldest_of_le (remove_expired records window now) r.bounded) r

swept-Covers :
    (limit window t now : ℕ) (key : Bytes) (records : Records) (hist : List ℕ)
    → t ≤ now
    → Inv limit t records
    → Covers window t key records hist
    → Covers window now key (evict_oldest (remove_expired records window now)) hist
swept-Covers limit window t now key records hist h i c =
    let r = remove_expired-Inv records limit window now (Inv-mono limit records h i) in
    rw (evict_oldest_of_le (remove_expired records window now) r.bounded) (
      remove_expired-Covers records key limit window now hist (Inv-mono limit records h i)
        (λ n m. c n (omega arith)))

pub sweep-LimiterInv :
    (l : LoginLimiter) {t : ℕ} (now : ℕ) → t ≤ now → LimiterInv t l → LimiterInv now (sweep l now)
unfolding sweep
sweep-LimiterInv l {t} now h i =
    elim (Bool-cases (not (l.last_sweep == 0) && ltb now (l.last_sweep + limiter_sweep_interval))) [
      | inl early ↦ rw early (record {
        sources = Inv-mono source_login_attempts l.sources h i.sources;
        accounts = Inv-mono account_login_attempts l.accounts h i.accounts;
      })
      | inr due ↦ rw due (record {
        sources = swept-Inv source_login_attempts source_login_window t now l.sources h i.sources;
        accounts =
            swept-Inv account_login_attempts account_login_window t now l.accounts h i.accounts;
      })
    ]

pub sweep-sources :
    (l : LoginLimiter) (t now : ℕ) (key : Bytes) (hist : List ℕ)
    → t ≤ now
    → LimiterInv t l
    → Covers source_login_window t key l.sources hist
    → Covers source_login_window now key (sweep l now).sources hist
unfolding sweep
sweep-sources l t now key hist h i c =
    elim (Bool-cases (not (l.last_sweep == 0) && ltb now (l.last_sweep + limiter_sweep_interval))) [
      | inl early ↦ rw early (λ n m. c n (omega arith))
      | inr due ↦ rw due (
          swept-Covers source_login_attempts source_login_window t now key l.sources hist h
            i.sources c)
    ]

pub sweep-accounts :
    (l : LoginLimiter) (t now : ℕ) (key : Bytes) (hist : List ℕ)
    → t ≤ now
    → LimiterInv t l
    → Covers account_login_window t key l.accounts hist
    → Covers account_login_window now key (sweep l now).accounts hist
unfolding sweep
sweep-accounts l t now key hist h i c =
    elim (Bool-cases (not (l.last_sweep == 0) && ltb now (l.last_sweep + limiter_sweep_interval))) [
      | inl early ↦ rw early (λ n m. c n (omega arith))
      | inr due ↦ rw due (
          swept-Covers account_login_attempts account_login_window t now key l.accounts hist h
            i.accounts c)
    ]

-- What an attempt at `key` leaves covers the history, with the attempt in it if it was granted.
pub attempt-Covers :
    (records : Records) (key q : Bytes) (window limit now : ℕ) (hist : List ℕ) (noted : Bool)
    → (noted ≡ true → (allow_attempt records key window limit now).1 ≡ true)
    → (noted ≡ true → q ≡ key)
    → Covers window now q records hist
    → Covers window now q
        (allow_attempt records key window limit now).0
        (if noted then hist ++ now ∷ [] else hist)
attempt-Covers records key q window limit now hist true granted at_key c =
    let e = at_key refl in
    subst
      (λ k. Covers window now k (allow_attempt records key window limit now).0 (hist ++ now ∷ []))
      (sym e)
      (allow_attempt-Covers_admitted records key window limit now hist {t = now} (omega arith)
        (subst (λ k. Covers window now k records hist) e c) (granted refl))
attempt-Covers records key q window limit now hist false granted at_key c =
    allow_attempt-Covers records key q window limit now hist {t = now} (omega arith) c

pub reset-Covers :
    (records : Records) (key q : Bytes) (window now : ℕ) (hist : List ℕ) (mine : Bool)
    → (mine ≡ false → q ≢ key)
    → Covers window now q records hist
    → Covers window now q (delete bytes_discrete key records) (if mine then [] else hist)
reset-Covers records key q window now hist true other c = λ n h. omega arith
reset-Covers records key q window now hist false other c =
    delete-Covers_ne key q records window now hist (other refl) c

pub same-eq : (a b : Bytes) → same a b ≡ true → b ≡ a
same-eq a b h = ground arith

pub same-ne : (a b : Bytes) → same a b ≡ false → b ≢ a
same-ne a b h = ground arith
