-- ===== src/Server/Limiter.antt =====
-- internal/server/limiter.go. Times are nanoseconds since Go's zero time, so 0 is `IsZero`, and the
-- clock's reading is an argument. A cutoff `now - window` is compared by adding the window to the
-- other side. The mutex makes each method one step. A map is a list of its entries, whose order
-- stands for the order of iteration. SHA-256 and `ToLower` are parameters.
pub mod Records
pub mod Attempt
pub mod Sweep
pub mod Window
pub mod History
use agentless_monitoring.Common.{
  ℕ, zero, suc, ◌+◌, ◌*◌, ◌/◌, ◌%◌, Bool, true, false, not, ◌&&◌, List, [], ◌∷◌, ◌++◌, Option, none,
  some, ite, Bytes, bytes_discrete, trim_space, ltb, leb, ◌==◌, if◌then◌else◌, length, keep,
}
use agentless_monitoring.Common.Assoc.{lookup, insert, delete}

abbrev pub second : ℕ
second = 1000000000

abbrev pub source_login_window : ℕ
source_login_window = 60 * second

abbrev pub source_login_attempts : ℕ
source_login_attempts = 20

abbrev pub account_login_window : ℕ
account_login_window = 5 * 60 * second

abbrev pub account_login_attempts : ℕ
account_login_attempts = 10

abbrev pub maximum_limiter_keys : ℕ
maximum_limiter_keys = 4096

abbrev pub limiter_sweep_interval : ℕ
limiter_sweep_interval = 60 * second

pub record AttemptRecord : Type 0 where
  pub attempts : List ℕ
  pub last_seen : ℕ

abbrev pub Records : Type 0
Records = List (Bytes × AttemptRecord)

pub record LoginLimiter : Type 0 where
  pub sources : Records
  pub accounts : Records
  pub last_sweep : ℕ

unfoldable pub new_login_limiter : LoginLimiter
new_login_limiter = record { sources = []; accounts = []; last_sweep = 0 }

-- `records[key]`, with the zero record for a key that is missing.
abbrev pub record_or_zero : Option AttemptRecord → AttemptRecord
record_or_zero none = record { attempts = []; last_seen = 0 }
record_or_zero (some r) = r

abbrev pub exists : Option AttemptRecord → Bool
exists none = false
exists (some r) = true

-- `attempt.After(now.Add(-window))`
abbrev pub recent : ℕ → ℕ → ℕ → Bool
recent window now attempt = ltb now (attempt + window)

-- The rest of `allowAttempt`, once the key has its record.
unfoldable pub count_attempt : Records → Bytes → ℕ → ℕ → ℕ → List ℕ → Records × Bool
count_attempt records key window limit now kept =
    if leb limit (length kept)
    then (insert bytes_discrete key (record { attempts = kept; last_seen = now }) records, false)
    else (
      insert bytes_discrete key (record { attempts = kept ++ now ∷ []; last_seen = now }) records,
      true,
    )

unfoldable pub allow_attempt : Records → Bytes → ℕ → ℕ → ℕ → Records × Bool
allow_attempt records key window limit now =
    let found = lookup bytes_discrete key records in
    if not (exists found) && leb maximum_limiter_keys (length records)
    then (records, false)
    else count_attempt records key window limit now
        (keep (recent window now) (record_or_zero found).attempts)

-- `removeExpired(records, now.Add(-window))`
unfoldable pub remove_expired : Records → ℕ → ℕ → Records
remove_expired [] window now = []
remove_expired ((k, r) ∷ m) window now =
    let rest = remove_expired m window now in
    if ltb (r.last_seen + window) now then rest else (k, r) ∷ rest

-- The inner loop of `evictOldest`: `oldestKey` and `oldestTime`, over the entries left to visit.
unfoldable pub oldest : Bytes → ℕ → Records → Bytes
oldest key time [] = key
oldest key time ((k, r) ∷ m) =
    let next = oldest k r.last_seen m in
    let same = oldest key time m in
    ite (bytes_discrete key []) next (if ltb r.last_seen time then next else same)

-- Each round deletes an entry, so the number of entries is enough fuel.
unfoldable pub evict_from : ℕ → Records → Records
unfolding oldest
evict_from zero records = records
evict_from (suc n) records =
    let rest = evict_from n (delete bytes_discrete (oldest [] 0 records) records) in
    if ltb maximum_limiter_keys (length records) then rest else records

unfoldable pub evict_oldest : Records → Records
unfolding evict_from
evict_oldest records = evict_from (length records) records

unfoldable pub sweep : LoginLimiter → ℕ → LoginLimiter
unfolding remove_expired evict_oldest
sweep l now =
    if not (l.last_sweep == 0) && ltb now (l.last_sweep + limiter_sweep_interval)
    then l
    else record {
      sources = evict_oldest (remove_expired l.sources source_login_window now);
      accounts = evict_oldest (remove_expired l.accounts account_login_window now);
      last_sweep = now;
    }

hex_digit : ℕ → ℕ
hex_digit d = if ltb d 10 then d + 48 else d + 87

-- hex.EncodeToString
unfoldable pub hex_encode : Bytes → Bytes
unfolding hex_digit
hex_encode [] = []
hex_encode (b ∷ bs) = hex_digit (b / 16) ∷ hex_digit (b % 16) ∷ hex_encode bs

module _ (to_lower sha256 : Bytes → Bytes) where
  unfoldable pub account_key : Bytes → Bytes
  unfolding hex_encode trim_space
  account_key username = hex_encode (sha256 (to_lower (trim_space username)))

  unfoldable pub allow : LoginLimiter → Bytes → Bytes → ℕ → LoginLimiter × Bool
  unfolding sweep allow_attempt account_key
  allow l source username now =
      let swept = sweep l now in
      let (sources, source_allowed) =
        allow_attempt swept.sources source source_login_window source_login_attempts now in
      let (accounts, account_allowed) =
        allow_attempt swept.accounts (account_key username) account_login_window
          account_login_attempts now in
      (record swept { sources = sources; accounts = accounts }, source_allowed && account_allowed)

  unfoldable pub reset : LoginLimiter → Bytes → Bytes → LoginLimiter
  unfolding account_key
  reset l source username = record l {
    sources = delete bytes_discrete source l.sources;
    accounts = delete bytes_discrete (account_key username) l.accounts;
  }
