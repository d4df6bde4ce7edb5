-- ===== src/Server/Limiter/Records.antt =====
-- Lemmas on one map of the login limiter: what an attempt and a sweep leave of its entries.
use agentless_monitoring.Common.{
  ℕ, ◌+◌, ◌≤◌, ◌≡◌, refl, List, [], ◌∷◌, ◌++◌, arith, Bytes, bytes_discrete, length, keep, All,
}
use agentless_monitoring.Common.Assoc.{lookup, Distinct}
use agentless_monitoring.Server.Limiter.{
  AttemptRecord, Records, record_or_zero, recent, maximum_limiter_keys,
}

-- How many of the times lie in the window that ends at `now`.
abbrev pub count_recent : ℕ → ℕ → List ℕ → ℕ
count_recent window now times = length (keep (recent window now) times)

abbrev pub attempts_of : Bytes → Records → List ℕ
attempts_of key records = (record_or_zero (lookup bytes_discrete key records)).attempts

pub keep_later :
    (w now n : ℕ) (xs : List ℕ)
    → now ≤ n
    → count_recent w n (keep (recent w now) xs) ≡ count_recent w n xs
keep_later w now n [] h = refl
keep_later w now n (x ∷ xs) h = ground (arith, keep_later w now n xs h)

pub count_append :
    (w n : ℕ) (xs ys : List ℕ)
    → count_recent w n (xs ++ ys) ≡ count_recent w n xs + count_recent w n ys
count_append w n [] ys = omega arith
count_append w n (x ∷ xs) ys = ground (arith, count_append w n xs ys)

pub All-keep :
    (t w now : ℕ) (xs : List ℕ) → All (λ x. x ≤ t) xs → All (λ x. x ≤ t) (keep (recent w now) xs)
All-keep t w now [] h = tt
All-keep t w now (x ∷ xs) h = ground (arith, All-keep t w now xs h.1)

pub All-le_trans : (t u : ℕ) (xs : List ℕ) → t ≤ u → All (λ x. x ≤ t) xs → All (λ x. x ≤ u) xs
All-le_trans t u [] h a = tt
All-le_trans t u (x ∷ xs) h a = (omega arith, All-le_trans t u xs h a.1)

pub count_old :
    (w n t : ℕ) (xs : List ℕ) → All (λ x. x ≤ t) xs → t + w ≤ n → count_recent w n xs ≡ 0
count_old w n t [] a h = refl
count_old w n t (x ∷ xs) a h = ground (arith, count_old w n t xs a.1 h)

-- A record of the map: its attempts are few enough, none is later than `last_seen`, and that is not
-- in the future.
pub record Fits (limit now : ℕ) (r : AttemptRecord) : Type 0 where
  pub few : length r.attempts ≤ limit
  pub seen : All (λ t. t ≤ r.last_seen) r.attempts
  pub past : r.last_seen ≤ now

pub record Inv (limit now : ℕ) (records : Records) : Type 0 where
  pub distinct : Distinct bytes_discrete records
  pub bounded : length records ≤ maximum_limiter_keys
  pub fits : (k : Bytes) → Fits limit now (record_or_zero (lookup bytes_discrete k records))

-- Every admitted attempt that a window can still count is in the key's record.
abbrev pub Covers : ℕ → ℕ → Bytes → Records → List ℕ → Type 0
Covers window now key records hist =
    (n : ℕ) → now ≤ n → count_recent window n hist ≤ count_recent window n (attempts_of key records)

pub empty-Inv : (limit now : ℕ) → Inv limit now []
unfolding lookup
empty-Inv limit now = record {
  distinct = tt;
  bounded = omega arith;
  fits = λ k. record { few = omega arith; seen = tt; past = omega arith };
}

pub Fits-mono :
    (limit : ℕ) {now n : ℕ} (r : AttemptRecord) → now ≤ n → Fits limit now r → Fits limit n r
Fits-mono limit r h f = record { few = f.few; seen = f.seen; past = omega arith }

pub Inv-mono :
    (limit : ℕ) {now n : ℕ} (records : Records)
    → now ≤ n
    → Inv limit now records
    → Inv limit n records
Inv-mono limit records h i = record {
  distinct = i.distinct;
  bounded = i.bounded;
  fits = λ k. Fits-mono limit (record_or_zero (lookup bytes_discrete k records)) h (i.fits k);
}
