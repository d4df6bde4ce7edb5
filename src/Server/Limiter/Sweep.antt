-- ===== src/Server/Limiter/Sweep.antt =====
-- `remove_expired`, `evict_oldest` and `delete` on one map of the login limiter.
use agentless_monitoring.Common.{
  ℕ, zero, suc, ◌+◌, ◌≤◌, ◌<◌, ◌≡◌, refl, sym, ap, ◌∙◌, subst, ◌≢◌, if_pos, if_neg, ◌⊎◌, inl, inr,
  List, [], ◌∷◌, Option, none, some, arith, Bytes, bytes_discrete, ltb, length, Bool-cases,
  if◌then◌else◌, ltb→lt,
}
use agentless_monitoring.Common.Assoc.{
  lookup, delete, Distinct, delete-Distinct, lookup-delete_self, lookup-delete_ne, length-delete-le,
  length-delete-lt,
}
use agentless_monitoring.Server.Limiter.{
  AttemptRecord, Records, record_or_zero, maximum_limiter_keys, remove_expired, oldest, evict_from,
  evict_oldest,
}
use agentless_monitoring.Server.Limiter.Records.{count_recent, count_old, Fits, Inv, Covers}

-- What a lookup finds once the expired records are gone.
abbrev unexpired : ℕ → ℕ → Option AttemptRecord → Option AttemptRecord
unexpired window now none = none
unexpired window now (some r) = if ltb (r.last_seen + window) now then none else some r

pub lookup-remove_expired :
    (key : Bytes) (records : Records) (window now : ℕ)
    → Distinct bytes_discrete records
    → lookup bytes_discrete key (remove_expired records window now)
      ≡ unexpired window now (lookup bytes_discrete key records)
unfolding lookup remove_expired
lookup-remove_expired key [] window now d = refl
lookup-remove_expired key ((k, r) ∷ m) window now d =
    ground (arith, lookup-remove_expired key m window now d.1)

lookup-remove_expired-none :
    (key : Bytes) (records : Records) (window now : ℕ)
    → Distinct bytes_discrete records
    → lookup bytes_discrete key records ≡ none
    → lookup bytes_discrete key (remove_expired records window now) ≡ none
lookup-remove_expired-none key records window now d h =
    lookup-remove_expired key records window now d ∙ ap (unexpired window now) h

remove_expired-Distinct :
    (records : Records) (window now : ℕ)
    → Distinct bytes_discrete records
    → Distinct bytes_discrete (remove_expired records window now)
unfolding remove_expired
remove_expired-Distinct [] window now d = tt
remove_expired-Distinct ((k, r) ∷ m) window now d = ground (
  arith,
  remove_expired-Distinct m window now d.1,
  lookup-remove_expired-none k m window now d.1 d.0,
)

length-remove_expired-le :
    (records : Records) (window now : ℕ)
    → length (remove_expired records window now) ≤ length records
unfolding remove_expired
length-remove_expired-le [] window now = omega arith
length-remove_expired-le ((k, r) ∷ m) window now =
    ground (arith, length-remove_expired-le m window now)

Fits-unexpired :
    (limit window now : ℕ) (o : Option AttemptRecord)
    → Fits limit now (record_or_zero o)
    → Fits limit now (record_or_zero (unexpired window now o))
Fits-unexpired limit window now none f = f
Fits-unexpired limit window now (some r) f = elim (Bool-cases (ltb (r.last_seen + window) now)) [
  | inl e ↦ rw e (record { few = omega arith; seen = tt; past = omega arith })
  | inr e ↦ rw e f
]

pub remove_expired-Inv :
    (records : Records) (limit window now : ℕ)
    → Inv limit now records
    → Inv limit now (remove_expired records window now)
remove_expired-Inv records limit window now i = record {
  distinct = remove_expired-Distinct records window now i.distinct;
  bounded = omega (arith, length-remove_expired-le records window now, i.bounded);
  fits = λ k.
      rw (lookup-remove_expired k records window now i.distinct)
        (Fits-unexpired limit window now (lookup bytes_discrete k records) (i.fits k));
}

-- A record that expires holds no attempt that a window can still count.
count-unexpired :
    (limit window now n : ℕ) (o : Option AttemptRecord)
    → now ≤ n
    → Fits limit now (record_or_zero o)
    → count_recent window n (record_or_zero (unexpired window now o)).attempts
      ≡ count_recent window n (record_or_zero o).attempts
count-unexpired limit window now n none h f = refl
count-unexpired limit window now n (some r) h f =
    elim (Bool-cases (ltb (r.last_seen + window) now)) [
      | inl e ↦ rw e (sym (count_old window n r.last_seen r.attempts f.seen (ground arith)))
      | inr e ↦ rw e
    ]

pub remove_expired-Covers :
    (records : Records) (key : Bytes) (limit window now : ℕ) (hist : List ℕ)
    → Inv limit now records
    → Covers window now key records hist
    → Covers window now key (remove_expired records window now) hist
remove_expired-Covers records key limit window now hist i c n h =
    subst (λ o. count_recent window n hist ≤ count_recent window n (record_or_zero o).attempts)
      (sym (lookup-remove_expired key records window now i.distinct))
      (rw (count-unexpired limit window now n (lookup bytes_discrete key records) h (i.fits key))
        (c n h))

-- A map within its bound is not evicted from.
pub evict_oldest_of_le :
    (records : Records) → length records ≤ maximum_limiter_keys → evict_oldest records ≡ records
unfolding evict_oldest
evict_oldest_of_le [] h = refl
evict_oldest_of_le (e ∷ m) h = ground arith

abbrev Found : Bytes → Records → Type 0
Found key records = (r : AttemptRecord) × (lookup bytes_discrete key records ≡ some r)

Found-cons :
    (q k : Bytes) (r : AttemptRecord) (m : Records) → (q ≡ k) ⊎ Found q m → Found q ((k, r) ∷ m)
unfolding lookup
Found-cons q k r m h = elim (bytes_discrete k q) [
  | yes e ↦ (r, rw (if_pos _ e))
  | no e ↦ rw (if_neg _ e) (elim h [ inl p ↦ absurd (e (sym p)) | inr f ↦ f ])
]

Found-of_rest :
    (key q k : Bytes) (r : AttemptRecord) (m : Records)
    → (q ≡ key) ⊎ Found q m
    → (q ≡ key) ⊎ Found q ((k, r) ∷ m)
Found-of_rest key q k r m (inl e) = inl e
Found-of_rest key q k r m (inr f) = inr (Found-cons q k r m (inr f))

-- The inner loop of `evict_oldest` picks a key that stands in the map, or the one that it holds.
oldest-Found :
    (key : Bytes) (time : ℕ) (records : Records)
    → (oldest key time records ≡ key) ⊎ Found (oldest key time records) records
unfolding oldest
oldest-Found key time [] = inl refl
oldest-Found key time ((k, r) ∷ m) = elim (bytes_discrete key []) [
  | yes e ↦ rw (if_pos _ e) (inr (Found-cons _ k r m (oldest-Found k r.last_seen m)))
  | no e ↦ rw (if_neg _ e) (elim (Bool-cases (ltb r.last_seen time)) [
    | inl older ↦ rw older (inr (Found-cons _ k r m (oldest-Found k r.last_seen m)))
    | inr newer ↦ rw newer (Found-of_rest key _ k r m (oldest-Found key time m))
  ])
]

oldest-Found_start :
    (k : Bytes) (r : AttemptRecord) (m : Records) → Found (oldest [] 0 ((k, r) ∷ m)) ((k, r) ∷ m)
unfolding oldest bytes_discrete
oldest-Found_start k r m = Found-cons _ k r m (oldest-Found k r.last_seen m)

evict_step-lt :
    (records : Records)
    → maximum_limiter_keys < length records
    → length (delete bytes_discrete (oldest [] 0 records) records) < length records
evict_step-lt [] h = absurd (omega arith)
evict_step-lt ((k, r) ∷ m) h =
    let (found, e) = oldest-Found_start k r m in
    length-delete-lt bytes_discrete (oldest [] 0 ((k, r) ∷ m)) found ((k, r) ∷ m) e

evict_from-bounded :
    (n : ℕ) (records : Records)
    → length records ≤ n + maximum_limiter_keys
    → length (evict_from n records) ≤ maximum_limiter_keys
unfolding evict_from
evict_from-bounded zero records h = omega arith
evict_from-bounded (suc n) records h =
    elim (Bool-cases (ltb maximum_limiter_keys (length records))) [
      | inl more ↦
          rw more (evict_from-bounded n _ (omega (arith, evict_step-lt records (ltb→lt _ _ more))))
      | inr done ↦ rw done (ground arith)
    ]

-- Whatever the map, its own size is fuel enough for the eviction to end within the bound.
pub evict_oldest-bounded :
    (records : Records) → length (evict_oldest records) ≤ maximum_limiter_keys
unfolding evict_oldest
evict_oldest-bounded records = evict_from-bounded (length records) records (omega arith)

pub delete-Inv :
    (limit now : ℕ) (key : Bytes) (records : Records)
    → Inv limit now records
    → Inv limit now (delete bytes_discrete key records)
delete-Inv limit now key records i = record {
  distinct = delete-Distinct bytes_discrete key records i.distinct;
  bounded = omega (arith, length-delete-le bytes_discrete key records, i.bounded);
  fits = fits;
}
  where
    fits :
        (k : Bytes)
        → Fits limit now
            (record_or_zero (lookup bytes_discrete k (delete bytes_discrete key records)))
    fits k = elim (bytes_discrete k key) [
      | yes e ↦
          rw (e, lookup-delete_self bytes_discrete key records)
            (record { few = omega arith; seen = tt; past = omega arith })
      | no e ↦ rw (lookup-delete_ne bytes_discrete key k records e) (i.fits k)
    ]

-- Deleting another key leaves the counts of this one.
pub delete-Covers_ne :
    (key q : Bytes) (records : Records) (window now : ℕ) (hist : List ℕ)
    → q ≢ key
    → Covers window now q records hist
    → Covers window now q (delete bytes_discrete key records) hist
delete-Covers_ne key q records window now hist h c =
    subst
      (λ o.
        (n : ℕ)
        → now ≤ n
        → count_recent window n hist ≤ count_recent window n (record_or_zero o).attempts)
      (sym (lookup-delete_ne bytes_discrete key q records h)) c
