-- ===== src/Server/Limiter/Attempt.antt =====
-- `allow_attempt` on one map of the login limiter.
use agentless_monitoring.Common.{
  ℕ, ◌+◌, ◌≤◌, ◌<◌, ◌≡◌, refl, ◌↔◌, none, sym, ap, subst, ◌≢◌, ◌⊎◌, inl, inr, List, [], ◌∷◌, ◌++◌,
  some, arith, true, false, Bytes, bytes_discrete, length, keep, All-append, length-append,
  length-keep-le, append-nil, Option-cases, Bool-cases, leb, Bool, not, ◌&&◌,
}
use agentless_monitoring.Common.Assoc.{
  lookup, insert, insert-Distinct, lookup-insert_self, lookup-insert_ne, length-insert_present,
  length-insert-le,
}
use agentless_monitoring.Server.Limiter.{
  AttemptRecord, Records, record_or_zero, exists, recent, maximum_limiter_keys, allow_attempt,
  count_attempt,
}
use agentless_monitoring.Server.Limiter.Records.{
  count_recent, attempts_of, keep_later, count_append, All-keep, All-le_trans, Fits, Inv, Covers,
  Fits-mono, Inv-mono,
}

module _ (records : Records) (key : Bytes) (window limit now : ℕ) where
  -- What is left of the key's attempts when the attempt is counted.
  abbrev pub kept : List ℕ
  kept = keep (recent window now) (attempts_of key records)

  abbrev pub HasRoom : Type 0
  HasRoom =
      ((r : AttemptRecord) × (lookup bytes_discrete key records ≡ some r))
      ⊎ (length records < maximum_limiter_keys)

  abbrev pub Outcome : Records × Bool → Type 0
  Outcome result =
      ((lookup bytes_discrete key records ≡ none)
        × (maximum_limiter_keys ≤ length records)
        × (result ≡ (records, false)))
      ⊎ (HasRoom
          × (limit ≤ length kept)
          × (result ≡ (
            insert bytes_discrete key (record { attempts = kept; last_seen = now }) records,
            false,
          )))
      ⊎ (HasRoom
          × (length kept < limit)
          × (result ≡ (
            insert bytes_discrete key (record { attempts = kept ++ now ∷ []; last_seen = now })
                records,
            true,
          )))

  -- An attempt is turned away without a trace, turned away and noted, or admitted.
  count_attempt-Outcome : HasRoom → Outcome (count_attempt records key window limit now kept)
  unfolding count_attempt
  count_attempt-Outcome room = elim (Bool-cases (leb limit (length kept))) [
    | inl busy ↦ inr (inl (room, ground arith, ground arith))
    | inr free ↦ inr (inr (room, ground arith, ground arith))
  ]

room_of :
    (records : Records) (key : Bytes)
    → not (exists (lookup bytes_discrete key records)) && leb maximum_limiter_keys (length records)
      ≡ false
    → HasRoom records key 0 0 0
room_of records key free = elim (Option-cases (lookup bytes_discrete key records)) [
  | inl e ↦ inr (ground arith)
  | inr found ↦ inl found
]

full_of :
    (records : Records) (key : Bytes)
    → not (exists (lookup bytes_discrete key records)) && leb maximum_limiter_keys (length records)
      ≡ true
    → (lookup bytes_discrete key records ≡ none) × (maximum_limiter_keys ≤ length records)
full_of records key full = elim (Option-cases (lookup bytes_discrete key records)) [
  | inl e ↦ (e, ground arith)
  | inr (r, e) ↦ absurd (ground arith)
]

-- An attempt is turned away without a trace, turned away and noted, or admitted.
pub allow_attempt-Outcome :
    (records : Records) (key : Bytes) (window limit now : ℕ)
    → Outcome records key window limit now (allow_attempt records key window limit now)
unfolding allow_attempt
allow_attempt-Outcome records key window limit now =
    elim (Bool-cases (
      not (exists (lookup bytes_discrete key records))
      && leb maximum_limiter_keys (length records))) [
        | inl full ↦ let (missing, many) = full_of records key full in inl (missing, many, rw full)
        | inr free ↦
            rw free (count_attempt-Outcome records key window limit now (room_of records key free))
      ]

Fits-refused :
    (window limit now : ℕ) (r : AttemptRecord) {t : ℕ}
    → t ≤ now
    → Fits limit t r
    → Fits limit now (record { attempts = keep (recent window now) r.attempts; last_seen = now })
Fits-refused window limit now r h f = record {
  few = omega (arith, length-keep-le (recent window now) r.attempts, f.few);
  seen =
      All-le_trans r.last_seen now (keep (recent window now) r.attempts) (omega (arith, f.past))
        (All-keep r.last_seen window now r.attempts f.seen);
  past = omega arith;
}

Fits-admitted :
    (window limit now : ℕ) (r : AttemptRecord) {t : ℕ}
    → t ≤ now
    → length (keep (recent window now) r.attempts) < limit
    → Fits limit t r
    → Fits limit now
        (record { attempts = keep (recent window now) r.attempts ++ now ∷ []; last_seen = now })
Fits-admitted window limit now r h free f =
    let old = Fits-refused window limit now r h f in
    record {
      few = omega (arith, length-append {0} (keep (recent window now) r.attempts) (now ∷ []), free);
      seen =
          All-append (λ t. t ≤ now) (keep (recent window now) r.attempts) (now ∷ []) old.seen
            (omega arith, tt);
      past = omega arith;
    }

-- Writing a record that fits keeps the invariant of the map.
write-Inv :
    (records : Records) (key : Bytes) (limit now : ℕ) (r : AttemptRecord) {t : ℕ}
    → t ≤ now
    → HasRoom records key 0 0 0
    → Fits limit now r
    → Inv limit t records
    → Inv limit now (insert bytes_discrete key r records)
write-Inv records key limit now r {t} h room f i = record {
  distinct = insert-Distinct bytes_discrete key r records i.distinct;
  bounded = bounded room;
  fits = fits;
}
  where
    bounded :
        HasRoom records key 0 0 0
        → length (insert bytes_discrete key r records) ≤ maximum_limiter_keys
    bounded (inl (w, e)) =
        omega (arith, length-insert_present bytes_discrete key r w records e, i.bounded)
    bounded (inr e) = omega (arith, length-insert-le bytes_discrete key r records)

    fits :
        (k : Bytes)
        → Fits limit now
            (record_or_zero (lookup bytes_discrete k (insert bytes_discrete key r records)))
    fits k = elim (bytes_discrete k key) [
      | yes e ↦ rw (e, lookup-insert_self bytes_discrete key r records) f
      | no e ↦
          rw (lookup-insert_ne bytes_discrete key k r records e)
            (Fits-mono limit (record_or_zero (lookup bytes_discrete k records)) h (i.fits k))
    ]

-- Every attempt keeps the invariant of its map.
pub allow_attempt-Inv :
    (records : Records) (key : Bytes) (window limit now : ℕ) {t : ℕ}
    → t ≤ now
    → Inv limit t records
    → Inv limit now (allow_attempt records key window limit now).0
allow_attempt-Inv records key window limit now h i =
    elim (allow_attempt-Outcome records key window limit now) [
      | inl (_, _, e) ↦ rw e (Inv-mono limit records h i)
      | inr (inl (room, _, e)) ↦ rw e (
          write-Inv records key limit now _ h room (Fits-refused window limit now _ h (i.fits key))
            i)
      | inr (inr (room, free, e)) ↦ rw e (
          write-Inv records key limit now _ h room
            (Fits-admitted window limit now _ h free (i.fits key)) i)
    ]

attempts_of-insert_self :
    (key : Bytes) (r : AttemptRecord) (records : Records)
    → attempts_of key (insert bytes_discrete key r records) ≡ r.attempts
attempts_of-insert_self key r records =
    ap (λ o. (record_or_zero o).attempts) (lookup-insert_self bytes_discrete key r records)

attempts_of-insert_ne :
    (key q : Bytes) (r : AttemptRecord) (records : Records)
    → q ≢ key
    → attempts_of q (insert bytes_discrete key r records) ≡ attempts_of q records
attempts_of-insert_ne key q r records h =
    ap (λ o. (record_or_zero o).attempts) (lookup-insert_ne bytes_discrete key q r records h)

count_kept :
    (window now n : ℕ) (xs more : List ℕ)
    → now ≤ n
    → count_recent window n xs + count_recent window n more
      ≡ count_recent window n (keep (recent window now) xs ++ more)
count_kept window now n xs more h =
    omega (
      arith,
      count_append window n (keep (recent window now) xs) more,
      keep_later window now n xs h,
    )

-- A write that keeps the recent attempts changes no count of a window that ends later.
write-Covers :
    (records : Records) (key q : Bytes) (window now : ℕ) (r : AttemptRecord) (more hist : List ℕ)
    (t : ℕ)
    → t ≤ now
    → r.attempts ≡ keep (recent window now) (attempts_of key records) ++ more
    → Covers window t q records hist
    → Covers window now q (insert bytes_discrete key r records) hist
write-Covers records key q window now r more hist t h a c n m = elim (bytes_discrete q key) [
  | yes e ↦
      subst
        (λ k.
          count_recent window n hist
          ≤ count_recent window n (attempts_of k (insert bytes_discrete key r records)))
        (sym e)
        (rw (attempts_of-insert_self key r records, a)
          (omega (
            arith,
            count_kept window now n (attempts_of key records) more m,
            subst (λ k. Covers window t k records hist) e c n (omega arith),
          )))
  | no e ↦ rw (attempts_of-insert_ne key q r records e) (c n (omega arith))
]

-- No attempt takes from the record of any key a time that a later window can still count.
pub allow_attempt-Covers :
    (records : Records) (key q : Bytes) (window limit now : ℕ) (hist : List ℕ) {t : ℕ}
    → t ≤ now
    → Covers window t q records hist
    → Covers window now q (allow_attempt records key window limit now).0 hist
allow_attempt-Covers records key q window limit now hist {t} h c =
    elim (allow_attempt-Outcome records key window limit now) [
      | inl (_, _, e) ↦ rw e (λ n m. c n (omega arith))
      | inr (inl (_, _, e)) ↦
          rw e (write-Covers records key q window now _ [] hist t h (sym (append-nil _)) c)
      | inr (inr (_, _, e)) ↦
          rw e (write-Covers records key q window now _ (now ∷ []) hist t h refl c)
    ]

-- An attempt that is admitted is noted in its key's record.
pub allow_attempt-Covers_admitted :
    (records : Records) (key : Bytes) (window limit now : ℕ) (hist : List ℕ) {t : ℕ}
    → t ≤ now
    → Covers window t key records hist
    → (allow_attempt records key window limit now).1 ≡ true
    → Covers window now key (allow_attempt records key window limit now).0 (hist ++ now ∷ [])
allow_attempt-Covers_admitted records key window limit now hist h c =
    elim (allow_attempt-Outcome records key window limit now) [
      | inl (_, _, e) ↦ rw e (λ x. cc)
      | inr (inl (_, _, e)) ↦ rw e (λ x. cc)
      | inr (inr (_, _, e)) ↦ rw e (λ _ n m. rw (attempts_of-insert_self key) (
          omega (
            arith,
            count_kept window now n (attempts_of key records) (now ∷ []) m,
            count_append window n hist (now ∷ []),
            c n (omega arith),
          )))
    ]

-- An attempt is admitted exactly when its key has a record or the map has room for one, and fewer
-- than `limit` of the key's attempts lie in the window that ends now.
pub allow_attempt_iff :
    (records : Records) (key : Bytes) (window limit now : ℕ)
    → ((allow_attempt records key window limit now).1 ≡ true) ↔ (
        HasRoom records key window limit now
        × (count_recent window now (attempts_of key records) < limit))
allow_attempt_iff records key window limit now =
    elim (allow_attempt-Outcome records key window limit now) [
      | inl (missing, full, e) ↦ rw e (λ x. cc, λ h. absurd (no_room h.0 missing full))
      | inr (inl (_, busy, e)) ↦ rw e (λ x. cc, λ h. absurd (omega (arith, h.1)))
      | inr (inr (room, free, e)) ↦ rw e (λ x. (room, free), λ h. refl)
    ]
  where
    no_room :
        HasRoom records key window limit now
        → lookup bytes_discrete key records ≡ none
        → maximum_limiter_keys ≤ length records
        → ⊥
    no_room (inl (r, e)) missing full = cc
    no_room (inr e) missing full = omega arith
