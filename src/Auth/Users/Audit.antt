-- ===== src/Auth/Users/Audit.antt =====
-- The audit log of logins: what a login writes, and how many failed ones are kept.
use agentless_monitoring.Common.{
  ℕ, ◌+◌, ◌≤◌, ◌<◌, ◌≡◌, ◌⊎◌, inl, inr, refl, ap, sym, ◌∙◌, subst, Bool, not, ◌||◌, List, [], ◌∷◌,
  ◌++◌, append_assoc, Option, some, Bytes, bytes_discrete, codes, ltb, length, keep, All,
  All-append, arith, Bool-cases,
}
use Prim.Native.Nat.{min}
use agentless_monitoring.Storage.Tables.{Db, AuditRow, largest_id}
use agentless_monitoring.Auth.Users.{
  Faults, record_failure, record_success, with_login, refuse_login, accept_login, authenticate,
  is_failed_login, newer, prune_failed_logins, maximum_failed_login_audit_events,
}
use agentless_monitoring.Auth.Users.Logins.{broken, refused, accepted, authenticate-Ending}

-- Row ids go up, as they do in the order of insertion.
abbrev pub IsAscending : List AuditRow → Type 0
IsAscending [] = Unit
IsAscending (r ∷ rows) = All (λ (s : AuditRow). r.id < s.id) rows × IsAscending rows

abbrev pub failed_logins : List AuditRow → ℕ
failed_logins rows = length (keep is_failed_login rows)

newer-append : (r : AuditRow) (xs ys : List AuditRow) → newer r (xs ++ ys) ≡ newer r xs + newer r ys
newer-append r [] ys = omega arith
newer-append r (x ∷ xs) ys = ground (arith, newer-append r xs ys)

newer-older :
    (r : AuditRow) (xs : List AuditRow) → All (λ (s : AuditRow). s.id ≤ r.id) xs → newer r xs ≡ 0
newer-older r [] h = refl
newer-older r (x ∷ xs) h = ground (arith, h.0, newer-older r xs h.1)

newer-later :
    (r : AuditRow) (xs : List AuditRow)
    → All (λ (s : AuditRow). r.id < s.id) xs
    → newer r xs ≡ failed_logins xs
newer-later r [] h = refl
newer-later r (x ∷ xs) h = ground (arith, h.0, newer-later r xs h.1)

-- The rows that a prune leaves of the end of the table.
abbrev left : ℕ → List AuditRow → List AuditRow → List AuditRow
left limit rows back = keep (λ r. not (is_failed_login r) || ltb (newer r rows) limit) back

at_split :
    (P : AuditRow → Type 0) (front : List AuditRow) (r : AuditRow) (back : List AuditRow)
    → All P (front ++ r ∷ back)
    → P r
at_split P [] r back h = h.0
at_split P (x ∷ front) r back h = at_split P front r back h.1

older-front :
    (front : List AuditRow) (r : AuditRow) (back : List AuditRow)
    → IsAscending (front ++ r ∷ back)
    → All (λ (s : AuditRow). s.id ≤ r.id) front
older-front [] r back h = tt
older-front (x ∷ front) r back h =
    let below = at_split (λ (s : AuditRow). x.id < s.id) front r back h.0 in
    (omega arith, older-front front r back h.1)

later-back :
    (front : List AuditRow) (r : AuditRow) (back : List AuditRow)
    → IsAscending (front ++ r ∷ back)
    → All (λ (s : AuditRow). r.id < s.id) back
later-back [] r back h = h.0
later-back (x ∷ front) r back h = later-back front r back h.1

newer-at :
    (front : List AuditRow) (r : AuditRow) (back : List AuditRow)
    → IsAscending (front ++ r ∷ back)
    → newer r (front ++ r ∷ back) ≡ failed_logins back
newer-at front r back h =
    newer-append r front (r ∷ back)
    ∙ ground (
      arith,
      newer-older r front (older-front front r back h),
      newer-later r back (later-back front r back h),
    )

-- Of the end of the table stay as many failed logins as the limit allows.
failed_logins-left :
    (limit : ℕ) (rows front back : List AuditRow)
    → rows ≡ front ++ back
    → IsAscending rows
    → failed_logins (left limit rows back) ≡ min limit (failed_logins back)
failed_logins-left limit rows front [] e h = omega arith
failed_logins-left limit rows front (r ∷ back) e h =
    let rest : failed_logins (left limit rows back) ≡ min limit (failed_logins back) =
      failed_logins-left limit rows (front ++ r ∷ []) back
        (e ∙ sym (append_assoc front (r ∷ []) back)) h in
    let place : newer r rows ≡ failed_logins back =
      ap (newer r) e ∙ newer-at front r back (subst IsAscending e h) in
    elim (Bool-cases (is_failed_login r)) [
      | inl f ↦ ground (arith, f, place, rest)
      | inr f ↦ ground (arith, f, place, rest)
    ]

All-kept :
    (P : AuditRow → Type 0) (p : AuditRow → Bool) (rows : List AuditRow)
    → All P rows
    → All P (keep p rows)
All-kept P p [] h = tt
All-kept P p (r ∷ rows) h = elim (Bool-cases (p r)) [
  | inl e ↦ rw e (h.0, All-kept P p rows h.1)
  | inr e ↦ rw e (All-kept P p rows h.1)
]

keep-IsAscending :
    (p : AuditRow → Bool) (rows : List AuditRow) → IsAscending rows → IsAscending (keep p rows)
keep-IsAscending p [] h = tt
keep-IsAscending p (r ∷ rows) h = elim (Bool-cases (p r)) [
  | inl e ↦ rw e (All-kept (λ (s : AuditRow). r.id < s.id) p rows h.0, keep-IsAscending p rows h.1)
  | inr e ↦ rw e (keep-IsAscending p rows h.1)
]

abbrev biggest : List AuditRow → ℕ
biggest rows = largest_id (λ (s : AuditRow). s.id) rows

append-IsAscending :
    (rows : List AuditRow) (r : AuditRow)
    → biggest rows < r.id
    → IsAscending rows
    → IsAscending (rows ++ r ∷ [])
append-IsAscending [] r h a = (tt, tt)
append-IsAscending (x ∷ rows) r h a = (
  All-append (λ (s : AuditRow). x.id < s.id) rows (r ∷ []) a.0 (ground arith, tt),
  append-IsAscending rows r (ground arith) a.1,
)

failed_logins-append :
    (xs ys : List AuditRow) → failed_logins (xs ++ ys) ≡ failed_logins xs + failed_logins ys
failed_logins-append [] ys = omega arith
failed_logins-append (x ∷ xs) ys = ground (arith, failed_logins-append xs ys)

-- The audit log is in the order of its ids, and has no more failed logins than are to be kept.
pub record IsBounded (rows : List AuditRow) : Type 0 where
  pub ascending : IsAscending rows
  pub bounded : failed_logins rows ≤ maximum_failed_login_audit_events

prune-IsBounded :
    (rows : List AuditRow)
    → IsAscending rows
    → IsBounded (prune_failed_logins maximum_failed_login_audit_events rows)
unfolding prune_failed_logins
prune-IsBounded rows h = record {
  ascending = keep-IsAscending _ rows h;
  bounded =
      let count = failed_logins-left maximum_failed_login_audit_events rows [] rows refl h in
      omega (arith, count);
}

module _ (fails : Faults) (user_id : Option ℕ) (source_ip : Bytes) (db : Db) where
  noted : Bytes → List AuditRow
  noted outcome = (with_login user_id source_ip outcome db).audit_events

  noted-IsAscending : (outcome : Bytes) → IsAscending db.audit_events → IsAscending (noted outcome)
  unfolding noted
  noted-IsAscending outcome h = append-IsAscending db.audit_events _ (omega arith) h

  failure-events :
      ((record_failure fails user_id source_ip db).1.audit_events ≡ db.audit_events)
      ⊎ ((record_failure fails user_id source_ip db).1.audit_events
          ≡ prune_failed_logins maximum_failed_login_audit_events (noted (codes "failure")))
  unfolding record_failure noted
  failure-events = ground arith

  success-events :
      ((record_success fails user_id source_ip db).1.audit_events ≡ db.audit_events)
      ⊎ ((record_success fails user_id source_ip db).1.audit_events ≡ noted (codes "success"))
  unfolding record_success noted
  success-events = ground arith

  record_failure-IsBounded :
      IsBounded db.audit_events
      → IsBounded (record_failure fails user_id source_ip db).1.audit_events
  record_failure-IsBounded h = elim failure-events [
    | inl same ↦ subst IsBounded (sym same) h
    | inr pruned ↦
        subst IsBounded (sym pruned)
          (prune-IsBounded _ (noted-IsAscending (codes "failure") h.ascending))
  ]

  success_adds_none : failed_logins (noted (codes "success")) ≡ failed_logins db.audit_events
  unfolding noted bytes_discrete
  success_adds_none = failed_logins-append db.audit_events _ ∙ omega arith

  record_success-IsBounded :
      IsBounded db.audit_events
      → IsBounded (record_success fails user_id source_ip db).1.audit_events
  record_success-IsBounded h = elim success-events [
    | inl same ↦ subst IsBounded (sym same) h
    | inr added ↦ subst IsBounded (sym added) (record {
      ascending = noted-IsAscending (codes "success") h.ascending;
      bounded = omega (arith, success_adds_none, h.bounded);
    })
  ]

-- However a login ends, the audit log keeps its order, and at most 10000 failed logins.
pub authenticate-IsBounded :
    (id_key : Bytes → Bytes → ℕ → ℕ → ℕ → ℕ → Bytes) (version : ℕ) (fails : Faults)
    (username secret source_ip : Bytes) (db : Db)
    → IsBounded db.audit_events
    → IsBounded (authenticate id_key version fails username secret source_ip db).1.audit_events
unfolding refuse_login accept_login
authenticate-IsBounded id_key version fails username secret source_ip db h =
    elim (authenticate-Ending id_key version fails username secret source_ip db) [
      | broken e r ↦ subst (λ x. IsBounded x.1.audit_events) (sym r) h
      | refused user_id r ↦
          subst (λ x. IsBounded x.1.audit_events) (sym r)
            (record_failure-IsBounded fails user_id source_ip db h)
      | accepted u k r ↦
          subst (λ x. IsBounded x.1.audit_events) (sym r)
            (record_success-IsBounded fails (some u.id) source_ip db h)
    ]
