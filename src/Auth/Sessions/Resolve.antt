-- ===== src/Auth/Sessions/Resolve.antt =====
-- What the join of sessions and users finds.
use agentless_monitoring.Common.{
  some_inj, bytes_less, ◌≡◌, inl, inr, refl, ap, sym, ◌∙◌, subst, Bool, true, false, not, ◌&&◌,
  List, [], ◌∷◌, ◌++◌, none, some, Bytes, keep, any, find, Elem, arith, Bool-cases, Option-cases,
  if◌then◌else◌,
}
use agentless_monitoring.Net.{bytes_eq}
use agentless_monitoring.Storage.Tables.{UserRow, SessionRow}
use agentless_monitoring.Auth.Users.{is_active_user}
use agentless_monitoring.Auth.Sessions.{resolve}

-- What a query of the join finds: a session with that hash that has not expired, and its user, who
-- is active.
pub record IsResolved (hash now : Bytes) (users : List UserRow) (rows : List SessionRow)
    (r : SessionRow × UserRow) : Type 0 where
  pub row : Elem (r.0) rows
  pub hashed : bytes_eq (r.0).token_hash hash ≡ true
  pub unexpired : bytes_less now (r.0).expires_at ≡ true
  pub user : find (is_active_user (r.0).user_id) users ≡ some r.1

module _ (hash now : Bytes) (users : List UserRow) (s : SessionRow) (rows : List SessionRow) where
  abbrev fits : Bool
  fits = bytes_eq s.token_hash hash && bytes_less now s.expires_at

  resolve-skip : fits ≡ false → resolve hash now users (s ∷ rows) ≡ resolve hash now users rows
  unfolding resolve
  resolve-skip e = rw (e, resolve) refl

  resolve-no_user :
      fits ≡ true
      → find (is_active_user s.user_id) users ≡ none
      → resolve hash now users (s ∷ rows) ≡ resolve hash now users rows
  unfolding resolve
  resolve-no_user e o = rw (e, o, resolve) refl

  resolve-hit :
      (u : UserRow)
      → fits ≡ true
      → find (is_active_user s.user_id) users ≡ some u
      → resolve hash now users (s ∷ rows) ≡ some (s, u)
  unfolding resolve
  resolve-hit u e o = rw (e, o, resolve) refl

  IsResolved-later :
      (r : SessionRow × UserRow)
      → IsResolved hash now users rows r
      → IsResolved hash now users (s ∷ rows) r
  IsResolved-later r h = record {
    row = inr h.row;
    hashed = h.hashed;
    unexpired = h.unexpired;
    user = h.user;
  }

  IsResolved-here :
      (u : UserRow)
      → fits ≡ true
      → find (is_active_user s.user_id) users ≡ some u
      → IsResolved hash now users (s ∷ rows) (s, u)
  IsResolved-here u e o = record {
    row = inl refl;
    hashed = ground arith;
    unexpired = ground arith;
    user = o;
  }

pub resolve-IsResolved :
    (hash now : Bytes) (users : List UserRow) (rows : List SessionRow) (r : SessionRow × UserRow)
    → resolve hash now users rows ≡ some r
    → IsResolved hash now users rows r
unfolding resolve
resolve-IsResolved hash now users [] r h = absurd (ground arith)
resolve-IsResolved hash now users (s ∷ rows) r h =
    let from : resolve hash now users rows ≡ some r → IsResolved hash now users (s ∷ rows) r =
      λ rest.
        IsResolved-later hash now users s rows r (resolve-IsResolved hash now users rows r rest) in
    elim (Bool-cases (bytes_eq s.token_hash hash && bytes_less now s.expires_at)) [
      | inl e ↦ elim (Option-cases (find (is_active_user s.user_id) users)) [
        | inl o ↦ from (sym (resolve-no_user hash now users s rows e o) ∙ h)
        | inr (u, o) ↦
            subst (IsResolved hash now users (s ∷ rows))
              (some_inj (sym (resolve-hit hash now users s rows u e o) ∙ h))
              (IsResolved-here hash now users s rows u e o)
      ]
      | inr e ↦ from (sym (resolve-skip hash now users s rows e) ∙ h)
    ]

-- A row whose token has another hash is passed over.
pub resolve-other :
    (hash now : Bytes) (users : List UserRow) (rows : List SessionRow)
    → any (λ (s : SessionRow). bytes_eq s.token_hash hash) rows ≡ false
    → resolve hash now users rows ≡ none
unfolding resolve
resolve-other hash now users [] h = refl
resolve-other hash now users (s ∷ rows) h =
    resolve-skip hash now users s rows (ground arith)
    ∙ resolve-other hash now users rows (ground arith)

-- A new row behind rows with other hashes is found, if its user is active.
pub resolve-new :
    (hash now : Bytes) (users : List UserRow) (rows : List SessionRow) (s : SessionRow)
    (u : UserRow)
    → any (λ (r : SessionRow). bytes_eq r.token_hash hash) rows ≡ false
    → bytes_eq s.token_hash hash ≡ true
    → bytes_less now s.expires_at ≡ true
    → find (is_active_user s.user_id) users ≡ some u
    → resolve hash now users (rows ++ s ∷ []) ≡ some (s, u)
resolve-new hash now users [] s u h e l o = resolve-hit hash now users s [] u (ground arith) o
resolve-new hash now users (r ∷ rows) s u h e l o =
    resolve-skip hash now users r (rows ++ s ∷ []) (ground arith)
    ∙ resolve-new hash now users rows s u (ground arith) e l o

skip_both :
    (hash now : Bytes) (users : List UserRow) (s : SessionRow) (xs ys : List SessionRow)
    → resolve hash now users xs ≡ resolve hash now users ys
    → resolve hash now users (s ∷ xs) ≡ resolve hash now users (s ∷ ys)
unfolding resolve
skip_both hash now users s xs ys h =
    ap
      (λ o.
        if bytes_eq s.token_hash hash && bytes_less now s.expires_at
        then elim (find (is_active_user s.user_id) users) [ none ↦ o | some u ↦ some (s, u) ]
        else o)
      h

-- Deleting the rows of one hash leaves what is found for every other.
pub resolve-keep :
    (gone hash now : Bytes) (users : List UserRow) (rows : List SessionRow)
    → bytes_eq hash gone ≡ false
    → resolve hash now users (keep (λ (s : SessionRow). not (bytes_eq s.token_hash gone)) rows)
      ≡ resolve hash now users rows
resolve-keep gone hash now users [] h = refl
resolve-keep gone hash now users (s ∷ rows) h = elim (Bool-cases (bytes_eq s.token_hash gone)) [
  | inl e ↦ rw e (
      resolve-keep gone hash now users rows h
      ∙ sym (resolve-skip hash now users s rows (ground arith)))
  | inr e ↦ rw e (skip_both hash now users s _ rows (resolve-keep gone hash now users rows h))
]
