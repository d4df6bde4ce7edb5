-- ===== src/Storage/Transaction.antt =====
-- A transaction: `BeginTx`, a body on a copy of the tables, and `Commit`; the deferred `Rollback`
-- gives the tables back as they were when the body returns an error.
use agentless_monitoring.Common.{◌≡◌, refl, Result, ok, err}

abbrev pub transact {ℓ} : {E S : Type 0} {A : Type ℓ} → S → Result E (A × S) → Result E A × S
transact s (ok (a, s')) = (ok a, s')
transact s (err e) = (err e, s)

-- What holds before a transaction and after every one that commits, holds after the transaction.
pub transact-keeps {ℓ κ} :
    {E S : Type 0} {A : Type ℓ} (P : S → Type κ) (s : S) (r : Result E (A × S))
    → P s
    → ((a : A) (s' : S) → r ≡ ok (a, s') → P s')
    → P (transact s r).1
transact-keeps P s (ok (a, s')) p k = k a s' refl
transact-keeps P s (err e) p k = p

-- A transaction that succeeds has committed its body's tables.
pub transact-eq-ok {ℓ} :
    {E S : Type 0} {A : Type ℓ} (s : S) (r : Result E (A × S)) {a : A}
    → (transact s r).0 ≡ ok a
    → r ≡ ok (a, (transact s r).1)
transact-eq-ok s (ok (a, s')) h = cc
transact-eq-ok s (err e) h = cc

-- A transaction that fails gives the tables back.
pub transact-eq-err {ℓ} :
    {E S : Type 0} {A : Type ℓ} (s : S) (r : Result E (A × S)) {e : E}
    → (transact s r).0 ≡ err e
    → (transact s r).1 ≡ s
transact-eq-err s (ok (a, s')) h = cc
transact-eq-err s (err e) h = refl
