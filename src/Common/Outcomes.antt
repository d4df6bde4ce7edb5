-- ===== src/Common/Outcomes.antt =====
-- Go's pair of a value and an error, as a value: a call returns one of the two.
use mathlib.Core.Path.{◌≡◌, refl}
use native.Mathlib.Omega.{arith}
use mathlib.Core.Bool.{Bool, true, false}
use mathlib.Core.Option.{Option, none, some}
use mathlib.Core.Logic.{◌⊎◌, inl, inr}

pub data Result {ℓ} (E : Type 0) (A : Type ℓ) : Type ℓ where
  ok : A → Result E A
  err : E → Result E A

infixl 5 ◌>>=◌ ◌>>◌
abbrev pub ◌>>=◌ {ℓ κ} :
    {E : Type 0} {A : Type ℓ} {B : Type κ} → Result E A → (A → Result E B) → Result E B
ok a >>= f = f a
err e >>= f = err e

abbrev pub ◌>>◌ {ℓ} : {E : Type 0} {B : Type ℓ} → Result E (Unit {0}) → Result E B → Result E B
m >> k = m >>= λ _. k

-- `if bad { return err }`
abbrev pub refuse_if : {E : Type 0} → Bool → E → Result E (Unit {0})
refuse_if true e = err e
refuse_if false e = ok tt

-- `if err != nil { return e }` after a call whose only news is that it failed.
abbrev pub or_err {ℓ} : {E : Type 0} {A : Type ℓ} → Option A → E → Result E A
or_err none e = err e
or_err (some a) e = ok a

pub refuse_if-eq-ok {ℓ} :
    {E : Type 0} {A : Type ℓ} (bad : Bool) (e : E) (k : Result E A) {a : A}
    → (refuse_if bad e >> k) ≡ ok a
    → (bad ≡ false) × (k ≡ ok a)
refuse_if-eq-ok true e k h = absurd (ground arith)
refuse_if-eq-ok false e k h = (refl, h)

-- A sequence of two calls that succeeds has succeeded with both.
pub >>=-eq-ok {ℓ κ} :
    {E : Type 0} {X : Type ℓ} {Y : Type κ} (call : Result E X) (later : X → Result E Y) {y : Y}
    → (call >>= later) ≡ ok y
    → (x : X) × (call ≡ ok x) × (later x ≡ ok y)
>>=-eq-ok (err why) later h = cc
>>=-eq-ok (ok x) later h = (x, refl, h)

pub Result-cases :
    {E A : Type 0} → (r : Result E A) → ((e : E) × (r ≡ err e)) ⊎ ((a : A) × (r ≡ ok a))
Result-cases (err e) = inl (e, refl)
Result-cases (ok a) = inr (a, refl)

pub ok_inj {ℓ} : {E : Type 0} {A : Type ℓ} {a b : A} → Path (Result E A) (ok a) (ok b) → a ≡ b
ok_inj h = cc

pub err≢ok {ℓ} : {E : Type 0} {A : Type ℓ} {e : E} {a : A} → Path (Result E A) (err e) (ok a) → ⊥
err≢ok h = cc
