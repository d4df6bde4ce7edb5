-- ===== src/Common/Decimal.antt =====
-- Numbers in decimal, as package strconv reads them.
use Prim.Native.Nat.{ℕ, zero, suc, ◌+◌, ◌-◌, ◌*◌, ◌/◌, ◌%◌, ◌^◌, ◌<◌, ◌≤◌}
use mathlib.Core.Path.{◌≡◌, refl, ◌∙◌, ap}
use mathlib.Core.Bool.{◌||◌}
use mathlib.Core.Option.{Option, none, some}
use mathlib.Core.List.{[], ◌∷◌, ◌++◌}
use mathlib.Core.Logic.{inl, inr}
use native.Mathlib.Omega.{arith}
use agentless_monitoring.Common.Tests.{ltb, ◌==◌, if◌then◌else◌, Bool-cases}
use agentless_monitoring.Common.Lists.{All, All-append}
use agentless_monitoring.Common.Text.{Bytes, itoa, digits_of}
use agentless_monitoring.Common.Int.{ℤ, pos, negsuc}

-- The number that `n` and some more digits spell.
abbrev pub decimal_from : ℕ → Bytes → Option ℕ
decimal_from n [] = some n
decimal_from n (c ∷ s) =
    let rest = decimal_from (n * 10 + (c - 48)) s in if ltb c 48 || ltb 57 c then none else rest

abbrev pub within : ℕ → Option ℕ → Option ℕ
within bound none = none
within bound (some n) = if ltb n bound then some n else none

-- strconv.ParseUint in base 10, for a result below `bound`.
abbrev pub parse_uint : ℕ → Bytes → Option ℕ
parse_uint bound [] = none
parse_uint bound (c ∷ s) = within bound (decimal_from 0 (c ∷ s))

abbrev positive : Option ℕ → Option ℤ
positive none = none
positive (some n) = some (pos n)

abbrev negative : Option ℕ → Option ℤ
negative none = none
negative (some zero) = some (pos 0)
negative (some (suc n)) = some (negsuc n)

-- strconv.Atoi, and ParseInt in base 10 and 64 bits: an optional sign, and digits.
abbrev pub parse_int : Bytes → Option ℤ
parse_int [] = none
parse_int (c ∷ s) =
    if c == 43
    then positive (parse_uint (2 ^ 63) s)
    else if c == 45
    then negative (parse_uint (2 ^ 63 + 1) s)
    else positive (parse_uint (2 ^ 63) (c ∷ s))

abbrev beyond : ℤ → Option ℕ → ℤ
beyond limit none = pos 0
beyond limit (some n) = limit

abbrev out_of_range : Bytes → ℤ
out_of_range [] = pos 0
out_of_range (c ∷ s) =
    if c == 43
    then beyond (pos (2 ^ 63 - 1)) (decimal_from 0 s)
    else if c == 45
    then beyond (negsuc (2 ^ 63 - 1)) (decimal_from 0 s)
    else beyond (pos (2 ^ 63 - 1)) (decimal_from 0 (c ∷ s))

-- The value of ParseInt when its error is passed over: 0, or the nearest number of 64 bits.
abbrev pub int_value : Bytes → ℤ
int_value s = elim (parse_int s) [ some z ↦ z | none ↦ out_of_range s ]

abbrev continue_with : Bytes → Option ℕ → Option ℕ
continue_with s none = none
continue_with s (some n) = decimal_from n s

decimal_from-append :
    (n : ℕ) (s t : Bytes) → decimal_from n (s ++ t) ≡ continue_with t (decimal_from n s)
decimal_from-append n [] t = refl
decimal_from-append n (c ∷ s) t = elim (Bool-cases (ltb c 48 || ltb 57 c)) [
  | inl e ↦ rw e refl
  | inr e ↦ rw e (decimal_from-append (n * 10 + (c - 48)) s t)
]

-- A digit.
abbrev pub IsDigit : ℕ → Type 0
IsDigit c = (48 ≤ c) × (c ≤ 57)

digits_of-IsDigit : (f n : ℕ) → All IsDigit (digits_of f n)
unfolding digits_of
digits_of-IsDigit zero n = tt
digits_of-IsDigit (suc f) n = elim (Bool-cases (ltb n 10)) [
  | inl e ↦ rw e ((omega arith, ground arith), tt)
  | inr e ↦ rw e (
      All-append IsDigit (digits_of f (n / 10)) ((48 + n % 10) ∷ []) (digits_of-IsDigit f (n / 10))
        ((omega arith, omega arith), tt))
]

pub itoa-IsDigit : (n : ℕ) → All IsDigit (itoa n)
unfolding itoa
itoa-IsDigit n = digits_of-IsDigit (suc n) n

append-snoc : (s : Bytes) (c : ℕ) → (d : ℕ) × (t : Bytes) × (s ++ c ∷ [] ≡ d ∷ t)
append-snoc [] c = (c, [], refl)
append-snoc (d ∷ s) c = (d, s ++ c ∷ [], refl)

digits_of-cons : (f n : ℕ) → (c : ℕ) × (s : Bytes) × (digits_of (suc f) n ≡ c ∷ s)
unfolding digits_of
digits_of-cons f n = elim (Bool-cases (ltb n 10)) [
  | inl e ↦ (48 + n, [], rw e refl)
  | inr e ↦ let (d, t, same) = append-snoc (digits_of f (n / 10)) (48 + n % 10) in (d, t, rw e same)
]

-- A number has a first digit.
pub itoa-cons : (n : ℕ) → (c : ℕ) × (s : Bytes) × (itoa n ≡ c ∷ s)
unfolding itoa
itoa-cons n = digits_of-cons n n

last_digit : (a n : ℕ) → a ≡ n / 10 → decimal_from a ((48 + n % 10) ∷ []) ≡ some n
last_digit a n h = ground arith

decimal_from-digits_of : (f n : ℕ) → n < f → decimal_from 0 (digits_of f n) ≡ some n
unfolding digits_of
decimal_from-digits_of zero n h = absurd (omega arith)
decimal_from-digits_of (suc f) n h = elim (Bool-cases (ltb n 10)) [
  | inl e ↦ rw e (ground arith)
  | inr e ↦ rw e (
      decimal_from-append 0 (digits_of f (n / 10)) ((48 + n % 10) ∷ [])
      ∙ ap (continue_with ((48 + n % 10) ∷ [])) (decimal_from-digits_of f (n / 10) (ground arith))
      ∙ last_digit (n / 10) n refl)
]

parse_uint-of :
    (bound n : ℕ) (s : Bytes)
    → decimal_from 0 s ≡ some n
    → 0 < n
    → n < bound
    → parse_uint bound s ≡ some n
parse_uint-of bound n [] e p h = absurd (ground arith)
parse_uint-of bound n (c ∷ s) e p h = rw e (ground arith)

-- What itoa prints reads back, if it is not zero.
pub parse_uint-itoa : (bound n : ℕ) → 0 < n → n < bound → parse_uint bound (itoa n) ≡ some n
unfolding itoa
parse_uint-itoa bound n p h =
    parse_uint-of bound n (digits_of (suc n) n) (decimal_from-digits_of (suc n) n (omega arith)) p h
