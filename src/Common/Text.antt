-- ===== src/Common/Text.antt =====
-- Go strings: sequences of bytes, with the functions of package strings that the program calls.
use Prim.Native.Nat.{ℕ, zero, suc, ◌+◌, ◌/◌, ◌%◌}
use Prim.Native.Char.{code}
use Prim.Native.String.{String}
use mathlib.Core.Path.{◌≡◌, refl, ap}
use mathlib.Core.Bool.{Bool, true, false, ◌&&◌, ◌||◌}
use mathlib.Core.Option.{Option, none, some}
use mathlib.Core.List.{List, [], ◌∷◌, ◌++◌, reverse, map}
use native.Mathlib.Decide.{ℕ_discrete}
use agentless_monitoring.Common.Tests.{ltb, ◌==◌, if◌then◌else◌}
use agentless_monitoring.Common.Lists.{length, any}

abbrev pub Bytes : Type 0
Bytes = List ℕ

-- The bytes of an ASCII literal.
abbrev pub codes : String → Bytes
codes String.[] = []
codes (String.◌∷◌ c s) = code c ∷ codes s

abbrev head_eq : ℕ → Bytes → ℕ
head_eq d [] = d
head_eq d (x ∷ xs) = x

abbrev tail_eq : Bytes → Bytes
tail_eq [] = []
tail_eq (x ∷ xs) = xs

cons_discrete : {x y : ℕ} {xs ys : Bytes} → Dec (x ≡ y) → Dec (xs ≡ ys) → Dec (x ∷ xs ≡ y ∷ ys)
cons_discrete (yes p) (yes q) = yes (λ i. p i ∷ q i)
cons_discrete {x} (no p) r = no (λ e. p (ap (head_eq x) e))
cons_discrete (yes p) (no q) = no (λ e. q (ap tail_eq e))

-- `==` on strings.
unfoldable pub bytes_discrete : Discrete Bytes
unfolding cons_discrete ℕ_discrete
bytes_discrete [] [] = yes refl
bytes_discrete [] (y ∷ ys) = no (λ e. cc)
bytes_discrete (x ∷ xs) [] = no (λ e. cc)
bytes_discrete (x ∷ xs) (y ∷ ys) = cons_discrete (ℕ_discrete x y) (bytes_discrete xs ys)

-- What is left of a string behind a prefix that it has.
unfoldable pub strip_prefix : Bytes → Bytes → Option Bytes
strip_prefix [] s = some s
strip_prefix (p ∷ ps) [] = none
strip_prefix (p ∷ ps) (x ∷ s) = if p == x then strip_prefix ps s else none

-- strings.HasPrefix
unfoldable pub starts_with : Bytes → Bytes → Bool
unfolding strip_prefix
starts_with s p = elim (strip_prefix p s) [ none ↦ false | some _ ↦ true ]

-- The UTF-8 encodings of the characters that unicode.IsSpace accepts.
abbrev spaces : List Bytes
spaces =
    (9 ∷ [])
    ∷ (10 ∷ [])
    ∷ (11 ∷ [])
    ∷ (12 ∷ [])
    ∷ (13 ∷ [])
    ∷ (32 ∷ [])
    ∷ (0xc2 ∷ 0x85 ∷ [])
    ∷ (0xc2 ∷ 0xa0 ∷ [])
    ∷ (0xe1 ∷ 0x9a ∷ 0x80 ∷ [])
    ∷ (0xe2 ∷ 0x80 ∷ 0x80 ∷ [])
    ∷ (0xe2 ∷ 0x80 ∷ 0x81 ∷ [])
    ∷ (0xe2 ∷ 0x80 ∷ 0x82 ∷ [])
    ∷ (0xe2 ∷ 0x80 ∷ 0x83 ∷ [])
    ∷ (0xe2 ∷ 0x80 ∷ 0x84 ∷ [])
    ∷ (0xe2 ∷ 0x80 ∷ 0x85 ∷ [])
    ∷ (0xe2 ∷ 0x80 ∷ 0x86 ∷ [])
    ∷ (0xe2 ∷ 0x80 ∷ 0x87 ∷ [])
    ∷ (0xe2 ∷ 0x80 ∷ 0x88 ∷ [])
    ∷ (0xe2 ∷ 0x80 ∷ 0x89 ∷ [])
    ∷ (0xe2 ∷ 0x80 ∷ 0x8a ∷ [])
    ∷ (0xe2 ∷ 0x80 ∷ 0xa8 ∷ [])
    ∷ (0xe2 ∷ 0x80 ∷ 0xa9 ∷ [])
    ∷ (0xe2 ∷ 0x80 ∷ 0xaf ∷ [])
    ∷ (0xe2 ∷ 0x81 ∷ 0x9f ∷ [])
    ∷ (0xe3 ∷ 0x80 ∷ 0x80 ∷ [])
    ∷ []

strip_any : List Bytes → Bytes → Option Bytes
unfolding strip_prefix
strip_any [] s = none
strip_any (p ∷ ps) s = elim (strip_prefix p s) [ none ↦ strip_any ps s | some r ↦ some r ]

-- Each round takes off at least one byte, so the length of the string is enough fuel.
unfoldable pub drop_spaces : List Bytes → ℕ → Bytes → Bytes
unfolding strip_any
drop_spaces ps zero s = s
drop_spaces ps (suc n) s = elim (strip_any ps s) [ none ↦ s | some r ↦ drop_spaces ps n r ]

-- strings.TrimSpace
unfoldable pub trim_space : Bytes → Bytes
unfolding drop_spaces
trim_space s =
    let front = drop_spaces spaces (length s) s in
    reverse (drop_spaces (map reverse spaces) (length front) (reverse front))

-- strings.ContainsAny, for a set of ASCII characters.
unfoldable pub has_any : Bytes → Bytes → Bool
has_any s set = any (λ c. any (λ d. c == d) set) s

-- strings.Split at a separator of one byte; `cur` is the part that is being read.
unfoldable pub split_from : ℕ → Bytes → Bytes → List Bytes
split_from sep cur [] = cur ∷ []
split_from sep cur (c ∷ s) =
    let closed = cur ∷ split_from sep [] s in
    let longer = split_from sep (cur ++ c ∷ []) s in if c == sep then closed else longer

unfoldable pub split : ℕ → Bytes → List Bytes
unfolding split_from
split sep s = split_from sep [] s

-- strings.Join
unfoldable pub join : Bytes → List Bytes → Bytes
join sep [] = []
join sep (x ∷ []) = x
join sep (x ∷ y ∷ ys) = x ++ sep ++ join sep (y ∷ ys)

-- strconv.Itoa on a number; one digit a round, and `n` digits are enough for `n`.
unfoldable pub digits_of : ℕ → ℕ → Bytes
digits_of zero n = []
digits_of (suc f) n =
    let more = digits_of f (n / 10) ++ (48 + n % 10) ∷ [] in
    if ltb n 10 then (48 + n) ∷ [] else more

unfoldable pub itoa : ℕ → Bytes
unfolding digits_of
itoa n = digits_of (suc n) n

-- `<` on strings, and the order in which SQLite compares texts.
abbrev pub bytes_less : Bytes → Bytes → Bool
bytes_less s [] = false
bytes_less [] (y ∷ ys) = true
bytes_less (x ∷ xs) (y ∷ ys) = let rest = bytes_less xs ys in ltb x y || (x == y && rest)
