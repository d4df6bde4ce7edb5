-- ===== src/Common/Utf8.antt =====
-- The part of unicode/utf8 that the program calls.
use Prim.Native.Nat.{ℕ, zero, suc, ◌+◌}
use mathlib.Core.Bool.{Bool, true, false, ◌&&◌}
use mathlib.Core.List.{[], ◌∷◌}
use agentless_monitoring.Common.Tests.{ltb, leb, ◌==◌, if◌then◌else◌}
use agentless_monitoring.Common.Lists.{length, drop}
use agentless_monitoring.Common.Text.{Bytes}

abbrev between : ℕ → ℕ → ℕ → Bool
between low high c = leb low c && leb c high

-- The `n` bytes that continue a character.
abbrev continues : ℕ → Bytes → Bool
continues zero s = true
continues (suc n) [] = false
continues (suc n) (c ∷ s) = between 0x80 0xbf c && continues n s

-- A second byte in its own range, and `n` more.
abbrev second_in : ℕ → ℕ → ℕ → Bytes → Bool
second_in low high n [] = false
second_in low high n (c ∷ s) = between low high c && continues n s

-- The number of bytes after the first one, `c`, of a character in the shortest form; 4 if `c` and
-- what follows it encode none.
abbrev following : ℕ → Bytes → ℕ
following c s =
    if ltb c 0x80
    then 0
    else if between 0xc2 0xdf c
    then (if continues 1 s then 1 else 4)
    else if c == 0xe0
    then (if second_in 0xa0 0xbf 1 s then 2 else 4)
    else if c == 0xed
    then (if second_in 0x80 0x9f 1 s then 2 else 4)
    else if between 0xe1 0xef c
    then (if continues 2 s then 2 else 4)
    else if c == 0xf0
    then (if second_in 0x90 0xbf 2 s then 3 else 4)
    else if between 0xf1 0xf3 c
    then (if continues 3 s then 3 else 4)
    else if c == 0xf4
    then (if second_in 0x80 0x8f 2 s then 3 else 4)
    else 4

-- Each round takes a byte at least, so the length is enough fuel.
abbrev valid_from : ℕ → Bytes → Bool
valid_from zero s = true
valid_from (suc f) [] = true
valid_from (suc f) (c ∷ s) =
    let n = following c s in let rest = valid_from f (drop n s) in if n == 4 then false else rest

abbrev count_from : ℕ → Bytes → ℕ
count_from zero s = 0
count_from (suc f) [] = 0
count_from (suc f) (c ∷ s) =
    let n = following c s in
    let broken = count_from f s in
    let whole = count_from f (drop n s) in if n == 4 then 1 + broken else 1 + whole

-- utf8.ValidString
unfoldable pub valid_utf8 : Bytes → Bool
valid_utf8 s = valid_from (length s) s

-- utf8.RuneCountInString; a byte of no character counts as one.
unfoldable pub rune_count : Bytes → ℕ
rune_count s = count_from (length s) s
