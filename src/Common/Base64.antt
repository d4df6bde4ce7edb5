-- ===== src/Common/Base64.antt =====
-- The part of encoding/base64 that the program calls: the unpadded encodings, for the standard and
-- the URL alphabet, and the strict decoding of the standard one.
use Prim.Native.Nat.{ℕ, ◌+◌, ◌-◌, ◌*◌, ◌/◌, ◌%◌, ◌<◌, ◌≤◌}
use mathlib.Core.Path.{◌≡◌, refl, ◌∙◌, ap}
use mathlib.Core.Bool.{Bool, false, not, ◌&&◌, ◌||◌}
use mathlib.Core.Option.{Option, none, some}
use mathlib.Core.List.{List, [], ◌∷◌, map}
use mathlib.Core.Logic.{◌≢◌}
use native.Mathlib.Omega.{arith}
use agentless_monitoring.Common.Tests.{ltb, leb, ◌==◌, if◌then◌else◌}
use agentless_monitoring.Common.Lists.{All, keep, length}
use agentless_monitoring.Common.Text.{Bytes}

-- The character of six bits; the last two of the alphabet are arguments.
abbrev letter : ℕ → ℕ → ℕ → ℕ
letter c62 c63 n =
    if ltb n 26
    then n + 65
    else if ltb n 52
    then n + 71
    else if ltb n 62
    then n - 4
    else if n == 62
    then c62
    else c63

-- The six-bit groups of a sequence of bytes, the last one filled up with zeros.
abbrev sextets : Bytes → List ℕ
sextets [] = []
sextets (a ∷ []) = a / 4 ∷ a % 4 * 16 ∷ []
sextets (a ∷ b ∷ []) = a / 4 ∷ (a % 4 * 16 + b / 16) ∷ b % 16 * 4 ∷ []
sextets (a ∷ b ∷ c ∷ s) = a / 4 ∷ (a % 4 * 16 + b / 16) ∷ (b % 16 * 4 + c / 64) ∷ c % 64 ∷ sextets s

-- base64.RawStdEncoding.EncodeToString
unfoldable pub raw_std_encode : Bytes → Bytes
raw_std_encode s = map (letter 43 47) (sextets s)

-- base64.RawURLEncoding.EncodeToString
unfoldable pub raw_url_encode : Bytes → Bytes
raw_url_encode s = map (letter 45 95) (sextets s)

abbrev between : ℕ → ℕ → ℕ → Bool
between low high c = leb low c && leb c high

abbrev value : ℕ → Option ℕ
value c =
    if between 65 90 c
    then some (c - 65)
    else if between 97 122 c
    then some (c - 71)
    else if between 48 57 c
    then some (c + 4)
    else if c == 43
    then some 62
    else if c == 47
    then some 63
    else none

abbrev prepend : Option ℕ → Option (List ℕ) → Option (List ℕ)
prepend none rest = none
prepend (some n) none = none
prepend (some n) (some ns) = some (n ∷ ns)

abbrev values : Bytes → Option (List ℕ)
values [] = some []
values (c ∷ s) = prepend (value c) (values s)

abbrev prepend_bytes : ℕ → ℕ → ℕ → Option Bytes → Option Bytes
prepend_bytes a b c none = none
prepend_bytes a b c (some s) = some (a ∷ b ∷ c ∷ s)

-- A strict decoding refuses a lone group and bits left over that are not zero.
abbrev from_sextets : List ℕ → Option Bytes
from_sextets [] = some []
from_sextets (x ∷ []) = none
from_sextets (x ∷ y ∷ []) = if y % 16 == 0 then some ((x * 4 + y / 16) ∷ []) else none
from_sextets (x ∷ y ∷ z ∷ []) =
    if z % 4 == 0 then some ((x * 4 + y / 16) ∷ (y % 16 * 16 + z / 4) ∷ []) else none
from_sextets (x ∷ y ∷ z ∷ w ∷ s) =
    prepend_bytes (x * 4 + y / 16) (y % 16 * 16 + z / 4) (z % 4 * 64 + w) (from_sextets s)

-- The decoder passes over line ends, also a strict one.
abbrev is_line_end : ℕ → Bool
is_line_end c = c == 10 || c == 13

abbrev decode_values : Option (List ℕ) → Option Bytes
decode_values none = none
decode_values (some ns) = from_sextets ns

-- base64.RawStdEncoding.Strict().DecodeString
unfoldable pub raw_std_decode : Bytes → Option Bytes
raw_std_decode s = decode_values (values (keep (λ c. not (is_line_end c)) s))

abbrev pub IsByte : ℕ → Type 0
IsByte c = c < 256

sextets-bounded : (s : Bytes) → All IsByte s → All (λ n. n < 64) (sextets s)
sextets-bounded [] h = tt
sextets-bounded (a ∷ []) h = (omega (arith, h.0), (omega (arith, h.0), tt))
sextets-bounded (a ∷ b ∷ []) h =
    (omega (arith, h.0), (omega (arith, h.0, h.1.0), (omega (arith, h.1.0), tt)))
sextets-bounded (a ∷ b ∷ c ∷ s) h = (
  omega (arith, h.0),
  (
    omega (arith, h.0, h.1.0),
    (omega (arith, h.1.0, h.1.1.0), (omega arith, sextets-bounded s h.1.1.1)),
  ),
)

from_sextets-sextets : (s : Bytes) → All IsByte s → from_sextets (sextets s) ≡ some s
from_sextets-sextets [] h = refl
from_sextets-sextets (a ∷ []) h = ground arith
from_sextets-sextets (a ∷ b ∷ []) h = ground (arith, h.0, h.1.0)
from_sextets-sextets (a ∷ b ∷ c ∷ s) h =
    ground (arith, h.0, h.1.0, h.1.1.0, from_sextets-sextets s h.1.1.1)

value-letter : (n : ℕ) → n < 64 → value (letter 43 47 n) ≡ some n
value-letter n h = ground arith

abbrev IsPrintable : ℕ → Type 0
IsPrintable c = (is_line_end c ≡ false) × (c ≢ 36)

letter-IsPrintable : (n : ℕ) → n < 64 → IsPrintable (letter 43 47 n)
letter-IsPrintable n h = (ground arith, ground arith)

values-letters : (ns : List ℕ) → All (λ n. n < 64) ns → values (map (letter 43 47) ns) ≡ some ns
values-letters [] h = refl
values-letters (n ∷ ns) h = rw (value-letter n h.0, values-letters ns h.1) refl

keep-letters :
    (ns : List ℕ)
    → All (λ n. n < 64) ns
    → keep (λ c. not (is_line_end c)) (map (letter 43 47) ns) ≡ map (letter 43 47) ns
keep-letters [] h = refl
keep-letters (n ∷ ns) h = rw ((letter-IsPrintable n h.0).0, keep-letters ns h.1) refl

-- What the encoder writes, the strict decoder reads back.
pub raw_std_decode-encode : (s : Bytes) → All IsByte s → raw_std_decode (raw_std_encode s) ≡ some s
unfolding raw_std_encode raw_std_decode
raw_std_decode-encode s h =
    ap (λ t. decode_values (values t)) (keep-letters (sextets s) (sextets-bounded s h))
    ∙ ap decode_values (values-letters (sextets s) (sextets-bounded s h))
    ∙ from_sextets-sextets s h

map-letters : (ns : List ℕ) → All (λ n. n < 64) ns → All (λ c. c ≢ 36) (map (letter 43 47) ns)
map-letters [] h = tt
map-letters (n ∷ ns) h = ((letter-IsPrintable n h.0).1, map-letters ns h.1)

-- No letter of the alphabet is a dollar sign.
pub raw_std_encode-no_dollar : (s : Bytes) → All IsByte s → All (λ c. c ≢ 36) (raw_std_encode s)
unfolding raw_std_encode
raw_std_encode-no_dollar s h = map-letters (sextets s) (sextets-bounded s h)

length-map : (f : ℕ → ℕ) (ns : List ℕ) → length (map f ns) ≡ length ns
length-map f [] = refl
length-map f (n ∷ ns) = omega (arith, length-map f ns)

length-sextets :
    (s : Bytes) → (length s ≤ length (sextets s)) × (3 * length (sextets s) ≤ 4 * length s + 2)
length-sextets [] = (omega arith, omega arith)
length-sextets (a ∷ []) = (omega arith, omega arith)
length-sextets (a ∷ b ∷ []) = (omega arith, omega arith)
length-sextets (a ∷ b ∷ c ∷ s) =
    let (low, high) = length-sextets s in (omega (arith, low), omega (arith, high))

-- An encoding is not shorter than what it encodes, and by no more than a third longer.
pub length-raw_url_encode :
    (s : Bytes)
    → (length s ≤ length (raw_url_encode s)) × (3 * length (raw_url_encode s) ≤ 4 * length s + 2)
unfolding raw_url_encode
length-raw_url_encode s =
    let (low, high) = length-sextets s in
    let same = length-map (letter 45 95) (sextets s) in
    (omega (arith, low, same), omega (arith, high, same))
