-- ===== src/Common/Splitting.antt =====
-- strings.Split undoes strings.Join.
use Prim.Native.Nat.{ℕ}
use mathlib.Core.Path.{◌≡◌, ◌∙◌, ap}
use mathlib.Core.Logic.{◌≢◌}
use mathlib.Core.List.{List, [], ◌∷◌, ◌++◌, append_assoc, append-nil}
use native.Mathlib.Omega.{arith}
use agentless_monitoring.Common.Lists.{All}
use agentless_monitoring.Common.Text.{Bytes, split, split_from, join}

abbrev pub IsWithout : ℕ → Bytes → Type 0
IsWithout sep s = All (λ c. c ≢ sep) s

pub All-imp : {P Q : ℕ → Type 0} (s : Bytes) → ((c : ℕ) → P c → Q c) → All P s → All Q s
All-imp [] f h = tt
All-imp (c ∷ s) f h = (f c h.0, All-imp s f h.1)

split_from-part :
    (sep : ℕ) (cur s rest : Bytes)
    → IsWithout sep s
    → split_from sep cur (s ++ sep ∷ rest) ≡ (cur ++ s) ∷ split_from sep [] rest
unfolding split_from
split_from-part sep cur [] rest h = ground (arith, append-nil cur)
split_from-part sep cur (c ∷ s) rest h =
    ground (arith, h.0, split_from-part sep (cur ++ c ∷ []) s rest h.1, append_assoc cur (c ∷ []) s)

split_from-last :
    (sep : ℕ) (cur s : Bytes) → IsWithout sep s → split_from sep cur s ≡ (cur ++ s) ∷ []
unfolding split_from
split_from-last sep cur [] h = ground (arith, append-nil cur)
split_from-last sep cur (c ∷ s) h =
    ground (arith, h.0, split_from-last sep (cur ++ c ∷ []) s h.1, append_assoc cur (c ∷ []) s)

-- Parts that have no separator in them, joined by it, come apart again.
pub split-join :
    (sep : ℕ) (s : Bytes) (parts : List Bytes)
    → All (IsWithout sep) (s ∷ parts)
    → split sep (join (sep ∷ []) (s ∷ parts)) ≡ s ∷ parts
unfolding split split_from join
split-join sep s [] h = split_from-last sep [] s h.0
split-join sep s (t ∷ parts) h =
    ap (split_from sep []) (append_assoc s (sep ∷ []) (join (sep ∷ []) (t ∷ parts)))
    ∙ split_from-part sep [] s (join (sep ∷ []) (t ∷ parts)) h.0
    ∙ ap (λ rest. s ∷ rest) (split-join sep t parts h.1)

split_from-append :
    (sep : ℕ) (cur p q : Bytes)
    → split_from sep cur (p ++ sep ∷ q) ≡ split_from sep cur p ++ split_from sep [] q
unfolding split_from
split_from-append sep cur [] q = ground arith
split_from-append sep cur (c ∷ p) q =
    ground (arith, split_from-append sep [] p q, split_from-append sep (cur ++ c ∷ []) p q)

-- A text that is put together from two with a separator between them comes apart into the parts of
-- both.
pub split-append : (sep : ℕ) (p q : Bytes) → split sep (p ++ sep ∷ q) ≡ split sep p ++ split sep q
unfolding split
split-append sep p q = split_from-append sep [] p q
