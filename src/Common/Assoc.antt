-- ===== src/Common/Assoc.antt =====
-- Go maps and keyed tables: association lists whose keys are compared by a decision.
use Prim.Native.Nat.{suc, ◌≤◌, ◌<◌}
use mathlib.Core.Path.{◌≡◌, refl}
use mathlib.Core.Logic.{◌≢◌, ite}
use mathlib.Core.Option.{Option, none, some}
use mathlib.Core.List.{List, [], ◌∷◌}
use native.Mathlib.Omega.{arith}
use agentless_monitoring.Common.Lists.{length}

module _ {ℓ} {K V : Type ℓ} (dec : Discrete K) where
  unfoldable pub lookup : K → List (K × V) → Option V
  lookup k [] = none
  lookup k ((j, v) ∷ m) = ite (dec j k) (some v) (lookup k m)

  unfoldable pub insert : K → V → List (K × V) → List (K × V)
  insert k v [] = (k, v) ∷ []
  insert k v ((j, w) ∷ m) = ite (dec j k) ((k, v) ∷ m) ((j, w) ∷ insert k v m)

  unfoldable pub delete : K → List (K × V) → List (K × V)
  delete k [] = []
  delete k ((j, w) ∷ m) = ite (dec j k) (delete k m) ((j, w) ∷ delete k m)

  pub lookup-insert_self : (k : K) (v : V) (m : List (K × V)) → lookup k (insert k v m) ≡ some v
  unfolding lookup insert
  lookup-insert_self k v [] = ground arith
  lookup-insert_self k v ((j, w) ∷ m) = ground (arith, lookup-insert_self k v m)

  pub lookup-insert_ne :
      (k q : K) (v : V) (m : List (K × V)) → q ≢ k → lookup q (insert k v m) ≡ lookup q m
  unfolding lookup insert
  lookup-insert_ne k q v [] h = ground arith
  lookup-insert_ne k q v ((j, w) ∷ m) h = ground (arith, lookup-insert_ne k q v m h)

  pub lookup-delete_self : (k : K) (m : List (K × V)) → lookup k (delete k m) ≡ none
  unfolding lookup delete
  lookup-delete_self k [] = refl
  lookup-delete_self k ((j, w) ∷ m) = ground (arith, lookup-delete_self k m)

  pub lookup-delete_ne : (k q : K) (m : List (K × V)) → q ≢ k → lookup q (delete k m) ≡ lookup q m
  unfolding lookup delete
  lookup-delete_ne k q [] h = refl
  lookup-delete_ne k q ((j, w) ∷ m) h = ground (arith, lookup-delete_ne k q m h)

  -- Writing a key that is there keeps the size, and a new key adds one entry.
  pub length-insert_present :
      (k : K) (v w : V) (m : List (K × V)) → lookup k m ≡ some w → length (insert k v m) ≡ length m
  unfolding lookup insert
  length-insert_present k v w [] h = ground arith
  length-insert_present k v w ((j, u) ∷ m) h = ground (arith, length-insert_present k v w m)

  pub length-insert-le : (k : K) (v : V) (m : List (K × V)) → length (insert k v m) ≤ suc (length m)
  unfolding insert
  length-insert-le k v [] = omega arith
  length-insert-le k v ((j, u) ∷ m) = ground (arith, length-insert-le k v m)

  pub length-delete-le : (k : K) (m : List (K × V)) → length (delete k m) ≤ length m
  unfolding delete
  length-delete-le k [] = omega arith
  length-delete-le k ((j, u) ∷ m) = ground (arith, length-delete-le k m)

  -- Deleting a key that is there makes the map smaller.
  pub length-delete-lt :
      (k : K) (v : V) (m : List (K × V)) → lookup k m ≡ some v → length (delete k m) < length m
  unfolding lookup delete
  length-delete-lt k v [] h = ground arith
  length-delete-lt k v ((j, u) ∷ m) h = ground (arith, length-delete-lt k v m, length-delete-le k m)

  -- No key stands twice.
  abbrev pub Distinct : List (K × V) → Type ℓ
  Distinct [] = Unit
  Distinct ((k, v) ∷ m) = (lookup k m ≡ none) × Distinct m

  pub insert-Distinct : (k : K) (v : V) (m : List (K × V)) → Distinct m → Distinct (insert k v m)
  unfolding lookup insert
  insert-Distinct k v [] d = (refl, tt)
  insert-Distinct k v ((j, u) ∷ m) d =
      ground (arith, insert-Distinct k v m d.1, lookup-insert_ne k j v m)

  pub lookup-delete-none :
      (k q : K) (m : List (K × V)) → lookup q m ≡ none → lookup q (delete k m) ≡ none
  unfolding lookup delete
  lookup-delete-none k q [] h = refl
  lookup-delete-none k q ((j, u) ∷ m) h = ground (arith, lookup-delete-none k q m)

  pub delete-Distinct : (k : K) (m : List (K × V)) → Distinct m → Distinct (delete k m)
  unfolding lookup delete
  delete-Distinct k [] d = tt
  delete-Distinct k ((j, u) ∷ m) d =
      ground (arith, delete-Distinct k m d.1, lookup-delete-none k j m d.0)
