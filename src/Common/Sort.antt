-- ===== src/Common/Sort.antt =====
-- ORDER BY and slices.Sort: a stable insertion sort by a test `before x y`, "x may stand before y".
use Prim.Native.Nat.{suc}
use mathlib.Core.Path.{◌≡◌, refl, ap, ◌∙◌}
use mathlib.Core.Logic.{◌⊎◌, inl, inr, ◌↔◌}
use mathlib.Core.Bool.{Bool, true, false}
use mathlib.Core.List.{List, [], ◌∷◌}
use native.Mathlib.Omega.{arith}
use agentless_monitoring.Common.Tests.{if◌then◌else◌, Bool-cases}
use agentless_monitoring.Common.Lists.{length, All, Elem}

module _ {A : Type 0} (before : A → A → Bool) where
  unfoldable pub insert_sorted : A → List A → List A
  insert_sorted x [] = x ∷ []
  insert_sorted x (y ∷ ys) = if before x y then x ∷ y ∷ ys else y ∷ insert_sorted x ys

  unfoldable pub order_by : List A → List A
  unfolding insert_sorted
  order_by [] = []
  order_by (x ∷ xs) = insert_sorted x (order_by xs)

  -- Each entry may stand before the next.
  abbrev pub IsOrdered : List A → Type 0
  IsOrdered [] = Unit
  IsOrdered (x ∷ xs) = All (λ y. before x y ≡ true) xs × IsOrdered xs

  pub Elem-insert_sorted :
      (a x : A) (xs : List A) → Elem a (insert_sorted x xs) ↔ ((a ≡ x) ⊎ Elem a xs)
  unfolding insert_sorted
  Elem-insert_sorted a x [] = (λ h. h, λ h. h)
  Elem-insert_sorted a x (y ∷ ys) = elim (Bool-cases (before x y)) [
    | inl e ↦ rw e (λ h. h, λ h. h)
    | inr e ↦
        let ih = Elem-insert_sorted a x ys in
        rw e (
          elim [
            | inl p ↦ inr (inl p)
            | inr q ↦ elim (ih.0 q) [ inl r ↦ inl r | inr r ↦ inr (inr r) ]
          ],
          elim [
            | inl p ↦ inr (ih.1 (inl p))
            | inr q ↦ elim q [ inl r ↦ inl r | inr r ↦ inr (ih.1 (inr r)) ]
          ],
        )
  ]

  -- Sorting keeps the entries.
  pub Elem-order_by : (a : A) (xs : List A) → Elem a (order_by xs) ↔ Elem a xs
  unfolding order_by
  Elem-order_by a [] = (λ h. h, λ h. h)
  Elem-order_by a (x ∷ xs) =
      let ih = Elem-order_by a xs in
      let step = Elem-insert_sorted a x (order_by xs) in
      (
        λ h. elim (step.0 h) [ inl p ↦ inl p | inr q ↦ inr (ih.0 q) ],
        λ h. step.1 (elim h [ inl p ↦ inl p | inr q ↦ inr (ih.1 q) ]),
      )

  pub All-insert_sorted :
      (P : A → Type 0) (x : A) (xs : List A) → P x → All P xs → All P (insert_sorted x xs)
  unfolding insert_sorted
  All-insert_sorted P x [] p a = (p, tt)
  All-insert_sorted P x (y ∷ ys) p a = elim (Bool-cases (before x y)) [
    | inl e ↦ rw e (p, a)
    | inr e ↦ rw e (a.0, All-insert_sorted P x ys p a.1)
  ]

  pub All-order_by : (P : A → Type 0) (xs : List A) → All P xs → All P (order_by xs)
  unfolding order_by
  All-order_by P [] a = tt
  All-order_by P (x ∷ xs) a = All-insert_sorted P x (order_by xs) a.0 (All-order_by P xs a.1)

  pub length-insert_sorted : (x : A) (xs : List A) → length (insert_sorted x xs) ≡ suc (length xs)
  unfolding insert_sorted
  length-insert_sorted x [] = refl
  length-insert_sorted x (y ∷ ys) = ground (arith, length-insert_sorted x ys)

  pub length-order_by : (xs : List A) → length (order_by xs) ≡ length xs
  unfolding order_by
  length-order_by [] = refl
  length-order_by (x ∷ xs) = length-insert_sorted x (order_by xs) ∙ ap suc (length-order_by xs)

-- A total and transitive test orders the list.
module _ {A : Type 0} (before : A → A → Bool)
    (total : (x y : A) → before x y ≡ false → before y x ≡ true)
    (transitive : (x y z : A) → before x y ≡ true → before y z ≡ true → before x z ≡ true) where
  All-later :
      (x y : A) (ys : List A)
      → before x y ≡ true
      → All (λ z. before y z ≡ true) ys
      → All (λ z. before x z ≡ true) ys
  All-later x y [] h a = tt
  All-later x y (z ∷ zs) h a = (transitive x y z h a.0, All-later x y zs h a.1)

  insert_sorted-IsOrdered :
      (x : A) (xs : List A) → IsOrdered before xs → IsOrdered before (insert_sorted before x xs)
  unfolding insert_sorted
  insert_sorted-IsOrdered x [] o = (tt, tt)
  insert_sorted-IsOrdered x (y ∷ ys) o = elim (Bool-cases (before x y)) [
    | inl e ↦ rw e ((e, All-later x y ys e o.0), o)
    | inr e ↦ rw e (
      All-insert_sorted before (λ z. before y z ≡ true) x ys (total x y e) o.0,
      insert_sorted-IsOrdered x ys o.1,
    )
  ]

  pub order_by-IsOrdered : (xs : List A) → IsOrdered before (order_by before xs)
  unfolding order_by
  order_by-IsOrdered [] = tt
  order_by-IsOrdered (x ∷ xs) =
      insert_sorted-IsOrdered x (order_by before xs) (order_by-IsOrdered xs)
