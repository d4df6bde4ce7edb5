-- ===== src/Machines/Calculated.antt =====
-- The status that the CASE of recordResult gives a machine, in terms of its enabled checks.
use agentless_monitoring.Common.{
  ℕ, ◌≡◌, ◌≢◌, ◌⊎◌, ap, inl, inr, refl, Bool, true, false, List, [], ◌∷◌, arith, ltb, length,
  length-keep-le, keep, any, All, Elem, Bool-cases, ◌==◌,
}
use agentless_monitoring.Storage.Tables.{CheckRow, Status, healthy, critical, unknown, disabled}
use agentless_monitoring.Machines.Record.{is_status, is_enabled_check_of, machine_status}

-- Whether a row is an enabled check of a machine.
abbrev pub IsCheckOf : ℕ → CheckRow → Type 0
IsCheckOf id c = (c.machine_id ≡ id) × (c.enabled ≡ true)

abbrev pub IsNoCheckOf : ℕ → CheckRow → Type 0
IsNoCheckOf id c = (c.machine_id ≢ id) ⊎ (c.enabled ≡ false)

-- What a status says of the enabled checks of a machine: critical, that one of them is critical;
-- healthy, that there is one, and all are healthy; unknown, that none is critical, and there is none,
-- or one that is not healthy.
abbrev pub Follows : ℕ → List CheckRow → Status → Type 0
Follows id checks critical = (c : CheckRow) × Elem c checks × IsCheckOf id c × (c.status ≡ critical)
Follows id checks healthy =
    ((c : CheckRow) × Elem c checks × IsCheckOf id c)
    × All (λ c. IsNoCheckOf id c ⊎ (c.status ≡ healthy)) checks
Follows id checks unknown =
    All (λ c. IsNoCheckOf id c ⊎ (c.status ≢ critical)) checks
    × (All (IsNoCheckOf id) checks
        ⊎ ((c : CheckRow) × Elem c checks × IsCheckOf id c × (c.status ≢ healthy)))
Follows id checks disabled = ⊥

module _ (q : CheckRow → Bool) where
  Found : (CheckRow → Bool) → List CheckRow → Bool → Type 0
  Found p cs b = (c : CheckRow) × Elem c cs × (q c ≡ true) × (p c ≡ b)

  later :
      (p : CheckRow → Bool) (c : CheckRow) (cs : List CheckRow) (b : Bool)
      → Found p cs b
      → Found p (c ∷ cs) b
  unfolding Found
  later p c cs b (d, elem, of, holds) = (d, inr elem, of, holds)

  any-found :
      (p : CheckRow → Bool) (cs : List CheckRow) → any p (keep q cs) ≡ true → Found p cs true
  unfolding Found
  any-found p [] h = absurd (ground arith)
  any-found p (c ∷ cs) h = elim (Bool-cases (q c)) [
    | inr e ↦ later p c cs true (any-found p cs (ground arith))
    | inl e ↦ elim (Bool-cases (p c)) [
      | inl f ↦ (c, inl refl, e, f)
      | inr f ↦ later p c cs true (any-found p cs (ground arith))
    ]
  ]

  any-none :
      (p : CheckRow → Bool) (cs : List CheckRow)
      → any p (keep q cs) ≡ false
      → All (λ c. (q c ≡ false) ⊎ (p c ≡ false)) cs
  any-none p [] h = tt
  any-none p (c ∷ cs) h = elim (Bool-cases (q c)) [
    | inr e ↦ (inl e, any-none p cs (ground arith))
    | inl e ↦ (inr (ground arith), any-none p cs (ground arith))
  ]

  length-found :
      (cs : List CheckRow)
      → ltb 0 (length (keep q cs)) ≡ true
      → (c : CheckRow) × Elem c cs × (q c ≡ true)
  length-found [] h = absurd (ground arith)
  length-found (c ∷ cs) h = elim (Bool-cases (q c)) [
    | inr e ↦ let (d, elem, of) = length-found cs (ground arith) in (d, inr elem, of)
    | inl e ↦ (c, inl refl, e)
  ]

  length-none :
      (cs : List CheckRow) → ltb 0 (length (keep q cs)) ≡ false → All (λ c. q c ≡ false) cs
  length-none [] h = tt
  length-none (c ∷ cs) h = elim (Bool-cases (q c)) [
    | inr e ↦ (e, length-none cs (ground arith))
    | inl e ↦ absurd (ground arith)
  ]

  every_kept :
      (p : CheckRow → Bool) (cs : List CheckRow)
      → (length (keep p (keep q cs)) == length (keep q cs)) ≡ true
      → All (λ c. (q c ≡ false) ⊎ (p c ≡ true)) cs
  every_kept p [] h = tt
  every_kept p (c ∷ cs) h = elim (Bool-cases (q c)) [
    | inr e ↦ (inl e, every_kept p cs (ground arith))
    | inl e ↦ elim (Bool-cases (p c)) [
      | inl f ↦ (inr f, every_kept p cs (ground arith))
      | inr f ↦ absurd (ground (arith, length-keep-le p (keep q cs)))
    ]
  ]

  keep-found :
      (p : CheckRow → Bool) (cs : List CheckRow)
      → (length (keep p (keep q cs)) == length (keep q cs)) ≡ false
      → Found p cs false
  unfolding Found
  keep-found p [] h = absurd (ground arith)
  keep-found p (c ∷ cs) h = elim (Bool-cases (q c)) [
    | inr e ↦ later p c cs false (keep-found p cs (ground arith))
    | inl e ↦ elim (Bool-cases (p c)) [
      | inl f ↦ later p c cs false (keep-found p cs (ground arith))
      | inr f ↦ (c, inl refl, e, f)
    ]
  ]

critical_same : (s : Status) → is_status s critical ≡ true → s ≡ critical
critical_same critical h = refl
critical_same healthy h = cc
critical_same unknown h = cc
critical_same disabled h = cc

healthy_same : (s : Status) → is_status s healthy ≡ true → s ≡ healthy
healthy_same healthy h = refl
healthy_same critical h = cc
healthy_same unknown h = cc
healthy_same disabled h = cc

critical_ne : (s : Status) → is_status s critical ≡ false → s ≢ critical
critical_ne s h e = ground (arith, ap (λ x. is_status x critical) e)

healthy_ne : (s : Status) → is_status s healthy ≡ false → s ≢ healthy
healthy_ne s h e = ground (arith, ap (λ x. is_status x healthy) e)

unknown_ne : (s : Status) → is_status s unknown ≡ true → s ≢ healthy
unknown_ne s h e = ground (arith, ap (λ x. is_status x unknown) e)

is_enabled_check_of-IsCheckOf :
    (id : ℕ) (c : CheckRow) → is_enabled_check_of id c ≡ true → IsCheckOf id c
is_enabled_check_of-IsCheckOf id c h = (ground arith, ground arith)

is_enabled_check_of-IsNoCheckOf :
    (id : ℕ) (c : CheckRow) → is_enabled_check_of id c ≡ false → IsNoCheckOf id c
is_enabled_check_of-IsNoCheckOf id c h = elim (Bool-cases c.enabled) [
  | inr e ↦ inr e
  | inl e ↦ inl (λ same. ground arith)
]

All-map :
    {P Q : CheckRow → Type 0} (cs : List CheckRow)
    → ((c : CheckRow) → P c → Q c)
    → All P cs
    → All Q cs
All-map [] f h = tt
All-map (c ∷ cs) f h = (f c h.0, All-map cs f h.1)

unless :
    (id : ℕ) (c : CheckRow) (p : CheckRow → Bool) (b : Bool) (R : CheckRow → Type 0)
    → ((d : CheckRow) → p d ≡ b → R d)
    → (is_enabled_check_of id c ≡ false) ⊎ (p c ≡ b)
    → IsNoCheckOf id c ⊎ R c
unless id c p b R f (inl e) = inl (is_enabled_check_of-IsNoCheckOf id c e)
unless id c p b R f (inr e) = inr (f c e)

module _ (id : ℕ) (cs : List CheckRow) where
  each_unless :
      (p : CheckRow → Bool) (b : Bool) (R : CheckRow → Type 0)
      → ((c : CheckRow) → p c ≡ b → R c)
      → All (λ c. (is_enabled_check_of id c ≡ false) ⊎ (p c ≡ b)) cs
      → All (λ c. IsNoCheckOf id c ⊎ R c) cs
  each_unless p b R f h = All-map cs (λ c e. unless id c p b R f e) h

  pub machine_status-Follows : Follows id cs (machine_status (keep (is_enabled_check_of id) cs))
  unfolding machine_status Found
  machine_status-Follows =
      let of = is_enabled_check_of id in
      let is_critical = λ (c : CheckRow). is_status c.status critical in
      let is_unknown = λ (c : CheckRow). is_status c.status unknown in
      let is_healthy = λ (c : CheckRow). is_status c.status healthy in
      elim (Bool-cases (any is_critical (keep of cs))) [
        | inl e ↦
            let (c, elem, of_it, holds) = any-found of is_critical cs e in
            rw e (c, elem, is_enabled_check_of-IsCheckOf id c of_it, critical_same c.status holds)
        | inr e ↦
            let none_critical =
              each_unless is_critical false (λ c. c.status ≢ critical)
                (λ c h. critical_ne c.status h) (any-none of is_critical cs e) in
            elim (Bool-cases (any is_unknown (keep of cs))) [
              | inl f ↦
                  let (c, elem, of_it, holds) = any-found of is_unknown cs f in
                  rw (e, f)
                    (
                      none_critical,
                      inr (
                        c,
                        elem,
                        is_enabled_check_of-IsCheckOf id c of_it,
                        unknown_ne c.status holds,
                      ),
                    )
              | inr f ↦ elim (Bool-cases (ltb 0 (length (keep of cs)))) [
                | inr g ↦
                    rw (e, f, g)
                      (
                        none_critical,
                        inl (
                            All-map cs (λ c h. is_enabled_check_of-IsNoCheckOf id c h)
                              (length-none of cs g)),
                      )
                | inl g ↦
                    elim (Bool-cases
                      (length (keep is_healthy (keep of cs)) == length (keep of cs))) [
                        | inl k ↦
                            let (c, elem, of_it) = length-found of cs g in
                            rw (e, f, g, k)
                              (
                                (c, elem, is_enabled_check_of-IsCheckOf id c of_it),
                                each_unless is_healthy true (λ c. c.status ≡ healthy)
                                    (λ c h. healthy_same c.status h)
                                    (every_kept of is_healthy cs k),
                              )
                        | inr k ↦
                            let (c, elem, of_it, holds) = keep-found of is_healthy cs k in
                            rw (e, f, g, k)
                              (
                                none_critical,
                                inr (
                                  c,
                                  elem,
                                  is_enabled_check_of-IsCheckOf id c of_it,
                                  healthy_ne c.status holds,
                                ),
                              )
                      ]
              ]
            ]
      ]
