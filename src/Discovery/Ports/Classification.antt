-- ===== src/Discovery/Ports/Classification.antt =====
-- What the stored ports are, and what the guess of a machine's type depends on.
use agentless_monitoring.Common.{
  ℕ, ◌≡◌, sym, ◌∙◌, ◌≢◌, ◌↔◌, inl, inr, true, false, List, [], ◌∷◌, some, arith, leb, ◌==◌, ==_iff,
  Elem, Bool-cases, ap, subst,
}
use agentless_monitoring.Common.Sort.{IsOrdered, Elem-order_by, order_by-IsOrdered}
use agentless_monitoring.Discovery.Ports.{
  contains, port_set, normalized_ports, preferred_of, preferred_port, guess_by, guess_machine_type,
}

contains_iff : (ports : List ℕ) (p : ℕ) → (contains ports p ≡ true) ↔ Elem p ports
contains_iff [] p = (λ h. absurd (ground arith), λ h. absurd h)
contains_iff (q ∷ ports) p = elim (Bool-cases (q == p)) [
  | inl e ↦ (λ h. inl (sym ((==_iff q p).0 e)), λ h. ground arith)
  | inr e ↦
      let ih = contains_iff ports p in
      (
        λ h. inr (ih.0 (ground arith)),
        elim [ inl h ↦ absurd (ground arith) | inr h ↦ ground (arith, ih.1 h) ],
      )
]

-- Two lists with the same ports.
abbrev pub SamePorts : List ℕ → List ℕ → Type 0
SamePorts xs ys = (p : ℕ) → Elem p xs ↔ Elem p ys

contains-same : (xs ys : List ℕ) (p : ℕ) → SamePorts xs ys → contains xs p ≡ contains ys p
contains-same xs ys p h = elim (Bool-cases (contains xs p)) [
  | inl e ↦ e ∙ sym ((contains_iff ys p).1 ((h p).0 ((contains_iff xs p).0 e)))
  | inr e ↦ elim (Bool-cases (contains ys p)) [
    | inr f ↦ e ∙ sym f
    | inl f ↦ absurd (ground (arith, e, (contains_iff xs p).1 ((h p).1 ((contains_iff ys p).0 f))))
  ]
]

Elem-port_set : (p : ℕ) (ports : List ℕ) → Elem p (port_set ports) ↔ (Elem p ports × (p ≢ 0))
Elem-port_set p [] = (λ h. absurd h, λ h. absurd h.0)
Elem-port_set p (q ∷ ports) =
    let ih = Elem-port_set p ports in
    elim (Bool-cases (q == 0)) [
      | inl e ↦ rw e (
        λ h. (inr (ih.0 h).0, (ih.0 h).1),
        λ h. elim h.0 [ inl d ↦ absurd (h.1 (d ∙ (==_iff q 0).0 e)) | inr d ↦ ih.1 (d, h.1) ],
      )
      | inr e ↦ elim (Bool-cases (contains (port_set ports) q)) [
        | inl c ↦
            rw (e, c)
              (
                λ h. (inr (ih.0 h).0, (ih.0 h).1),
                λ h. elim h.0 [
                  | inl d ↦
                      subst (λ j. Elem j (port_set ports)) (sym d)
                        ((contains_iff (port_set ports) q).0 c)
                  | inr d ↦ ih.1 (d, h.1)
                ],
              )
        | inr c ↦
            rw (e, c)
              (
                elim [
                  | inl d ↦ (inl d, λ z. absurd (ground arith))
                  | inr d ↦ (inr (ih.0 d).0, (ih.0 d).1)
                ],
                λ h. elim h.0 [ inl d ↦ inl d | inr d ↦ inr (ih.1 (d, h.1)) ],
              )
      ]
    ]

-- The guess of a machine's type depends on which ports are open only: not on the order in which the
-- ports are listed, and not on how often each is.
pub guess_machine_type-same :
    (xs ys : List ℕ) → SamePorts xs ys → guess_machine_type xs ≡ guess_machine_type ys
unfolding guess_machine_type
guess_machine_type-same xs ys h = ap guess_by (λ i p. contains-same xs ys p h i)

leb_total : (x y : ℕ) → leb x y ≡ false → leb y x ≡ true
leb_total x y h = ground arith

leb_trans : (x y z : ℕ) → leb x y ≡ true → leb y z ≡ true → leb x z ≡ true
leb_trans x y z h k = ground arith

-- In whatever order a map gives its keys, the ports that are stored for a device are in ascending
-- order, and they are the open ports that are not zero.
pub normalized_ports-IsOrdered :
    (in_some_order : List ℕ → List ℕ)
    → ((xs : List ℕ) → SamePorts (in_some_order xs) xs)
    → (ports : List ℕ)
    → IsOrdered leb (normalized_ports in_some_order ports)
      × ((p : ℕ) → Elem p (normalized_ports in_some_order ports) ↔ (Elem p ports × (p ≢ 0)))
unfolding normalized_ports
normalized_ports-IsOrdered in_some_order same ports = (
  order_by-IsOrdered leb leb_total leb_trans (in_some_order (port_set ports)),
  λ p.
      let a = Elem-order_by leb p (in_some_order (port_set ports)) in
      let b = same (port_set ports) p in
      let c = Elem-port_set p ports in (λ h. c.0 (b.0 (a.0 h)), λ h. a.1 (b.1 (c.1 h))),
)

preferred_of-contains :
    (ps ports : List ℕ) (p : ℕ) → preferred_of ps ports ≡ some p → contains ports p ≡ true
preferred_of-contains [] [] p h = absurd (ground arith)
preferred_of-contains [] (q ∷ ports) p h = ground arith
preferred_of-contains (q ∷ ps) ports p h = elim (Bool-cases (contains ports q)) [
  | inl e ↦ subst (λ j. contains ports j ≡ true) (ground arith) e
  | inr e ↦ preferred_of-contains ps ports p (ground arith)
]

-- The preferred port of a device is one of its open ports.
pub preferred_port-contains :
    (ports : List ℕ) (p : ℕ) → preferred_port ports ≡ some p → contains ports p ≡ true
unfolding preferred_port
preferred_port-contains ports p h = preferred_of-contains (443 ∷ 80 ∷ 22 ∷ []) ports p h
