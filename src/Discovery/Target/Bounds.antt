-- ===== src/Discovery/Target/Bounds.antt =====
-- Every target is a bounded run of IPv4 addresses that may be scanned.
use agentless_monitoring.Common.{
  ℕ, zero, suc, ◌+◌, ◌-◌, ◌*◌, ◌/◌, ◌^◌, ◌≤◌, ◌≡◌, refl, subst, ◌∙◌, sym, ap, inl, inr, true, false,
  ◌||◌, List, [], ◌∷◌, Option, none, some, Bytes, trim_space, ltb, leb, length, take, arith, All,
  Bool-cases, Option-cases,
}
use agentless_monitoring.Net.{Addr, v4, v6}
use agentless_monitoring.Discovery.Target.{
  Target, scannable, prefix_addresses, enclose, non_empty, name_range, range_addresses, trim_ends,
  target_of_prefix, target_from_prefix, target_from_range, single, parse_target,
  split_address_range,
}
use agentless_monitoring.Discovery.Target.Runs.{
  run_from, length-run_from, range_addresses-run, run_from-scannable, take-run_from, IsRun,
  prefix_addresses-run,
}

All-run_from-le :
    (P : Addr → Type 0) (n j k : ℕ) → j ≤ k → All P (run_from n k) → All P (run_from n j)
All-run_from-le P n zero k h a = tt
All-run_from-le P n (suc j) zero h a = absurd (omega arith)
All-run_from-le P n (suc j) (suc k) h a = (a.0, All-run_from-le P (n + 1) j k (omega arith) a.1)

leb-two : (n : ℕ) → leb 2 (suc (suc n)) ≡ true
leb-two n = ground arith

inner_length : (n m : ℕ) → suc (suc (length (run_from n m))) - 2 ≡ m
inner_length n m = omega (arith, length-run_from n m)

trim_ends-run :
    (bits n m : ℕ)
    → m ≤ 256
    → All (λ a. scannable a ≡ true) (run_from n m)
    → (j : ℕ) × (k : ℕ) × (k ≤ 256)
      × (trim_ends bits (run_from n m) ≡ run_from j k)
      × All (λ a. scannable a ≡ true) (run_from j k)
unfolding trim_ends
trim_ends-run bits n zero l a = (n, zero, l, ground arith, a)
trim_ends-run bits n (suc zero) l a = (n, suc zero, l, ground arith, a)
trim_ends-run bits n (suc (suc m)) l a = elim (Bool-cases (leb bits 30)) [
  | inr e ↦ (n, suc (suc m), l, rw e refl, a)
  | inl e ↦ (
    n + 1,
    m,
    omega arith,
    rw (e, leb-two (length (run_from (n + 1 + 1) m)))
        (ap (λ j. take j (run_from (n + 1) (suc m))) (inner_length (n + 1 + 1) m)
          ∙ take-run_from (n + 1) m (suc m) (omega arith)),
    All-run_from-le (λ x. scannable x ≡ true) (n + 1) m (suc m) (omega arith) a.1,
  )
]

non_empty-eq :
    (canonical : Bytes) (xs : List Addr) (t : Target)
    → non_empty canonical xs ≡ some t
    → (t.addresses ≡ xs) × (1 ≤ length xs)
non_empty-eq canonical [] t h = absurd (ground arith)
non_empty-eq canonical (x ∷ xs) t h = (ground arith, omega arith)

non_empty-IsRun :
    (canonical : Bytes) (xs : List Addr) (t : Target) (n k : ℕ)
    → non_empty canonical xs ≡ some t
    → xs ≡ run_from n k
    → k ≤ 256
    → All (λ a. scannable a ≡ true) (run_from n k)
    → IsRun t.addresses
non_empty-IsRun canonical xs t n k h e l a =
    let p = non_empty-eq canonical xs t h in
    record {
      first = n;
      count = k;
      consecutive = p.0 ∙ e;
      bounds = (omega (arith, p.1, length-run_from n k, ap length e), l);
      scannables = a;
    }

prefix_bits : (b : ℕ) → (ltb b 24 || ltb 32 b) ≡ false → 32 - b ≤ 8
prefix_bits b h = ground arith

module _ (parse_addr : Bytes → Option Addr) (parse_prefix : Bytes → Option (Addr × ℕ))
    (addr_string : Addr → Bytes) (prefix_string : Addr → ℕ → Bytes) where
  range_parts :
      (n m : ℕ) (t : Target)
      → target_from_range parse_addr parse_prefix addr_string prefix_string (v4 n) (v4 m) ≡ some t
      → (scannable (v4 n) ≡ true)
        × (scannable (v4 m) ≡ true)
        × (n ≤ m)
        × (name_range parse_addr parse_prefix addr_string prefix_string
              (v4 n)
              (v4 m)
              (range_addresses 257 m n [])
            ≡ some t)
  unfolding target_from_range
  range_parts n m t h = elim (Bool-cases (scannable (v4 n))) [
    | inr p ↦ absurd (ground arith)
    | inl p ↦ elim (Bool-cases (scannable (v4 m))) [
      | inr q ↦ absurd (ground arith)
      | inl q ↦ elim (Bool-cases (ltb m n)) [
        | inl r ↦ absurd (ground arith)
        | inr r ↦ (p, q, ground arith, ground arith)
      ]
    ]
  ]

  name_range-eq :
      (first last : Addr) (found : Option (List Addr)) (t : Target)
      → name_range parse_addr parse_prefix addr_string prefix_string first last found ≡ some t
      → found ≡ some t.addresses
  name_range-eq first last none t h = absurd (ground arith)
  name_range-eq first last (some out) t h = ground arith

  range-IsRun :
      (first last : Addr) (t : Target)
      → target_from_range parse_addr parse_prefix addr_string prefix_string first last ≡ some t
      → IsRun t.addresses
  unfolding target_from_range scannable
  range-IsRun (v6 n z) last t h = absurd (ground arith)
  range-IsRun (v4 n) (v6 m z) t h = absurd (ground arith)
  range-IsRun (v4 n) (v4 m) t h =
      let (p, q, l, r) = range_parts n m t h in
      let (e, b) =
        range_addresses-run 257 m n 0 t.addresses
          (subst (λ j. range_addresses 257 m j [] ≡ some t.addresses) (omega arith)
            (name_range-eq (v4 n) (v4 m) (range_addresses 257 m n []) t r))
          (omega arith) in
      record {
        first = n;
        count = suc (m - n);
        consecutive = e;
        bounds = (omega arith, b);
        scannables =
            run_from-scannable n m n (suc (m - n)) p q (omega arith) (omega arith) (omega arith);
      }

  enclose-IsRun :
      (network bits : ℕ) (found : Option (List Addr)) (t : Target)
      → scannable (v4 network) ≡ true
      → 32 - bits ≤ 8
      → found ≡ prefix_addresses 257 (2 ^ (32 - bits)) network network []
      → enclose parse_addr parse_prefix addr_string prefix_string network bits found ≡ some t
      → IsRun t.addresses
  enclose-IsRun network bits none t p l e h = absurd (ground arith)
  enclose-IsRun network bits (some out) t p l e h =
      let (m, b, q, a) = prefix_addresses-run (32 - bits) network l p 257 0 out (omega arith) tt (
        subst (λ j. prefix_addresses 257 (2 ^ (32 - bits)) network j [] ≡ some out) (omega arith)
          (sym e)) in
      let (j, k, c, r, d) = trim_ends-run bits network m b a in
      non_empty-IsRun (prefix_string (v4 network) bits) (trim_ends bits out) t j k h
        (ap (trim_ends bits) q ∙ r) c d

  prefix-IsRun :
      (found : Option (Addr × ℕ)) (t : Target)
      → target_of_prefix parse_addr parse_prefix addr_string prefix_string found ≡ some t
      → IsRun t.addresses
  unfolding target_of_prefix
  prefix-IsRun none t h = absurd (ground arith)
  prefix-IsRun (some (v6 n z, bits)) t h = absurd (ground arith)
  prefix-IsRun (some (v4 n, bits)) t h =
      let size = 2 ^ (32 - bits) in
      elim (Bool-cases (ltb bits 24 || ltb 32 bits)) [
        | inl e ↦ absurd (ground arith)
        | inr e ↦ elim (Bool-cases (scannable (v4 (n / size * size)))) [
          | inr p ↦ absurd (ground arith)
          | inl p ↦
              enclose-IsRun (n / size * size) bits
                (prefix_addresses 257 size (n / size * size) (n / size * size) []) t p
                (prefix_bits bits e) refl (ground arith)
        ]
      ]

  single-IsRun :
      (a : Addr) (t : Target)
      → single parse_addr parse_prefix addr_string prefix_string a ≡ some t
      → IsRun t.addresses
  unfolding scannable
  single-IsRun (v6 n z) t h = absurd (ground arith)
  single-IsRun (v4 n) t h = elim (Bool-cases (scannable (v4 n))) [
    | inr p ↦ absurd (ground arith)
    | inl p ↦ record {
      first = n;
      count = 1;
      consecutive = ground arith;
      bounds = (omega arith, omega arith);
      scannables = (p, tt);
    }
  ]

  -- The addresses of a text that ParseTarget accepts, be it an address, a prefix or a range: there are
  -- at least one and at most 256, they are IPv4 addresses, each one after the one before it, and each
  -- of them may be scanned, that is, it is neither unspecified nor a multicast address.
  pub parse_target-IsRun :
      (text : Bytes) (t : Target)
      → parse_target parse_addr parse_prefix addr_string prefix_string text ≡ some t
      → IsRun t.addresses
  unfolding parse_target target_from_prefix
  parse_target-IsRun text t h = elim (Option-cases (parse_addr (trim_space text))) [
    | inr (a, e) ↦ single-IsRun a t (ground arith)
    | inl e ↦
        elim (Option-cases (
          split_address_range parse_addr parse_prefix addr_string prefix_string
            (trim_space text))) [
              | inl p ↦ prefix-IsRun (parse_prefix (trim_space text)) t (ground arith)
              | inr ((first, last), p) ↦ range-IsRun first last t (ground arith)
            ]
  ]
