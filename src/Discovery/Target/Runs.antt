-- ===== src/Discovery/Target/Runs.antt =====
-- Runs of IPv4 addresses, and the loops that make them.
use agentless_monitoring.Common.{
  ℕ, zero, suc, ◌+◌, ◌-◌, ◌/◌, ◌^◌, ◌≤◌, ◌<◌, ◌≡◌, refl, subst, All-append, ◌∙◌, sym, ap, ◌≢◌, ◌⊎◌,
  inl, inr, true, List, [], ◌∷◌, ◌++◌, some, length, take, arith, All, length-append,
}
use agentless_monitoring.Net.{Addr, v4}
use agentless_monitoring.Discovery.Target.{scannable, prefix_addresses, range_addresses}

-- The IPv4 addresses from `n` on, `k` of them.
abbrev pub run_from : ℕ → ℕ → List Addr
run_from n zero = []
run_from n (suc k) = v4 n ∷ run_from (n + 1) k

pub run_from-snoc : (n k : ℕ) → run_from n k ++ v4 (n + k) ∷ [] ≡ run_from n (suc k)
run_from-snoc n zero = ap (λ j. v4 j ∷ []) (omega arith)
run_from-snoc n (suc k) =
    ap (◌∷◌ (v4 n))
      (ap (λ j. run_from (n + 1) k ++ v4 j ∷ []) (omega arith) ∙ run_from-snoc (n + 1) k)

pub length-run_from : (n k : ℕ) → length (run_from n k) ≡ k
length-run_from n zero = refl
length-run_from n (suc k) = omega (arith, length-run_from (n + 1) k)

-- Two numbers in one block of at most 256 are in one block of 2^28.
pub same_block : (s n m : ℕ) → s ≤ 8 → n / 2 ^ s ≡ m / 2 ^ s → n / 2 ^ 28 ≡ m / 2 ^ 28
same_block zero n m b h = omega arith
same_block (suc zero) n m b h = omega arith
same_block (suc (suc zero)) n m b h = omega arith
same_block (suc (suc (suc zero))) n m b h = omega arith
same_block (suc (suc (suc (suc zero)))) n m b h = omega arith
same_block (suc (suc (suc (suc (suc zero))))) n m b h = omega arith
same_block (suc (suc (suc (suc (suc (suc zero)))))) n m b h = omega arith
same_block (suc (suc (suc (suc (suc (suc (suc zero))))))) n m b h = omega arith
same_block (suc (suc (suc (suc (suc (suc (suc (suc zero)))))))) n m b h = omega arith
same_block (suc (suc (suc (suc (suc (suc (suc (suc (suc s))))))))) n m b h = absurd (omega arith)

pub scannable-v4 : (n : ℕ) → scannable (v4 n) ≡ true → (0 < n) × (n / 2 ^ 28 ≢ 14)
unfolding scannable
scannable-v4 n h = ground arith

pub v4-scannable : (n : ℕ) → 0 < n → n / 2 ^ 28 ≢ 14 → scannable (v4 n) ≡ true
unfolding scannable
v4-scannable n p q = ground arith

-- One round of each loop that ends with a result.
pub range_round :
    (fuel end n : ℕ) (found out : List Addr)
    → range_addresses (suc fuel) end n found ≡ some out
    → (length found + 1 ≤ 256)
      × (((n ≡ end) × (out ≡ found ++ v4 n ∷ []))
          ⊎ ((n ≢ end) × (range_addresses fuel end (n + 1) (found ++ v4 n ∷ []) ≡ some out)))
unfolding range_addresses
range_round fuel end n found out h = ground (arith, length-append found (v4 n ∷ []))

pub prefix_round :
    (fuel size network n : ℕ) (found out : List Addr)
    → prefix_addresses (suc fuel) size network n found ≡ some out
    → (out ≡ found)
      ⊎ ((length found + 1 ≤ 256)
          × (n / size ≡ network / size)
          × (prefix_addresses fuel size network (n + 1) (found ++ v4 n ∷ []) ≡ some out))
unfolding prefix_addresses
prefix_round fuel size network n found out h = ground (arith, length-append found (v4 n ∷ []))

pub range_addresses-run :
    (fuel end first k : ℕ) (out : List Addr)
    → range_addresses fuel end (first + k) (run_from first k) ≡ some out
    → first + k ≤ end
    → (out ≡ run_from first (suc (end - first))) × (suc (end - first) ≤ 256)
unfolding range_addresses
range_addresses-run zero end first k out h l = absurd (ground arith)
range_addresses-run (suc fuel) end first k out h l =
    let round = range_round fuel end (first + k) (run_from first k) out h in
    elim round.1 [
      | inl (p, q) ↦ (
        q ∙ run_from-snoc first k ∙ ap (λ j. run_from first (suc j)) (omega arith),
        omega (arith, round.0, length-run_from first k),
      )
      | inr (p, q) ↦
          range_addresses-run fuel end first (suc k) out
            (rw (sym (run_from-snoc first k)) (
              subst
                (λ j.
                  range_addresses fuel end j (run_from first k ++ v4 (first + k) ∷ []) ≡ some out)
                (omega arith) q))
            (omega arith)
    ]

module _ (s network : ℕ) (small : s ≤ 8) (start : scannable (v4 network) ≡ true) where
  abbrev Scannable : Addr → Type 0
  Scannable a = scannable a ≡ true

  block-scannable : (n : ℕ) → network ≤ n → n / 2 ^ s ≡ network / 2 ^ s → scannable (v4 n) ≡ true
  block-scannable n l h =
      let p = scannable-v4 network start in
      v4-scannable n (omega arith) (λ e. p.1 (sym (same_block s n network small h) ∙ e))

  pub prefix_addresses-run :
      (fuel k : ℕ) (out : List Addr)
      → k ≤ 256
      → All Scannable (run_from network k)
      → prefix_addresses fuel (2 ^ s) network (network + k) (run_from network k) ≡ some out
      → (m : ℕ) × (m ≤ 256) × (out ≡ run_from network m) × All Scannable (run_from network m)
  unfolding prefix_addresses
  prefix_addresses-run zero k out l a h = absurd (ground arith)
  prefix_addresses-run (suc fuel) k out l a h =
      elim (prefix_round fuel (2 ^ s) network (network + k) (run_from network k) out h) [
        | inl e ↦ (k, l, e, a)
        | inr (b, q, e) ↦
            prefix_addresses-run fuel (suc k) out (omega (arith, b, length-run_from network k))
              (subst (All Scannable) (run_from-snoc network k) (
                All-append Scannable (run_from network k) (v4 (network + k) ∷ []) a
                  (block-scannable (network + k) (omega arith) q, tt)))
              (rw (sym (run_from-snoc network k)) (
                subst
                  (λ j.
                    prefix_addresses fuel (2 ^ s) network j
                      (run_from network k ++ v4 (network + k) ∷ [])
                    ≡ some out)
                  (omega arith) e))
      ]

-- Every address of a run between two addresses that may be scanned may be scanned too.
pub run_from-scannable :
    (first last n k : ℕ)
    → scannable (v4 first) ≡ true
    → scannable (v4 last) ≡ true
    → last ≤ first + 255
    → first ≤ n
    → n + k ≤ suc last
    → All (λ a. scannable a ≡ true) (run_from n k)
run_from-scannable first last n zero p q w l h = tt
run_from-scannable first last n (suc k) p q w l h =
    let a = scannable-v4 first p in
    let b = scannable-v4 last q in
    (
      v4-scannable n (omega arith) (λ e. absurd (omega (arith, a, b, e))),
      run_from-scannable first last (n + 1) k p q w (omega arith) (omega arith),
    )

pub take-run_from : (n j k : ℕ) → j ≤ k → take j (run_from n k) ≡ run_from n j
take-run_from n zero k h = refl
take-run_from n (suc j) zero h = absurd (omega arith)
take-run_from n (suc j) (suc k) h = ap (◌∷◌ (v4 n)) (take-run_from (n + 1) j k (omega arith))

-- The addresses of a target: a run of at least one and at most 256 IPv4 addresses, all of them
-- addresses that may be scanned.
pub record IsRun (addresses : List Addr) : Type 0 where
  pub first : ℕ
  pub count : ℕ
  pub consecutive : addresses ≡ run_from first count
  pub bounds : (1 ≤ count) × (count ≤ 256)
  pub scannables : All (λ a. scannable a ≡ true) (run_from first count)
