-- ===== src/Monitoring/Runner/Endpoint.antt =====
-- The URL of a machine's check, and that it is at the machine's own endpoint.
use agentless_monitoring.Common.{
  ap, sym, ◌∙◌, codes, any, ◌==◌, itoa, starts_with, append_assoc, ℕ, ◌≡◌, refl, ◌⊎◌, inl, inr,
  true, false, [], ◌∷◌, ◌++◌, Option, some, Bytes, arith, Bool-cases,
}
use agentless_monitoring.Common.Decimal.{itoa-cons}
use agentless_monitoring.Common.Splitting.{IsWithout}
use agentless_monitoring.Net.{addr_eq_refl, bytes_eq, bytes_eq_refl, Addr}
use agentless_monitoring.Storage.Tables.{tcp}
use agentless_monitoring.Machines.{Machine}
use agentless_monitoring.Monitoring.Runner.{Url, scheme_of, same_endpoint, endpoint_text, url_text}

-- The form of a host in a URL.
abbrev pub IsAuthority : Bytes → Bytes → Type 0
IsAuthority host authority =
    ((any (λ c. c == 58) host ≡ false) × (authority ≡ host))
    ⊎ ((any (λ c. c == 58) host ≡ true) × (authority ≡ 91 ∷ host ++ 93 ∷ []))

-- A machine whose URL, if it has one, is made of an address without a zone and an absolute path.
abbrev pub IsReadable : Machine → Type 0
IsReadable m =
    (m.check_type ≡ tcp) ⊎ ((starts_with m.path (codes "/") ≡ true) × IsWithout 37 m.target)

bracketed : (t i p : Bytes) → (91 ∷ t ++ 93 ∷ 58 ∷ i) ++ p ≡ (91 ∷ t ++ 93 ∷ []) ++ (58 ∷ i ++ p)
bracketed t i p =
    ap (◌∷◌ 91) (append_assoc t (93 ∷ 58 ∷ i) p ∙ sym (append_assoc t (93 ∷ []) (58 ∷ i ++ p)))

pub endpoint_text-parts :
    (m : Machine)
    → (authority : Bytes) × IsAuthority m.target authority
      × (endpoint_text m
          ≡ scheme_of m.check_type ++ (codes "://" ++ (authority ++ (58 ∷ itoa m.port ++ m.path))))
unfolding endpoint_text
endpoint_text-parts m = elim (Bool-cases (any (λ c. c == 58) m.target)) [
  | inr e ↦ (
    m.target,
    inl (e, refl),
    rw (e, url_text)
        (ap (λ s. scheme_of m.check_type ++ (codes "://" ++ s))
          (append_assoc m.target (58 ∷ itoa m.port) m.path)),
  )
  | inl e ↦ (
    91 ∷ m.target ++ 93 ∷ [],
    inr (e, refl),
    rw (e, url_text)
        (ap (λ s. scheme_of m.check_type ++ (codes "://" ++ s))
          (bracketed m.target (itoa m.port) m.path)),
  )
]

pub same_endpoint-own :
    (parse_addr : Bytes → Option Addr) (u : Url) (a : Addr) (scheme host : Bytes) (port : ℕ)
    → parse_addr host ≡ some a
    → u.scheme ≡ scheme
    → u.hostname ≡ host
    → u.port ≡ itoa port
    → same_endpoint parse_addr u a scheme port ≡ true
unfolding same_endpoint
same_endpoint-own parse_addr u a scheme host port e s h p =
    let (c, t, digits) = itoa-cons port in
    let some_digits : bytes_eq (c ∷ t) [] ≡ false = ground arith in
    let nonempty = ap (λ x. bytes_eq x []) digits ∙ some_digits in
    rw (s, h, p, e, addr_eq_refl a, bytes_eq_refl scheme, nonempty, bytes_eq_refl (itoa port)) refl
