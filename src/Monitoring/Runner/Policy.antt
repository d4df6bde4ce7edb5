-- ===== src/Monitoring/Runner/Policy.antt =====
-- What the runner may contact, and what it reports.
use agentless_monitoring.Common.{
  codes, itoa, starts_with, ℕ, zero, suc, ◌+◌, ◌≤◌, ◌≡◌, refl, ◌≢◌, ◌⊎◌, inl, inr, Bool, true,
  false, not, ◌&&◌, List, [], ◌∷◌, ◌++◌, Option, none, some, Bytes, arith, Result, ok, length,
  length-append, All, Bool-cases, Option-cases, Result-cases,
}
use agentless_monitoring.Common.Splitting.{IsWithout}
use agentless_monitoring.Net.{Addr, allowed_target, is_sensitive_service_address}
use agentless_monitoring.Storage.Tables.{CheckType, tcp, http, https, other}
use agentless_monitoring.Machines.{Machine}
use agentless_monitoring.Machines.Record.{is_result}
use agentless_monitoring.Monitoring.Runner.{
  Url, Reply, answered, redirect, broken, Response, unfinished, status_code, request_error, Contact,
  dialed, requested, scheme_of, same_endpoint, refuses, follow, of_response, failed_result,
  run_http, by_type, by_address, run, endpoint_text,
}
use agentless_monitoring.Monitoring.Runner.Endpoint.{IsAuthority}

Reply-cases :
    (r : Reply)
    → ((k : ℕ) × (r ≡ answered k)) ⊎ ((m : Bytes) × (r ≡ broken m)) ⊎ ((v : Url) × (r ≡ redirect v))
Reply-cases (answered k) = inl (k, refl)
Reply-cases (broken m) = inr (inl (m, refl))
Reply-cases (redirect v) = inr (inr (v, refl))

module _ (parse_addr : Bytes → Option Addr) where
  -- A contact that stays at the port of the machine's own address, under its scheme.
  abbrev pub AtEndpoint : Addr → Bytes → Bytes → ℕ → Contact → Type 0
  AtEndpoint address scheme target port (dialed t p) = (t ≡ target) × (p ≡ port)
  AtEndpoint address scheme target port (requested u) =
      same_endpoint parse_addr u address scheme port ≡ true

  module _ (wrapped : Url → Bytes → Bytes) (serve : List Contact → Reply) (address : Addr)
      (scheme target : Bytes) (port : ℕ) where
    abbrev Stays : List Contact → Type 0
    Stays = All (AtEndpoint address scheme target port)

    followed :
        (sent : List Contact) (v : Url)
        → refuses parse_addr address scheme port sent v ≡ false
        → (length sent + 1 ≤ 3) × (same_endpoint parse_addr v address scheme port ≡ true)
    unfolding refuses
    followed sent v b = ground arith

    -- With three requests to make, the fuel is never used up.
    follow-finished :
        (fuel : ℕ) (made : List Contact) (u : Url)
        → length made + suc fuel ≡ 3
        → (follow parse_addr wrapped serve address scheme port (suc fuel) made u).0 ≢ unfinished
    unfolding follow
    follow-finished zero made u h =
        let sent = made ++ requested u ∷ [] in
        elim (Reply-cases (serve sent)) [
          | inl (k, e) ↦ rw (e, follow) (λ p. cc)
          | inr (inl (m, e)) ↦ rw (e, follow) (λ p. cc)
          | inr (inr (v, e)) ↦ elim (Bool-cases (refuses parse_addr address scheme port sent v)) [
            | inl b ↦ ground arith
            | inr b ↦
                absurd
                  (omega (arith, followed sent v b, length-append {0} made (requested u ∷ []), h))
          ]
        ]
    follow-finished (suc fuel) made u h =
        let sent = made ++ requested u ∷ [] in
        elim (Reply-cases (serve sent)) [
          | inl (k, e) ↦ rw (e, follow) (λ p. cc)
          | inr (inl (m, e)) ↦ rw (e, follow) (λ p. cc)
          | inr (inr (v, e)) ↦ elim (Bool-cases (refuses parse_addr address scheme port sent v)) [
            | inl b ↦ ground arith
            | inr b ↦ ground (
              arith,
              follow-finished fuel sent v
                  (omega (arith, length-append {0} made (requested u ∷ []), h)),
            )
          ]
        ]

module _ (parse_addr : Bytes → Option Addr) (parse_url : Bytes → Result Bytes Url)
    (wrapped : Url → Bytes → Bytes) (serve : List Contact → Reply) (dial : Bytes → ℕ → Option Bytes)
    (elapsed : ℕ) where
  of_response-is_result :
      (response : Response) → is_result (of_response parse_addr elapsed response).status ≡ true
  unfolding failed_result
  of_response-is_result unfinished = refl
  of_response-is_result (request_error m) = refl
  of_response-is_result (status_code k) = ground arith

  -- What url.Parse documents: a URL of one of the two schemes, a host that is the text of an address,
  -- in brackets if it has a colon, a colon, a port and an absolute path has this scheme, host and port.
  -- An address with a zone is not meant: the percent sign before it would begin an escape.
  abbrev pub ReadsUrls : Type 0
  ReadsUrls =
      (scheme host authority path : Bytes) (port : ℕ) (a : Addr) (u : Url)
      → (scheme ≡ codes "http") ⊎ (scheme ≡ codes "https")
      → parse_addr host ≡ some a
      → IsWithout 37 host
      → IsAuthority host authority
      → starts_with path (codes "/") ≡ true
      → parse_url (scheme ++ (codes "://" ++ (authority ++ (58 ∷ itoa port ++ path)))) ≡ ok u
      → (u.scheme ≡ scheme) × (u.hostname ≡ host) × (u.port ≡ itoa port)

  -- A contact that the network policy permits for a machine.
  abbrev pub Permitted : Bool → Machine → Contact → Type 0
  Permitted allow_sensitive m c =
      (a : Addr) × (parse_addr m.target ≡ some a)
      × (allowed_target a ≡ true)
      × ((not allow_sensitive && is_sensitive_service_address a) ≡ false)
      × AtEndpoint parse_addr a (scheme_of m.check_type) m.target m.port c

  abbrev IsWeb : Bytes → Type 0
  IsWeb scheme = (scheme ≡ codes "http") ⊎ (scheme ≡ codes "https")

  run_http-is_result :
      (m : Machine) (a : Addr)
      → is_result (run_http parse_addr parse_url wrapped serve dial elapsed m a).0.status ≡ true
  unfolding failed_result run_http
  run_http-is_result m a = elim (Result-cases (parse_url (endpoint_text m))) [
    | inl (x, p) ↦ rw (p, run_http) refl
    | inr (u, p) ↦
        rw (p, run_http)
          (of_response-is_result
            (follow parse_addr wrapped serve a (scheme_of m.check_type) m.port 3 [] u).0)
  ]

  by_type-is_result :
      (m : Machine) (a : Addr) (t : CheckType)
      → is_result (by_type parse_addr parse_url wrapped serve dial elapsed m a t).0.status ≡ true
  unfolding failed_result
  by_type-is_result m a tcp = elim (Option-cases (dial m.target m.port)) [
    | inl p ↦ rw p refl
    | inr (x, p) ↦ rw p refl
  ]
  by_type-is_result m a http = run_http-is_result m a
  by_type-is_result m a https = run_http-is_result m a
  by_type-is_result m a (other text) = refl

  by_address-is_result :
      (allow_sensitive : Bool) (m : Machine) (o : Option Addr)
      → is_result
          (by_address parse_addr parse_url wrapped serve dial elapsed allow_sensitive m o).0.status
        ≡ true
  by_address-is_result allow_sensitive m none = refl
  by_address-is_result allow_sensitive m (some a) = elim (Bool-cases (allowed_target a)) [
    | inr p ↦ rw p refl
    | inl p ↦ elim (Bool-cases (not allow_sensitive && is_sensitive_service_address a)) [
      | inl q ↦ rw (p, q) refl
      | inr q ↦ rw (p, q) (by_type-is_result m a m.check_type)
    ]
  ]

  -- Every run ends with a status that `RecordResult` takes, healthy or critical, and the requests of
  -- an HTTP check end by themselves: three requests never leave `client.Do` unfinished.
  pub run-is_result :
      (allow_sensitive : Bool) (m : Machine) (a : Addr) (u : Url)
      → (is_result (run parse_addr parse_url wrapped serve dial elapsed allow_sensitive m).0.status
          ≡ true)
        × ((follow parse_addr wrapped serve a (scheme_of m.check_type) m.port 3 [] u).0
            ≢ unfinished)
  unfolding run
  run-is_result allow_sensitive m a u = (
    by_address-is_result allow_sensitive m (parse_addr m.target),
    follow-finished parse_addr wrapped serve a (scheme_of m.check_type) m.target m.port 2 [] u refl,
  )
