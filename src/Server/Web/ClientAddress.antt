-- ===== src/Server/Web/ClientAddress.antt =====
-- Which address a login is counted for.
use agentless_monitoring.Common.{
  ◌⊎◌, inl, inr, ◌≡◌, refl, ap, sym, ◌∙◌, true, false, List, [], ◌∷◌, ◌++◌, reverse, append_assoc,
  Option, some, Bytes, split, trim_space, All,
}
use mathlib.Core.List.{reverse_aux}
use agentless_monitoring.Common.Splitting.{split-append}
use agentless_monitoring.Net.{Addr}
use agentless_monitoring.Net.Prefixes.{Prefix}
use agentless_monitoring.Server.Web.{
  Request, first_or_empty, is_trusted_proxy, rightmost, peer_host, client_address,
}

reverse_aux-append :
    (front t r : List Bytes) → reverse_aux (front ++ t) r ≡ reverse_aux t (reverse_aux front r)
reverse_aux-append [] t r = refl
reverse_aux-append (x ∷ front) t r = reverse_aux-append front t (x ∷ r)

-- Nothing, or a text that ends with a comma.
abbrev pub IsSeparate : Bytes → Type 0
IsSeparate sent = (sent ≡ []) ⊎ ((s : Bytes) × (sent ≡ s ++ 44 ∷ []))

split-separate :
    (sent appended : Bytes) (front back : List Bytes)
    → IsSeparate sent
    → split 44 appended ≡ front ++ back
    → (earlier : List Bytes) × (split 44 (sent ++ appended) ≡ earlier ++ back)
split-separate sent appended front back (inl none_sent) parts =
    (front, ap (λ t. split 44 (t ++ appended)) none_sent ∙ parts)
split-separate sent appended front back (inr (s, e)) parts = (
  split 44 s ++ front,
  ap (λ t. split 44 (t ++ appended)) e
      ∙ ap (split 44) (append_assoc s (44 ∷ []) appended)
      ∙ split-append 44 s appended
      ∙ ap (λ t. split 44 s ++ t) parts
      ∙ sym (append_assoc (split 44 s) front back),
)

module _ (split_host_port : Bytes → Option (Bytes × Bytes)) (parse_addr : Bytes → Option Addr)
    (addr_string : Addr → Bytes) (proxies : List Prefix) where
  -- An entry of the header that names a trusted proxy.
  abbrev pub IsProxy : Bytes → Type 0
  IsProxy entry =
      (a : Addr) × (parse_addr (trim_space entry) ≡ some a) × (is_trusted_proxy proxies a ≡ true)

  rightmost-proxies :
      (peer : Addr) (back rest : List Bytes)
      → All IsProxy back
      → rightmost split_host_port parse_addr addr_string proxies peer (reverse_aux back rest)
        ≡ rightmost split_host_port parse_addr addr_string proxies peer rest
  unfolding rightmost
  rightmost-proxies peer [] rest h = refl
  rightmost-proxies peer (x ∷ back) rest h =
      let ((a, parsed, trusted), more) = h in
      rightmost-proxies peer back (x ∷ rest) more ∙ rw (parsed, trusted, rightmost) refl

  rightmost-client :
      (peer : Addr) (front back : List Bytes) (entry : Bytes) (a : Addr)
      → All IsProxy back
      → parse_addr (trim_space entry) ≡ some a
      → is_trusted_proxy proxies a ≡ false
      → rightmost split_host_port parse_addr addr_string proxies peer
          (reverse (front ++ entry ∷ back))
        ≡ addr_string a
  unfolding rightmost
  rightmost-client peer front back entry a h parsed untrusted =
      ap (rightmost split_host_port parse_addr addr_string proxies peer)
        (reverse_aux-append front (entry ∷ back) [])
      ∙ rightmost-proxies peer back (entry ∷ reverse front) h
      ∙ rw (parsed, untrusted, rightmost) refl

  pub client_address-direct :
      (r : Request) (peer : Addr)
      → parse_addr (peer_host split_host_port r) ≡ some peer
      → is_trusted_proxy proxies peer ≡ false
      → client_address split_host_port parse_addr addr_string proxies r
        ≡ peer_host split_host_port r
  unfolding client_address
  client_address-direct r peer p untrusted = rw (p, untrusted, client_address) refl

  -- If the peer is a trusted proxy, and the header's first line ends with the entries that the proxies
  -- have written, one of them an address that is no proxy's and only proxies' addresses after it, then
  -- the request is counted for this address. In front of these entries the line has nothing, as when a
  -- proxy has replaced it or the client has sent none, or any text that ends with a comma. Lines after
  -- the first do not count.
  pub client_address-rightmost :
      (r : Request) (peer a : Addr) (sent appended entry : Bytes) (lines front back : List Bytes)
      → parse_addr (peer_host split_host_port r) ≡ some peer
      → is_trusted_proxy proxies peer ≡ true
      → IsSeparate sent
      → r.forwarded_for ≡ (sent ++ appended) ∷ lines
      → split 44 appended ≡ front ++ entry ∷ back
      → All IsProxy back
      → parse_addr (trim_space entry) ≡ some a
      → is_trusted_proxy proxies a ≡ false
      → client_address split_host_port parse_addr addr_string proxies r ≡ addr_string a
  unfolding client_address
  client_address-rightmost r peer a sent appended entry lines front back p trusted separate line
        parts h parsed untrusted =
      let (earlier, whole) = split-separate sent appended front (entry ∷ back) separate parts in
      let all_parts : split 44 (first_or_empty r.forwarded_for) ≡ earlier ++ entry ∷ back =
        ap (λ t. split 44 (first_or_empty t)) line ∙ whole in
      rw (p, trusted, all_parts, client_address)
        (rightmost-client peer earlier back entry a h parsed untrusted)
