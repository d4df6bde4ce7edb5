-- ===== src/Net.antt =====
-- The part of net/netip that the program calls, on addresses as numbers, and internal/netpolicy.
-- The textual forms of an address (ParseAddr, String) are parameters where they are used.
pub mod Zones
pub mod Prefixes
pub mod Tests
use agentless_monitoring.Common.{
  ℕ, ◌-◌, ◌*◌, ◌/◌, ◌%◌, ◌^◌, Bool, true, false, not, ◌&&◌, ◌||◌, List, [], ◌∷◌, Bytes,
  bytes_discrete, ◌==◌, if◌then◌else◌, any, ltb, leb, ◌≡◌, arith,
}

-- netip.Addr: an IPv4 address, or an IPv6 address with its zone (empty if it has none).
pub data Addr : Type 0 where
  v4 : ℕ → Addr
  v6 : ℕ → Bytes → Addr

abbrev pub bytes_eq : Bytes → Bytes → Bool
bytes_eq a b = elim (bytes_discrete a b) [ yes _ ↦ true | no _ ↦ false ]

pub bytes_eq_refl : (a : Bytes) → bytes_eq a a ≡ true
bytes_eq_refl a = ground arith

-- `==` on netip.Addr compares the zones too.
abbrev pub addr_eq : Addr → Addr → Bool
addr_eq (v4 n) (v4 m) = n == m
addr_eq (v6 n z) (v6 m w) = n == m && bytes_eq z w
addr_eq _ _ = false

pub addr_eq_refl : (a : Addr) → addr_eq a a ≡ true
addr_eq_refl (v4 n) = ground arith
addr_eq_refl (v6 n z) = ground (arith, bytes_eq_refl z)

abbrev pub is4 : Addr → Bool
is4 (v4 n) = true
is4 (v6 n z) = false

-- Unmap: an IPv4-mapped IPv6 address, ::ffff:0:0/96, as the IPv4 address in it.
abbrev pub unmap : Addr → Addr
unmap (v4 n) = v4 n
unmap (v6 n z) = if n / 2 ^ 32 == 0xffff then v4 (n % 2 ^ 32) else v6 n z

abbrev unspecified : Addr → Bool
unspecified (v4 n) = n == 0
unspecified (v6 n z) = n == 0 && bytes_eq z []

abbrev pub is_unspecified : Addr → Bool
is_unspecified a = unspecified a

abbrev loopback : Addr → Bool
loopback (v4 n) = n / 2 ^ 24 == 127
loopback (v6 n z) = n == 1

abbrev pub is_loopback : Addr → Bool
is_loopback a = loopback (unmap a)

abbrev multicast : Addr → Bool
multicast (v4 n) = n / 2 ^ 28 == 14
multicast (v6 n z) = n / 2 ^ 120 == 0xff

abbrev pub is_multicast : Addr → Bool
is_multicast a = multicast (unmap a)

abbrev link_local : Addr → Bool
link_local (v4 n) = n / 2 ^ 16 == 0xa9fe
link_local (v6 n z) = n / 2 ^ 118 == 0x3fa

abbrev pub is_link_local_unicast : Addr → Bool
is_link_local_unicast a = link_local (unmap a)

abbrev broadcast : Addr → Bool
broadcast (v4 n) = n == 0xffffffff
broadcast (v6 n z) = false

abbrev global_unicast : Addr → Bool
global_unicast a =
    not (unspecified a)
    && not (broadcast a)
    && not (loopback a)
    && not (multicast a)
    && not (link_local a)

abbrev pub is_global_unicast : Addr → Bool
is_global_unicast a = global_unicast (unmap a)

-- 100.100.100.200, 168.63.129.16, 169.254.169.254, 169.254.170.2, fd00:ec2::254
abbrev pub sensitive_service_addresses : List Addr
sensitive_service_addresses =
    v4 0x646464c8
    ∷ v4 0xa83f8110
    ∷ v4 0xa9fea9fe
    ∷ v4 0xa9feaa02
    ∷ v6 0xfd000ec2000000000000000000000254 []
    ∷ []

unfoldable pub is_sensitive_service_address : Addr → Bool
is_sensitive_service_address address = any (addr_eq (unmap address)) sensitive_service_addresses

-- machines.validateCreateInput and monitoring.allowedTarget use the same test.
unfoldable pub allowed_target : Addr → Bool
allowed_target address =
    is_global_unicast address || is_loopback address || is_link_local_unicast address
