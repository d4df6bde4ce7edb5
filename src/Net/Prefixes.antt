-- ===== src/Net/Prefixes.antt =====
-- netip.Prefix: a block of addresses.
use agentless_monitoring.Common.{ℕ, ◌-◌, ◌*◌, ◌/◌, ◌^◌, Bool, false, ◌&&◌, [], ◌==◌, leb}
use agentless_monitoring.Net.{Addr, v4, v6, bytes_eq}

pub record Prefix : Type 0 where
  pub address : Addr
  pub bits : ℕ

-- BitLen
abbrev pub bit_len : Addr → ℕ
bit_len (v4 n) = 32
bit_len (v6 n z) = 128

abbrev without_zone : Addr → Addr
without_zone (v4 n) = v4 n
without_zone (v6 n z) = v6 n []

-- PrefixFrom
abbrev pub prefix_from : Addr → ℕ → Prefix
prefix_from a bits = record { address = without_zone a; bits = bits }

abbrev same_high_bits : ℕ → ℕ → ℕ → ℕ → Bool
same_high_bits width bits n m = leb bits width && n / 2 ^ (width - bits) == m / 2 ^ (width - bits)

abbrev contains_address : Addr → ℕ → Addr → Bool
contains_address (v4 n) bits (v4 m) = same_high_bits 32 bits n m
contains_address (v6 n z) bits (v6 m w) = bytes_eq w [] && same_high_bits 128 bits n m
contains_address _ bits _ = false

-- Contains: the families have to be the same, and an address with a zone is in no prefix.
unfoldable pub contains : Prefix → Addr → Bool
contains p a = contains_address p.address p.bits a

abbrev mask : ℕ → ℕ → ℕ → ℕ
mask width bits n = n / 2 ^ (width - bits) * 2 ^ (width - bits)

abbrev masked_address : Addr → ℕ → Addr
masked_address (v4 n) bits = v4 (mask 32 bits n)
masked_address (v6 n z) bits = v6 (mask 128 bits n) z

-- Masked
unfoldable pub masked : Prefix → Prefix
masked p = record p { address = masked_address p.address p.bits }
