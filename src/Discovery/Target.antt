-- ===== src/Discovery/Target.antt =====
-- internal/discovery/scanner.go, ParseTarget: which addresses a text makes the scanner probe.
-- `netip.ParseAddr`, `netip.ParsePrefix` and the printers of an address and of a prefix are
-- parameters; an IPv4 prefix is the pair of its address and of its number of bits.
pub mod Runs
pub mod Bounds
use agentless_monitoring.Common.{
  ℕ, zero, suc, ◌+◌, ◌-◌, ◌*◌, ◌/◌, ◌^◌, Bool, true, false, not, ◌&&◌, ◌||◌, List, [], ◌∷◌, ◌++◌,
  Option, none, some, Bytes, codes, trim_space, strip_prefix, ltb, leb, ◌==◌, if◌then◌else◌, length,
  drop, take,
}
use agentless_monitoring.Net.{Addr, v4, v6, is4, is_unspecified, is_multicast}

pub record Target : Type 0 where
  pub canonical : Bytes
  pub addresses : List Addr

abbrev pub minimum_prefix_bits : ℕ
minimum_prefix_bits = 24

abbrev pub maximum_addresses : ℕ
maximum_addresses = 256

-- scannableIPv4
unfoldable pub scannable : Addr → Bool
scannable address = is4 address && not (is_unspecified address) && not (is_multicast address)

-- The loop of targetFromPrefix, from the address `n`, over the addresses that agree with `network` on
-- all but the last bits (there are `size` of them); `none` is the return with too many. One round adds
-- an address, so one round more than the maximum is enough fuel.
unfoldable pub prefix_addresses : ℕ → ℕ → ℕ → ℕ → List Addr → Option (List Addr)
prefix_addresses zero size network n found = none
prefix_addresses (suc fuel) size network n found =
    let more = found ++ v4 n ∷ [] in
    let rest = prefix_addresses fuel size network (n + 1) more in
    if ltb n (2 ^ 32) && n / size == network / size
    then if ltb maximum_addresses (length more) then none else rest
    else some found

-- The loop of targetFromRange, from the address `n` to the address `end`.
unfoldable pub range_addresses : ℕ → ℕ → ℕ → List Addr → Option (List Addr)
range_addresses zero end n found = none
range_addresses (suc fuel) end n found =
    let more = found ++ v4 n ∷ [] in
    let rest = range_addresses fuel end (n + 1) more in
    if ltb maximum_addresses (length more) then none else if n == end then some more else rest

-- A prefix of at most 30 bits loses its first and its last address.
unfoldable pub trim_ends : ℕ → List Addr → List Addr
trim_ends bits addresses =
    if leb bits 30 && leb 2 (length addresses)
    then take (length addresses - 2) (drop 1 addresses)
    else addresses

abbrev pub non_empty : Bytes → List Addr → Option Target
non_empty canonical [] = none
non_empty canonical (a ∷ others) = some record { canonical = canonical; addresses = a ∷ others }

abbrev number : Addr → ℕ
number (v4 n) = n
number (v6 n z) = n

module _ (parse_addr : Bytes → Option Addr) (parse_prefix : Bytes → Option (Addr × ℕ))
    (addr_string : Addr → Bytes) (prefix_string : Addr → ℕ → Bytes) where
  abbrev pub enclose : ℕ → ℕ → Option (List Addr) → Option Target
  enclose network bits none = none
  enclose network bits (some addresses) =
      non_empty (prefix_string (v4 network) bits) (trim_ends bits addresses)

  -- The addresses of an IPv4 prefix.
  unfoldable pub target_of_prefix : Option (Addr × ℕ) → Option Target
  target_of_prefix none = none
  target_of_prefix (some (v6 n z, bits)) = none
  target_of_prefix (some (v4 n, bits)) =
      let size = 2 ^ (32 - bits) in
      let network = n / size * size in
      if ltb bits minimum_prefix_bits || ltb 32 bits
      then none
      else if not (scannable (v4 network))
      then none
      else enclose network bits (prefix_addresses (suc maximum_addresses) size network network [])

  -- targetFromPrefix
  unfoldable pub target_from_prefix : Bytes → Option Target
  target_from_prefix value = target_of_prefix (parse_prefix value)

  abbrev pub name_range : Addr → Addr → Option (List Addr) → Option Target
  name_range first last none = none
  name_range first last (some addresses) = some record {
    canonical = addr_string first ++ codes "-" ++ addr_string last;
    addresses = addresses;
  }

  -- targetFromRange; the order of two IPv4 addresses is that of their numbers.
  unfoldable pub target_from_range : Addr → Addr → Option Target
  target_from_range first last =
      if not (scannable first) || not (scannable last) || ltb (number last) (number first)
      then none
      else name_range first last
          (range_addresses (suc maximum_addresses) (number last) (number first) [])

  -- strings.Split at a separator that is not empty, with the part that is being read; each round
  -- takes a byte off, so one round more than the bytes of the string is enough fuel.
  abbrev split_on : ℕ → Bytes → Bytes → Bytes → List Bytes
  split_on zero sep cur s = cur ∷ []
  split_on (suc fuel) sep cur [] = cur ∷ []
  split_on (suc fuel) sep cur (c ∷ s) = elim (strip_prefix sep (c ∷ s)) [
    | some rest ↦ cur ∷ split_on fuel sep [] rest
    | none ↦ split_on fuel sep (cur ++ c ∷ []) s
  ]

  abbrev both : Option Addr → Option Addr → Option (Addr × Addr)
  both (some first) (some last) = some (first, last)
  both _ _ = none

  abbrev ends_of : List Bytes → Option (Addr × Addr)
  ends_of (first ∷ last ∷ []) = both (parse_addr (trim_space first)) (parse_addr (trim_space last))
  ends_of _ = none

  -- The two ends of a range, for the first of the separators that gives two addresses.
  abbrev split_by : List Bytes → Bytes → Option (Addr × Addr)
  split_by [] value = none
  split_by (sep ∷ seps) value = elim (ends_of (split_on (suc (length value)) sep [] value)) [
    | some ends ↦ some ends
    | none ↦ split_by seps value
  ]

  -- splitAddressRange: a hyphen, an en dash or an em dash.
  unfoldable pub split_address_range : Bytes → Option (Addr × Addr)
  split_address_range value =
      split_by (codes "-" ∷ (0xe2 ∷ 0x80 ∷ 0x93 ∷ []) ∷ (0xe2 ∷ 0x80 ∷ 0x94 ∷ []) ∷ []) value

  abbrev pub single : Addr → Option Target
  single address =
      if not (scannable address)
      then none
      else some record { canonical = addr_string address; addresses = address ∷ [] }

  -- ParseTarget; `none` is ErrInvalidTarget.
  unfoldable pub parse_target : Bytes → Option Target
  parse_target text =
      let value = trim_space text in
      elim (parse_addr value) [
        | some address ↦ single address
        | none ↦ elim (split_address_range value) [
          | some (first, last) ↦ target_from_range first last
          | none ↦ target_from_prefix value
        ]
      ]
