-- ===== src/Discovery/Identity.antt =====
-- internal/discovery/identity.go: which devices of a scan look like one host. The groups are values of
-- a map, so the order in which `range` takes its keys is an argument, and sort.Slice, which may order
-- groups with one first member either way, is the stable sort of that order.
use agentless_monitoring.Common.{
  ℕ, zero, suc, Bool, false, not, ◌&&◌, List, [], ◌∷◌, ◌++◌, Option, none, some, Bytes, codes, itoa,
  map, ltb, leb, ◌==◌, if◌then◌else◌, length, any, keep,
}
use agentless_monitoring.Common.Sort.{order_by}
use agentless_monitoring.Net.{bytes_eq}
use agentless_monitoring.Storage.Tables.{Fingerprint, DeviceStatus}
use agentless_monitoring.Discovery.Fingerprints.{fingerprint_ssh, fingerprint_tls}

-- discovery.Device
pub record Device : Type 0 where
  pub id : ℕ
  pub job_id : ℕ
  pub address : Bytes
  pub detected_port : Option ℕ
  pub open_ports : List ℕ
  pub open_ports_text : Bytes
  pub guessed_type : Bytes
  pub fingerprints : List Fingerprint
  pub identity_hint : Bytes
  pub status : DeviceStatus
  pub machine_id : Option ℕ

unfoldable pub identity_default_hint : Device → Bytes
identity_default_hint d =
    if length d.fingerprints == 0
    then codes "Not enough identity data"
    else codes "Unique host fingerprint in this scan"

abbrev value_of : Fingerprint → Bytes
value_of f = f.value

-- fingerprintValues
abbrev pub fingerprint_values : Bytes → Device → List Bytes
fingerprint_values kind d =
    map value_of (keep (λ (f : Fingerprint). bytes_eq f.kind kind) d.fingerprints)

abbrev pub has_value : List Bytes → Bytes → Bool
has_value values v = any (λ w. bytes_eq w v) values

-- intersectStrings
abbrev pub intersect_strings : List Bytes → List Bytes → List Bytes
intersect_strings first second = keep (has_value second) first

-- The entry of the map `byValue`: the devices with that value, from the number `i` on.
abbrev pub indices_from : Bytes → Bytes → ℕ → List Device → List ℕ
indices_from kind v i [] = []
indices_from kind v i (d ∷ ds) =
    map (λ w. i) (keep (bytes_eq v) (fingerprint_values kind d)) ++ indices_from kind v (suc i) ds

-- The keys of the map `byValue`.
abbrev distinct : List Bytes → List Bytes
distinct [] = []
distinct (v ∷ vs) = let rest = distinct vs in if has_value rest v then rest else v ∷ rest

abbrev all_values : Bytes → List Device → List Bytes
all_values kind [] = []
all_values kind (d ∷ ds) = fingerprint_values kind d ++ all_values kind ds

abbrev first_index : List ℕ → ℕ
first_index [] = 0
first_index (i ∷ is) = i

abbrev starts_before : List ℕ → List ℕ → Bool
starts_before g h = leb (first_index g) (first_index h)

-- matchingFingerprintGroups, with nothing excluded; a group is in ascending order as it is made.
unfoldable pub matching_fingerprint_groups :
    (List Bytes → List Bytes) → Bytes → List Device → List (List ℕ)
unfolding order_by
matching_fingerprint_groups in_some_order kind devices = order_by starts_before (
    keep (λ group. ltb 1 (length group))
      (map (λ v. indices_from kind v 0 devices)
        (in_some_order (distinct (all_values kind devices)))))

abbrev device_at : ℕ → List Device → Option Device
device_at i [] = none
device_at zero (d ∷ ds) = some d
device_at (suc i) (d ∷ ds) = device_at i ds

abbrev values_at : Bytes → List Device → ℕ → List Bytes
values_at kind devices i = elim (device_at i devices) [
  | none ↦ []
  | some d ↦ fingerprint_values kind d
]

abbrev shared_with : Bytes → List Device → List Bytes → List ℕ → Bool
shared_with kind devices values [] = not (length values == 0)
shared_with kind devices values (i ∷ is) =
    let left = intersect_strings values (values_at kind devices i) in
    let later = shared_with kind devices left is in if length left == 0 then false else later

-- groupSharesFingerprint
unfoldable pub group_shares_fingerprint : Bytes → List Device → List ℕ → Bool
group_shares_fingerprint kind devices [] = false
group_shares_fingerprint kind devices (i ∷ is) =
    if ltb (length (i ∷ is)) 2
    then false
    else shared_with kind devices (values_at kind devices i) is

abbrev keys_of : List Device → List Bytes → List ℕ → Option (List Bytes)
keys_of devices keys [] = some keys
keys_of devices keys (i ∷ is) =
    let values = values_at fingerprint_ssh devices i in
    let later = keys_of devices (keys ++ values) is in if length values == 0 then none else later

-- groupHasDifferentSSHKeys
unfoldable pub group_has_different_ssh_keys : List Device → List ℕ → Bool
group_has_different_ssh_keys devices group = elim (keys_of devices [] group) [
  | none ↦ false
  | some keys ↦ ltb 1 (length (distinct keys))
]

abbrev pub is_in : List ℕ → ℕ → Bool
is_in group i = any (λ j. j == i) group

-- `devices[i].IdentityHint = hint`, for the numbers from `i` on that pass a test.
abbrev pub mark_hints : (ℕ → Bool) → Bytes → ℕ → List Device → List Device
mark_hints chosen hint i [] = []
mark_hints chosen hint i (d ∷ ds) =
    (if chosen i then record d { identity_hint = hint } else d) ∷ mark_hints chosen hint (suc i) ds

-- "Likely same VM — host group %d (%d IPs; %s)", with the dash in UTF-8.
abbrev pub ssh_hint : ℕ → List Device → List ℕ → Bytes
ssh_hint number devices group =
    codes "Likely same VM "
    ++ (0xe2 ∷ 0x80 ∷ 0x94 ∷ [])
    ++ codes " host group "
    ++ itoa number
    ++ codes " ("
    ++ itoa (length group)
    ++ codes " IPs; "
    ++ (if group_shares_fingerprint fingerprint_tls devices group
        then codes "SSH host key + TLS certificate match"
        else codes "SSH host key match")
    ++ codes ")"

abbrev pub tls_hint : List Device → List ℕ → Bytes
tls_hint devices group =
    if group_has_different_ssh_keys devices group
    then codes "Shared TLS certificate across "
      ++ itoa (length group)
      ++ codes " IPs; SSH host keys differ"
    else codes "Possible shared host/service ("
      ++ itoa (length group)
      ++ codes " IPs; TLS certificate match only)"

abbrev pub mark_ssh : ℕ → List (List ℕ) → List Device → List Device
mark_ssh number [] devices = devices
mark_ssh number (group ∷ groups) devices =
    mark_ssh (suc number) groups
      (mark_hints (is_in group) (ssh_hint number devices group) 0 devices)

abbrev pub mark_tls : (ℕ → Bool) → List (List ℕ) → List Device → List Device
mark_tls assigned [] devices = devices
mark_tls assigned (group ∷ groups) devices =
    mark_tls assigned groups
      (mark_hints (λ i. is_in group i && not (assigned i)) (tls_hint devices group) 0 devices)

abbrev default_hints : List Device → List Device
default_hints ds = map (λ (d : Device). record d { identity_hint = identity_default_hint d }) ds

-- classifyIdentityGroups
unfoldable pub classify_identity_groups : (List Bytes → List Bytes) → List Device → List Device
unfolding identity_default_hint matching_fingerprint_groups group_shares_fingerprint
    group_has_different_ssh_keys
classify_identity_groups in_some_order devices =
    let ssh_groups = matching_fingerprint_groups in_some_order fingerprint_ssh devices in
    let tls_groups = matching_fingerprint_groups in_some_order fingerprint_tls devices in
    let assigned : ℕ → Bool = λ i. any (λ group. is_in group i) ssh_groups in
    mark_tls assigned tls_groups (mark_ssh 1 ssh_groups (default_hints devices))
