-- ===== src/Discovery/Fingerprints.antt =====
-- internal/discovery/identity.go: the fingerprints that are kept of a device. The probes of the
-- network are not modelled.
use agentless_monitoring.Common.{
  Bool, not, ◌&&◌, ◌||◌, List, [], ◌∷◌, ◌++◌, Option, none, some, Bytes, codes, split, trim_space,
  leb, ◌==◌, has_any, if◌then◌else◌, length, any, bytes_less,
}
use agentless_monitoring.Common.Sort.{order_by}
use agentless_monitoring.Net.{bytes_eq}
use agentless_monitoring.Storage.Tables.{Fingerprint}

abbrev pub fingerprint_ssh : Bytes
fingerprint_ssh = codes "ssh-host-key"

abbrev pub fingerprint_tls : Bytes
fingerprint_tls = codes "tls-certificate"

-- validFingerprint; the characters are the comma, the equals sign, NUL, CR and LF.
unfoldable pub valid_fingerprint : Fingerprint → Bool
valid_fingerprint f =
    (bytes_eq f.kind fingerprint_ssh || bytes_eq f.kind fingerprint_tls)
    && not (length f.value == 0)
    && leb (length f.value) 160
    && not (has_any f.value (44 ∷ 61 ∷ 0 ∷ 13 ∷ 10 ∷ []))

abbrev pub trimmed : Fingerprint → Fingerprint
trimmed f = record { kind = trim_space f.kind; value = trim_space f.value }

-- Whether two fingerprints have one key, the kind and the value with a NUL between them.
abbrev pub same_fingerprint : Fingerprint → Fingerprint → Bool
same_fingerprint f g = bytes_eq (f.kind ++ 0 ∷ f.value) (g.kind ++ 0 ∷ g.value)

-- The values of the map `unique`. A key that comes again has the same fingerprint again, since a kind
-- that is valid holds no NUL.
abbrev pub unique_fingerprints : List Fingerprint → List Fingerprint
unique_fingerprints [] = []
unique_fingerprints (f ∷ fs) =
    let rest = unique_fingerprints fs in
    let g = trimmed f in
    if not (valid_fingerprint g)
    then rest
    else if any (same_fingerprint g) rest
    then rest
    else g ∷ rest

-- The order of sort.Slice, as "may stand before".
abbrev pub fingerprint_before : Fingerprint → Fingerprint → Bool
fingerprint_before f g =
    not (if bytes_eq g.kind f.kind then bytes_less g.value f.value else bytes_less g.kind f.kind)

-- normalizedFingerprints; the order in which `range` takes the map is an argument.
unfoldable pub normalized_fingerprints :
    (List Fingerprint → List Fingerprint) → List Fingerprint → List Fingerprint
normalized_fingerprints in_some_order fs =
    order_by fingerprint_before (in_some_order (unique_fingerprints fs))

-- strings.Cut at the equals sign; `none` when there is none.
abbrev cut_from : Bytes → Bytes → Option Fingerprint
cut_from kind [] = none
cut_from kind (c ∷ s) =
    let later = cut_from (kind ++ c ∷ []) s in
    if c == 61 then some record { kind = kind; value = s } else later

abbrev fields : List Bytes → List Fingerprint
fields [] = []
fields (field ∷ more) =
    let rest = fields more in elim (cut_from [] field) [ none ↦ rest | some f ↦ f ∷ rest ]

-- parseFingerprints
unfoldable pub parse_fingerprints : (List Fingerprint → List Fingerprint) → Bytes → List Fingerprint
parse_fingerprints in_some_order value =
    normalized_fingerprints in_some_order (fields (split 44 value))
