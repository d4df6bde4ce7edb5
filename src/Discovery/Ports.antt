-- ===== src/Discovery/Ports.antt =====
-- The ports of a discovered device: internal/discovery/store.go (normalizedPorts, preferredPort,
-- parsePorts, formatPorts, checkForDetectedPort, uniquePositiveIDs) and classification.go.
pub mod Classification
use agentless_monitoring.Common.{
  ℕ, zero, suc, ◌+◌, ◌*◌, ◌-◌, ◌^◌, Bool, true, false, not, ◌&&◌, ◌||◌, List, [], ◌∷◌, ◌++◌, Option,
  none, some, Bytes, codes, itoa, split, join, map, ltb, leb, ◌==◌, if◌then◌else◌, length, any, all,
  keep,
}
use agentless_monitoring.Common.Decimal.{parse_uint}
use agentless_monitoring.Common.Sort.{order_by}
use agentless_monitoring.Common.Int.{ℤ, pos, negsuc, pos_part, below}
use agentless_monitoring.Storage.Tables.{CheckType, tcp, http, https}

-- slices.Contains
abbrev pub contains : List ℕ → ℕ → Bool
contains ports port = any (λ p. p == port) ports

-- The keys of the map `unique`: each port that is not zero, once.
abbrev pub port_set : List ℕ → List ℕ
port_set [] = []
port_set (p ∷ ps) = let rest = port_set ps in if p == 0 || contains rest p then rest else p ∷ rest

-- `range` over a map gives its keys in some order, which is the argument `in_some_order`.
unfoldable pub normalized_ports : (List ℕ → List ℕ) → List ℕ → List ℕ
normalized_ports in_some_order ports = order_by leb (in_some_order (port_set ports))

abbrev first_port : List ℕ → Option ℕ
first_port [] = none
first_port (p ∷ ps) = some p

abbrev pub preferred_of : List ℕ → List ℕ → Option ℕ
preferred_of [] ports = first_port ports
preferred_of (p ∷ ps) ports = if contains ports p then some p else preferred_of ps ports

-- preferredPort; `none` is the result `false`.
unfoldable pub preferred_port : List ℕ → Option ℕ
preferred_port ports = preferred_of (443 ∷ 80 ∷ 22 ∷ []) ports

-- strconv.ParseUint in base 10, into 16 bits.
abbrev pub parse_port : Bytes → Option ℕ
parse_port field = parse_uint (2 ^ 16) field

abbrev ports_of : List Bytes → List ℕ
ports_of [] = []
ports_of (field ∷ fields) =
    let rest = ports_of fields in
    elim (parse_port field) [ none ↦ rest | some n ↦ if n == 0 then rest else n ∷ rest ]

-- parsePorts, for the text that group_concat makes; 44 is the comma.
unfoldable pub parse_ports : (List ℕ → List ℕ) → Bytes → List ℕ
parse_ports in_some_order value = normalized_ports in_some_order (ports_of (split 44 value))

-- formatPorts
unfoldable pub format_ports : List ℕ → Bytes
format_ports ports = join (codes ", ") (map itoa ports)

-- checkForDetectedPort
unfoldable pub check_for_detected_port : Option ℕ → CheckType × ℕ
check_for_detected_port none = (tcp, 22)
check_for_detected_port (some port) =
    if port == 80 then (http, 80) else if port == 443 then (https, 443) else (tcp, port)

abbrev unique_from : List ℕ → List ℤ → List ℕ
unique_from seen [] = []
unique_from seen (id ∷ ids) =
    let later = unique_from (pos_part id ∷ seen) ids in
    let skipped = unique_from seen ids in
    if below id 1
    then skipped
    else if contains seen (pos_part id)
    then skipped
    else pos_part id ∷ later

-- uniquePositiveIDs
unfoldable pub unique_positive_ids : List ℤ → List ℕ
unique_positive_ids ids = unique_from [] ids

-- The guess, from the test of a port.
abbrev pub guess_by : (ℕ → Bool) → Bytes
guess_by is_open =
    if any is_open (53 ∷ [])
      && any is_open (2086 ∷ 2087 ∷ [])
      && not (any is_open (2082 ∷ 2083 ∷ 2095 ∷ 2096 ∷ []))
    then codes "cPanel DNSOnly server"
    else if any is_open (2082 ∷ 2083 ∷ 2086 ∷ 2087 ∷ 2095 ∷ 2096 ∷ [])
    then codes "cPanel/WHM server"
    else if any is_open (8006 ∷ [])
    then codes "Proxmox virtualization host"
    else if any is_open (3389 ∷ [])
    then codes "Windows or RDP host"
    else if any is_open (3306 ∷ [])
    then codes "Database server"
    else if any is_open (25 ∷ 465 ∷ 587 ∷ 110 ∷ 143 ∷ 993 ∷ 995 ∷ [])
    then codes "Mail server"
    else if any is_open (53 ∷ [])
    then codes "DNS server"
    else if any is_open (445 ∷ [])
    then codes "Windows or file server"
    else if any is_open (80 ∷ 443 ∷ 8080 ∷ 8443 ∷ [])
    then codes "Web server"
    else if any is_open (22 ∷ [])
    then codes "Linux or SSH host"
    else if any is_open (21 ∷ [])
    then codes "FTP server"
    else codes "Unknown"

-- guessMachineType
unfoldable pub guess_machine_type : List ℕ → Bytes
guess_machine_type ports = guess_by (contains ports)
