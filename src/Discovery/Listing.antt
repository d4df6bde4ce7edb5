-- ===== src/Discovery/Listing.antt =====
-- internal/discovery/store.go: the lists that the discovery page shows. The order of group_concat and
-- of `range` over a map is an argument.
use agentless_monitoring.Common.{
  ℕ, Bool, not, List, [], ◌++◌, Bytes, codes, itoa, Result, ok, ◌>>◌, leb, ◌==◌, length, keep, take,
  map, join, bytes_less,
}
use agentless_monitoring.Common.Sort.{order_by}
use agentless_monitoring.Storage.Tables.{Db, JobRow, DeviceRow, GroupRow, Fingerprint, lower}
use agentless_monitoring.Discovery.Ports.{parse_ports, format_ports, guess_machine_type}
use agentless_monitoring.Discovery.Fingerprints.{parse_fingerprints}
use agentless_monitoring.Discovery.Identity.{Device, classify_identity_groups}
use agentless_monitoring.Discovery.Jobs.{
  Error, Faults, call, list_jobs as list_jobs_call, list_devices as list_devices_call,
  list_groups as list_groups_call,
}

-- discovery.Group
pub record Group : Type 0 where
  pub id : ℕ
  pub name : Bytes
  pub machine_count : ℕ

abbrev newest_first : JobRow → JobRow → Bool
newest_first a b = leb b.id a.id

unfoldable pub list_jobs : Faults → Db → Result Error (List JobRow)
unfolding order_by
list_jobs fails db =
    call fails list_jobs_call >> ok (take 20 (order_by newest_first db.discovery_jobs))

abbrev members : ℕ → Db → ℕ
members id db = length (keep (λ (m : ℕ × ℕ). m.1 == id) db.machine_groups)

abbrev nocase_before : GroupRow → GroupRow → Bool
nocase_before a b = not (bytes_less (map lower b.name) (map lower a.name))

abbrev group_of : Db → GroupRow → Group
group_of db g = record { id = g.id; name = g.name; machine_count = members g.id db }

unfoldable pub list_groups : Faults → Db → Result Error (List Group)
unfolding order_by
list_groups fails db =
    call fails list_groups_call >> ok (map (group_of db) (order_by nocase_before db.groups))

abbrev kind_and_value : Fingerprint → Bytes
kind_and_value f = f.kind ++ codes "=" ++ f.value

abbrev address_before : DeviceRow → DeviceRow → Bool
address_before a b = not (bytes_less b.address a.address)

-- The orders in which the database and `range` give out what has none.
pub record Orders : Type 0 where
  pub ports : List ℕ → List ℕ
  pub port_keys : List ℕ → List ℕ
  pub fingerprints : List Fingerprint → List Fingerprint
  pub fingerprint_keys : List Fingerprint → List Fingerprint
  pub group_keys : List Bytes → List Bytes

abbrev port_rows : ℕ → Db → List ℕ
port_rows id db =
    map (λ (r : ℕ × ℕ). r.1) (keep (λ (r : ℕ × ℕ). r.0 == id) db.discovered_device_ports)

abbrev fingerprint_rows : ℕ → Db → List Fingerprint
fingerprint_rows id db =
    map (λ (r : ℕ × Fingerprint). r.1)
      (keep (λ (r : ℕ × Fingerprint). r.0 == id) db.discovered_device_fingerprints)

-- The columns `group_concat(port)` and `group_concat(kind || '=' || value)`.
abbrev concat_ports : Orders → ℕ → Db → Bytes
concat_ports orders id db = join (codes ",") (map itoa (orders.ports (port_rows id db)))

abbrev concat_fingerprints : Orders → ℕ → Db → Bytes
concat_fingerprints orders id db =
    join (codes ",") (map kind_and_value (orders.fingerprints (fingerprint_rows id db)))

unfoldable pub device_of : Orders → Db → DeviceRow → Device
unfolding parse_ports format_ports guess_machine_type parse_fingerprints
device_of orders db d =
    let open_ports = parse_ports orders.port_keys (concat_ports orders d.id db) in
    record {
      id = d.id;
      job_id = d.job_id;
      address = d.address;
      detected_port = d.detected_port;
      open_ports = open_ports;
      open_ports_text = format_ports open_ports;
      guessed_type = guess_machine_type open_ports;
      fingerprints =
          parse_fingerprints orders.fingerprint_keys (concat_fingerprints orders d.id db);
      identity_hint = [];
      status = d.status;
      machine_id = d.machine_id;
    }

unfoldable pub list_devices : Orders → Faults → ℕ → Db → Result Error (List Device)
unfolding order_by device_of classify_identity_groups
list_devices orders fails job_id db =
    let rows =
      order_by address_before
        (keep (λ (d : DeviceRow). d.job_id == job_id) db.discovered_devices) in
    call fails list_devices_call
    >> ok (classify_identity_groups orders.group_keys (map (device_of orders db) rows))
