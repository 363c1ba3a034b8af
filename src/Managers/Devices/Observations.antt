-- ===== src/Managers/Devices/Observations.antt =====
-- `_record_observation` and `_record_manual_observation` of manager/device_manager.py. Among
-- records of one time, the one that stands first in the table is taken for the latest.
use net_father.Prelude.{
  ℕ, ◌+◌, Bool, true, false, not, ◌&&◌, Option, none, some, List, [], ◌∷◌, ◌++◌, map, keep, find,
  ltb, ◌==◌, nat_eq, text_eq_instance, option_eq_instance, if◌then◌else◌, Text, is_some, type_error,
}
use net_father.Prelude.Sorting.{sort}
use net_father.Prelude.Strings.{codes, is_empty, lower, strip, has_part}
use net_father.Models.{Device}
use net_father.Models.Evidence.{DeviceObservationRecord, AddressEvidence, ServiceEvidence}
use net_father.Database.{Database, fresh_id}
use net_father.Database.Session.{Session, pure, raise, gets, lift, modify, ◌>>=◌, ◌>>◌}
use net_father.Net.Mac.{normalize_mac}
use net_father.Net.Hosts.{DiscoveredHost, presence_confirmed}
use net_father.Managers.Devices.Find.{has_text}

-- `json.dumps` of the ports and of the services.
pub record JsonTexts : Type 0 where
  pub dump_ports : List ℕ → Text
  pub dump_services : List Text → Text

-- `text or ""`
abbrev pub or_empty : Option Text → Text
or_empty none = []
or_empty (some t) = t

unfoldable pub is_path : Device → DiscoveredHost → AddressEvidence → Bool
is_path device host e =
    e.device_id == device.id && (e.ip == host.ip && e.interface == or_empty host.interface)

-- `normalize_mac(host.mac)`
unfoldable pub mac_text : Option Text → Session Text
mac_text none = raise type_error
mac_text (some mac) = lift (normalize_mac mac)

unfoldable pub write_address : AddressEvidence → Database → Database
write_address e db = record db {
  addresses = map (λ (x : AddressEvidence). if x.id == e.id then e else x) db.addresses;
}

unfoldable pub add_address : AddressEvidence → Database → Database
add_address e db = record db { addresses = db.addresses ++ (e ∷ []) }

-- The path is new, or it is seen again.
unfoldable pub store_path :
    Device → DiscoveredHost → ℕ → ℕ → Text → Option AddressEvidence → Session (Unit {0})
store_path device host observed_at id mac none = modify (
    add_address (record {
      id = id;
      device_id = device.id;
      ip = host.ip;
      interface = or_empty host.interface;
      observed_mac = mac;
      source = host.source;
      first_seen = observed_at;
      last_seen = observed_at;
    }))
store_path device host observed_at id mac (some e) =
    modify (
      write_address
        (record e { last_seen = observed_at; observed_mac = mac; source = host.source }))

-- The path to a device, which the address and the interface name.
unfoldable pub record_address : Device → DiscoveredHost → ℕ → Session (Unit {0})
record_address device host observed_at = do
  path ← gets (λ db. find (is_path device host) db.addresses)
  id ← gets (λ db. fresh_id (map (λ (e : AddressEvidence). e.id) db.addresses))
  mac ← mac_text host.mac
  store_path device host observed_at id mac path

-- The first row in the order of a query with a limit of one.
abbrev first_of : {A : Type 0} → List A → Option A
first_of [] = none
first_of (x ∷ xs) = some x

-- `order_by(observed_at.desc(), id.desc())`
abbrev later_service : ServiceEvidence → ServiceEvidence → Bool
later_service a b =
    if ltb b.observed_at a.observed_at
    then true
    else if ltb a.observed_at b.observed_at
    then false
    else ltb b.id a.id

unfoldable pub latest_service : Device → Text → List ServiceEvidence → Option ServiceEvidence
latest_service device ip services = first_of (
    sort later_service
      (keep (λ (s : ServiceEvidence). s.device_id == device.id && s.ip == ip) services))

abbrev pub same_service : Option ServiceEvidence → ServiceEvidence → Bool
same_service none new = false
same_service (some s) new =
    s.tcp_ports == new.tcp_ports && (s.udp_ports == new.udp_ports && s.services == new.services)

abbrev pub add_service : ServiceEvidence → Database → Database
add_service s db = record db { services = db.services ++ (s ∷ []) }

abbrev pub service_row : JsonTexts → Device → DiscoveredHost → ℕ → ℕ → ServiceEvidence
service_row json device host observed_at id = record {
  id = id;
  device_id = device.id;
  ip = host.ip;
  observed_at = observed_at;
  tcp_ports = json.dump_ports host.open_tcp_ports;
  udp_ports = json.dump_ports host.open_udp_ports;
  services = json.dump_services host.services;
  source = codes "nmap";
}

unfoldable pub record_services : JsonTexts → Device → DiscoveredHost → ℕ → Session (Unit {0})
record_services json device host observed_at = do
  latest ← gets (λ db. latest_service device host.ip db.services)
  id ← gets (λ db. fresh_id (map (λ (s : ServiceEvidence). s.id) db.services))
  if same_service latest (service_row json device host observed_at id)
      then pure tt
      else modify (add_service (service_row json device host observed_at id))

-- `(host.source or "unknown").strip().lower() or "unknown"`
unfoldable pub source_of : Text → Text
source_of source =
    let cleaned = lower (strip source) in if is_empty cleaned then codes "unknown" else cleaned

abbrev capped : ℕ → ℕ
capped n = if ltb 100 n then 100 else n

-- In hundredths.
unfoldable pub confidence_of : Text → DiscoveredHost → ℕ
confidence_of source host =
    let base = if has_part source (codes "active") then 95 else 80 in
    let deep = if has_part source (codes "deep") then capped (base + 3) else base in
    let named = if has_text host.hostname then capped (deep + 3) else deep in
    if has_text host.vendor then capped (named + 2) else named

-- The latest record of this device, address and source.
unfoldable pub latest_observation :
    ℕ → Text → Text → List DeviceObservationRecord → Option DeviceObservationRecord
latest_observation device_id ip source observations = first_of (
    sort (λ (a b : DeviceObservationRecord). ltb b.observed_at a.observed_at)
      (keep
        (λ (o : DeviceObservationRecord).
          o.device_id == device_id && (o.ip == some ip && o.source == source))
        observations))

unfoldable pub same_metadata : Option DeviceObservationRecord → DiscoveredHost → Bool
same_metadata none host = false
same_metadata (some o) host =
    o.interface == host.interface
    && (o.hostname == host.hostname
        && (o.vendor == host.vendor
            && (o.device_type == host.device_type && o.os_hint == host.os_hint)))

abbrev pub add_observation : DeviceObservationRecord → Database → Database
add_observation o db = record db { observations = db.observations ++ (o ∷ []) }

abbrev pub fresh_observation : Database → ℕ
fresh_observation db = fresh_id (map (λ (o : DeviceObservationRecord). o.id) db.observations)

abbrev pub observation_row : Device → DiscoveredHost → ℕ → ℕ → DeviceObservationRecord
observation_row device host observed_at id = record {
  id = id;
  device_id = device.id;
  ip = some host.ip;
  interface = host.interface;
  hostname = host.hostname;
  vendor = host.vendor;
  device_type = host.device_type;
  os_hint = host.os_hint;
  source = source_of host.source;
  confidence = confidence_of (source_of host.source) host;
  observed_at = observed_at;
}

unfoldable pub record_metadata : Device → DiscoveredHost → ℕ → Session (Unit {0})
record_metadata device host observed_at = do
  latest ← gets (λ db. latest_observation device.id host.ip (source_of host.source) db.observations)
  id ← gets fresh_observation
  if same_metadata latest host
      then pure tt
      else modify (add_observation (observation_row device host observed_at id))

unfoldable pub record_observation : JsonTexts → Device → DiscoveredHost → ℕ → Session (Unit {0})
record_observation json device host observed_at = do
  if not (is_empty host.ip) && presence_confirmed host
      then record_address device host observed_at
      else pure tt
  if host.scan_method == some (codes "nmap")
      then record_services json device host observed_at
      else pure tt
  record_metadata device host observed_at

-- An observation with the given columns, and no others.
abbrev pub plain_observation : ℕ → ℕ → Text → Text → ℕ → ℕ → DeviceObservationRecord
plain_observation id device_id ip source confidence observed_at = record {
  id = id;
  device_id = device_id;
  ip = some ip;
  interface = none;
  hostname = none;
  vendor = none;
  device_type = none;
  os_hint = none;
  source = source;
  confidence = confidence;
  observed_at = observed_at;
}

unfoldable pub record_manual_observation : ℕ → Text → ℕ → Session (Unit {0})
record_manual_observation device_id ip observed_at = do
  latest ← gets (λ db. latest_observation device_id ip (codes "manual") db.observations)
  id ← gets fresh_observation
  if is_some latest
      then pure tt
      else modify
          (add_observation (plain_observation id device_id ip (codes "manual") 100 observed_at))
