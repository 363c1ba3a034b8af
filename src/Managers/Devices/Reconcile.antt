-- ===== src/Managers/Devices/Reconcile.antt =====
-- `reconcile_discovery` of manager/device_manager.py.
use net_father.Prelude.{
  ℕ, ◌+◌, ◌*◌, Bool, true, false, not, ◌&&◌, ◌||◌, Option, none, some, List, [], ◌∷◌, ◌++◌, map,
  ltb, leb, eqb, contains, ◌==◌, text_eq_instance, option_eq_instance, if◌then◌else◌, Text,
  database_error,
}
use net_father.Prelude.Int.{ℤ, pos, negsuc}
use net_father.Prelude.Strings.{codes, text_before}
use net_father.Models.{Device}
use net_father.Database.Session.{Session, pure, gets, lift, modify, ◌>>=◌, ◌>>◌, note}
use net_father.Net.Addresses.{IpLibrary}
use net_father.Net.Mac.{lookup_vendor}
use net_father.Net.Hosts.{DiscoveredHost}
use net_father.Managers.Devices.Find.{
  or_else, or_none, find_by_mac, column_name, write_device, insert_device, each_do,
}
use net_father.Managers.Devices.Conflicts.{check_address_conflicts}
use net_father.Managers.Devices.Observations.{JsonTexts, or_empty, record_observation}
use net_father.Managers.Devices.Names.{auto_name}
use net_father.Managers.Devices.Edit.{fresh_device, ip_changed}
use net_father.Managers.Devices.Sync.{confirmed_mac, is_moved}

-- `preferred_address_key` of network/identity.py: IPv4, then routed IPv6, then link-local IPv6,
-- then what is no address.
unfoldable pub preferred_address_key : IpLibrary → Text → ℕ
preferred_address_key lib address = elim (lib.ip_address address) [
  | none ↦ 3
  | some ip ↦ if eqb ip.version 4 then 0 else if lib.is_link_local ip then 2 else 1
]

-- What one scan reports of a device: its paths, of which there is at least one.
pub record Group : Type 0 where
  pub mac : Text
  pub first : DiscoveredHost
  pub others : List DiscoveredHost

abbrev pub paths : Group → List DiscoveredHost
paths g = g.first ∷ g.others

-- `groups.setdefault(mac, []).append(host)`
unfoldable pub add_path : Text → DiscoveredHost → List Group → List Group
add_path mac host [] = record { mac = mac; first = host; others = [] } ∷ []
add_path mac host (g ∷ groups) =
    let rest = add_path mac host groups in
    if g.mac == mac then record g { others = g.others ++ (host ∷ []) } ∷ groups else g ∷ rest

abbrev pub known_mac : Option Device → Text → Text
known_mac none mac = mac
known_mac (some device) mac = device.mac

-- The first loop.
unfoldable pub group_hosts : List DiscoveredHost → List Group → Session (List Group)
group_hosts [] groups = pure groups
group_hosts (host ∷ hosts) groups = elim (confirmed_mac host) [
  | none ↦ group_hosts hosts groups
  | some mac ↦
      find_by_mac mac >>= λ known. group_hosts hosts (add_path (known_mac known mac) host groups)
]

abbrev pub known_ip : Option Device → Option Text
known_ip none = none
known_ip (some device) = device.ip

-- The order of the key `(preferred_address_key(ip), ip != known, ip, interface or "")`.
unfoldable pub path_before : IpLibrary → Option Text → DiscoveredHost → DiscoveredHost → Bool
path_before lib known a b =
    let p = preferred_address_key lib a.ip in
    let q = preferred_address_key lib b.ip in
    let stays = known == some a.ip in
    let other = known == some b.ip in
    ltb p q
    || eqb p q
      && (stays && not other
          || (stays && other || not stays && not other)
            && (text_before a.ip b.ip
                || a.ip == b.ip && text_before (or_empty a.interface) (or_empty b.interface)))

-- `min(paths, key=...)`: the first of the least.
unfoldable pub least :
    (DiscoveredHost → DiscoveredHost → Bool) → DiscoveredHost → List DiscoveredHost → DiscoveredHost
least before best [] = best
least before best (x ∷ xs) = if before x best then least before x xs else least before best xs

-- The columns of a known device that a scan refreshes.
unfoldable pub refreshed : ℕ → Device → DiscoveredHost → Device
refreshed now device host = record device {
  ip = or_else (or_none host.ip) device.ip;
  vendor = or_else host.vendor device.vendor;
  hostname = or_else host.hostname device.hostname;
  os_hint = or_else host.os_hint device.os_hint;
  device_type =
      if or_empty host.device_type == codes "unknown"
      then device.device_type
      else or_empty (or_else host.device_type (some device.device_type));
  last_seen = some now;
  online = true;
}

unfoldable pub refresh_device : ℕ → Device → DiscoveredHost → Session (Unit {0})
refresh_device now device host = do
  modify (write_device (refreshed now device host))
  if is_moved device.ip host.ip then ip_changed device device.ip host.ip else pure tt
  if device.online
      then pure tt
      else note (codes "device_online") (device.name ++ codes " online") (some device.mac) none

-- The row of a device that registers itself.
abbrev pub found_device :
    Option (Text → Option Text) → ℕ → Text → DiscoveredHost → Text → ℕ → Device
found_device vendors now mac host cleaned id = record {
  id = id;
  name = cleaned;
  mac = mac;
  ip = some host.ip;
  vendor = or_else host.vendor (lookup_vendor vendors mac);
  device_type = or_empty (or_else host.device_type (some (codes "unknown")));
  hostname = host.hostname;
  os_hint = host.os_hint;
  online = true;
  auto_registered = true;
  identity_conflict = false;
  identity_note = none;
  created_at = now;
  last_seen = some now;
}

unfoldable pub register_device :
    Option (Text → Option Text) → ℕ → Text → DiscoveredHost → Text → Session Device
register_device vendors now mac host name = do
  cleaned ← lift (column_name name)
  id ← gets fresh_device
  let device : Device = found_device vendors now mac host cleaned id
  insert_device device database_error
  note (codes "device_discovered") (codes "New device: " ++ cleaned) (some mac) none
  pure device

-- What the second loop counts, and the names that it has given.
pub record Progress : Type 0 where
  pub names : List Text
  pub created : ℕ
  pub updated : ℕ

module _ (vendors : Option (Text → Option Text)) (lib : IpLibrary) (json : JsonTexts) (now : ℕ)
    (auto_register : Bool) where
  abbrev pub observe_paths : Device → Group → Session (Unit {0})
  observe_paths device g = each_do (λ path. record_observation json device path now) (paths g)

  abbrev pub chosen : Group → Option Device → DiscoveredHost
  chosen g found = least (path_before lib (known_ip found)) g.first g.others

  -- A device that is not known registers itself, if that is wanted.
  unfoldable pub reconcile_new : Group → Progress → Session Progress
  reconcile_new g p = do
    let host : DiscoveredHost = chosen g none
    let name : Text = auto_name host p.names
    device ← register_device vendors now g.mac host name
    observe_paths device g
    pure (record p { names = name ∷ p.names; created = p.created + 1 })

  unfoldable pub reconcile_known : Group → Progress → Device → Session Progress
  reconcile_known g p device = do
    refresh_device now device (chosen g (some device))
    observe_paths device g
    pure (record p { updated = p.updated + 1 })

  unfoldable pub reconcile_found : Group → Progress → Option Device → Session Progress
  reconcile_found g p none = if auto_register then reconcile_new g p else pure p
  reconcile_found g p (some device) = reconcile_known g p device

  -- One device of the scan.
  unfoldable pub reconcile_group : Group → Progress → Session Progress
  reconcile_group g p = do found ← find_by_mac g.mac; reconcile_found g p found

  unfoldable pub reconcile_groups : List Group → Progress → Session Progress
  reconcile_groups [] p = pure p
  reconcile_groups (g ∷ groups) p = do next ← reconcile_group g p; reconcile_groups groups next

-- `max(1, offline_after_seconds)` in microseconds.
abbrev pub grace : ℤ → ℕ
grace (pos n) = (if ltb 1 n then n else 1) * 1000000
grace (negsuc _) = 1000000

-- A device that is online, was not seen, and was last seen before the grace period.
unfoldable pub is_gone : ℕ → ℕ → List Text → Device → Bool
is_gone now period seen device =
    device.online && (not (contains device.mac seen) && is_old device.last_seen)
  where
    is_old : Option ℕ → Bool
    is_old none = false
    is_old (some t) = leb (t + period) now

unfoldable pub mark_gone : ℕ → ℕ → List Text → List Device → Session ℕ
mark_gone now period seen [] = pure 0
mark_gone now period seen (device ∷ devices) =
    if is_gone now period seen device
    then (do
      modify (write_device (record device { online = false }))
      note (codes "device_offline") (device.name ++ codes " offline") (some device.mac) none
      count ← mark_gone now period seen devices
      pure (count + 1))
    else mark_gone now period seen devices

unfoldable pub mark_missing : Bool → ℕ → ℕ → List Text → Session ℕ
mark_missing false now period seen = pure 0
mark_missing true now period seen = do
  devices ← gets (λ db. db.devices)
  mark_gone now period seen devices

-- The addresses that the paths of the scan claim.
unfoldable pub path_claims : List Group → List (Text × Text)
path_claims [] = []
path_claims (g ∷ groups) =
    map (λ (path : DiscoveredHost). (path.ip, g.mac)) (paths g) ++ path_claims groups

-- The result: new, updated and offline devices.
unfoldable pub reconcile_discovery :
    Option (Text → Option Text)
    → IpLibrary
    → JsonTexts
    → ℕ
    → Bool
    → ℤ
    → Bool
    → List DiscoveredHost
    → Session (ℕ × ℕ × ℕ)
reconcile_discovery vendors lib json now auto_register offline_after mark_missing_offline hosts = do
  names ← gets (λ db. map (λ (d : Device). d.name) db.devices)
  groups ← group_hosts hosts []
  progress ←
      reconcile_groups vendors lib json now auto_register groups
        (record { names = names; created = 0; updated = 0 })
  offline ←
      mark_missing mark_missing_offline now (grace offline_after)
        (map (λ (g : Group). g.mac) groups)
  check_address_conflicts (path_claims groups)
  pure (progress.created, progress.updated, offline)
