-- ===== src/Managers/Devices/Sync.antt =====
-- `sync_discovered_hosts` of manager/device_manager.py.
use net_father.Prelude.{
  ℕ, ◌+◌, Bool, true, not, ◌&&◌, Option, none, some, List, [], ◌∷◌, ◌++◌, contains, ◌==◌,
  text_eq_instance, option_eq_instance, if◌then◌else◌, Text, Result, ok, err,
}
use net_father.Prelude.Strings.{codes, is_empty}
use net_father.Models.{Device}
use net_father.Database.Session.{Session, pure, modify, ◌>>=◌, ◌>>◌, note}
use net_father.Net.Mac.{normalize_mac}
use net_father.Net.Hosts.{DiscoveredHost, presence_confirmed}
use net_father.Managers.Devices.Find.{has_text, or_else, or_none, find_by_mac, write_device}
use net_father.Managers.Devices.Observations.{JsonTexts, or_empty, record_observation}
use net_father.Managers.Devices.Edit.{ip_changed}

-- The address under which an observation counts: it is confirmed, and has one that is valid.
unfoldable pub confirmed_mac : DiscoveredHost → Option Text
confirmed_mac host =
    if has_text host.mac && presence_confirmed host
    then normal_mac (normalize_mac (or_empty host.mac))
    else none
  where
    normal_mac : Result Text → Option Text
    normal_mac (ok mac) = some mac
    normal_mac (err _) = none

-- The columns that an observation gives, where it has them.
unfoldable pub observed : ℕ → Device → DiscoveredHost → Device
observed now device host = record device {
  last_seen = some now;
  online = true;
  ip = or_else (or_none host.ip) device.ip;
  vendor = or_else host.vendor device.vendor;
  hostname = or_else host.hostname device.hostname;
  device_type = or_empty (or_else host.device_type (some device.device_type));
  os_hint = or_else host.os_hint device.os_hint;
}

-- An address replaced another one.
abbrev pub is_moved : Option Text → Text → Bool
is_moved previous ip = not (is_empty ip) && (has_text previous && not (previous == some ip))

unfoldable pub sync_device : JsonTexts → ℕ → Device → DiscoveredHost → Session (Unit {0})
sync_device json now device host = do
  let changed : Device = observed now device host
  modify (write_device changed)
  record_observation json device host now
  if is_moved device.ip host.ip then ip_changed device device.ip host.ip else pure tt
  if device.online
      then pure tt
      else note (codes "device_online") (device.name ++ codes " ağa katıldı") (some device.mac) none

-- One confirmed observation, given what counts the rest.
unfoldable pub sync_host : JsonTexts → ℕ → Text → DiscoveredHost → Session ℕ → Session ℕ
sync_host json now mac host rest = do
  found ← find_by_mac mac
  elim found [
    | none ↦ rest
    | some device ↦ (do sync_device json now device host; updated ← rest; pure (updated + 1))
  ]

-- The loop; each address counts once. The result is the number of devices updated.
unfoldable pub sync_loop : JsonTexts → ℕ → List DiscoveredHost → List Text → Session ℕ
sync_loop json now [] seen = pure 0
sync_loop json now (host ∷ hosts) seen = elim (confirmed_mac host) [
  | none ↦ sync_loop json now hosts seen
  | some mac ↦
      if contains mac seen
      then sync_loop json now hosts seen
      else sync_host json now mac host (sync_loop json now hosts (mac ∷ seen))
]

unfoldable pub sync_discovered_hosts : JsonTexts → ℕ → List DiscoveredHost → Session ℕ
sync_discovered_hosts json now hosts = sync_loop json now hosts []
