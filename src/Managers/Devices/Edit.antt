-- ===== src/Managers/Devices/Edit.antt =====
-- The methods of manager/device_manager.py that add, change and delete one device. The present time
-- is an argument, and so are the vendors of the local database (Net.Mac).
use net_father.Prelude.{
  ℕ, Bool, true, false, not, ◌&&◌, Option, none, some, [], ◌++◌, map, is_some, ◌==◌, nat_eq,
  text_eq_instance, option_eq_instance, if◌then◌else◌, Text, ok, err, validation_error,
  duplicate_device, device_not_found,
}
use net_father.Prelude.Strings.{codes, is_empty, lower, strip}
use net_father.Models.{Device}
use net_father.Database.{Database, fresh_id}
use net_father.Database.Session.{
  Session, pure, gets, require, lift, modify, raise_when, ◌>>=◌, ◌>>◌, note,
}
use net_father.Net.Mac.{normalize_mac, lookup_vendor}
use net_father.Managers.Devices.Find.{
  has_text, or_else, or_none, find_by_name, require_by_name, find_by_mac, checked_mac, checked_name,
  write_device, insert_device, remove_device,
}
use net_father.Managers.Devices.Conflicts.{check_address_conflicts}
use net_father.Managers.Devices.Observations.{
  or_empty, add_observation, fresh_observation, plain_observation, record_manual_observation,
}

abbrev pub fresh_device : Database → ℕ
fresh_device db = fresh_id (map (λ (d : Device). d.id) db.devices)

-- `{previous_ip}` of a message.
abbrev shown_ip : Option Text → Text
shown_ip none = codes "None"
shown_ip (some ip) = ip

unfoldable pub ip_changed : Device → Option Text → Text → Session (Unit {0})
ip_changed device previous ip =
    note (codes "device_ip_changed")
      (device.name ++ (codes " IP changed: " ++ (shown_ip previous ++ (codes " -> " ++ ip))))
      (some device.mac) none

-- The row of `add_device`.
abbrev pub added_device :
    Option (Text → Option Text) → ℕ → Text → Text → Option Text → Option Text → Text → ℕ → Device
added_device vendors now cleaned mac ip vendor device_type id = record {
  id = id;
  name = cleaned;
  mac = mac;
  ip = ip;
  vendor = or_else vendor (lookup_vendor vendors mac);
  device_type = device_type;
  hostname = none;
  os_hint = none;
  online = false;
  auto_registered = false;
  identity_conflict = false;
  identity_note = none;
  created_at = now;
  last_seen = none;
}

unfoldable pub add_session :
    Option (Text → Option Text)
    → ℕ
    → Text
    → Text
    → Option Text
    → Option Text
    → Text
    → Session Device
add_session vendors now name mac ip vendor device_type = do
  same ← find_by_name name
  raise_when (is_some same) duplicate_device
  known ← find_by_mac mac
  raise_when (is_some known) duplicate_device
  cleaned ← lift (checked_name name)
  id ← gets fresh_device
  let device : Device = added_device vendors now cleaned mac ip vendor device_type id
  insert_device device duplicate_device
  if has_text ip then record_manual_observation id (or_empty ip) now else pure tt
  pure device

unfoldable pub add_device :
    Option (Text → Option Text)
    → ℕ
    → Text
    → Text
    → Option Text
    → Option Text
    → Text
    → Session Device
add_device vendors now name mac ip vendor device_type = do
  normalized ← lift (checked_mac mac)
  add_session vendors now name normalized ip vendor device_type

-- The address of `update_last_seen` where it is new.
unfoldable pub move_ip : ℕ → Device → Text → Session (Unit {0})
move_ip now device ip = do
  modify (write_device (record device { ip = some ip }))
  record_manual_observation device.id ip now
  if has_text device.ip then ip_changed device device.ip ip else pure tt

unfoldable pub update_last_seen : ℕ → Text → Option Text → Session (Unit {0})
update_last_seen now mac ip = do
  normalized ← lift (checked_mac mac)
  found ← find_by_mac normalized
  device ← require found device_not_found
  let seen : Device = record device { last_seen = some now }
  modify (write_device seen)
  if has_text ip && not (device.ip == ip) then move_ip now seen (or_empty ip) else pure tt

-- Another device than the given one was found.
abbrev pub is_other : Device → Option Device → Bool
is_other device none = false
is_other device (some d) = not (d.id == device.id)

unfoldable pub rename : Option Text → Device → Session Device
rename none device = pure device
rename (some new_name) device = do
  let cleaned : Text = strip new_name
  raise_when (is_empty cleaned) validation_error
  existing ← find_by_name cleaned
  raise_when (is_other device existing) duplicate_device
  let changed : Device = record device { name = cleaned }
  modify (write_device changed)
  pure changed

unfoldable pub change_mac : Option Text → Device → Session Device
change_mac none device = pure device
change_mac (some mac) device = do
  normalized ← lift (checked_mac mac)
  existing ← find_by_mac normalized
  raise_when (is_other device existing) duplicate_device
  let changed : Device = record device { mac = normalized }
  modify (write_device changed)
  pure changed

unfoldable pub note_ip : ℕ → Device → Text → Session (Unit {0})
note_ip now device new_ip = do
  record_manual_observation device.id new_ip now
  if has_text device.ip then ip_changed device device.ip new_ip else pure tt

unfoldable pub change_ip : ℕ → Option Text → Device → Session Device
change_ip now none device = pure device
change_ip now (some ip) device = do
  let new_ip : Option Text = or_none (strip ip)
  if not (new_ip == device.ip) && is_some new_ip
      then note_ip now device (or_empty new_ip)
      else pure tt
  let changed : Device = record device { ip = new_ip }
  modify (write_device changed)
  pure changed

unfoldable pub change_vendor : Option Text → Device → Session Device
change_vendor none device = pure device
change_vendor (some vendor) device = do
  let changed : Device = record device { vendor = or_none (strip vendor) }
  modify (write_device changed)
  pure changed

unfoldable pub change_type : Option Text → Device → Session Device
change_type none device = pure device
change_type (some device_type) device = do
  let cleaned : Text = lower (strip device_type)
  raise_when (is_empty cleaned) validation_error
  let changed : Device = record device { device_type = cleaned }
  modify (write_device changed)
  pure changed

-- The optional arguments of `update_device`; none leaves the column as it is.
pub record DeviceChanges : Type 0 where
  pub new_name : Option Text
  pub mac : Option Text
  pub ip : Option Text
  pub vendor : Option Text
  pub device_type : Option Text

unfoldable pub update_device : ℕ → Text → DeviceChanges → Session Device
update_device now name changes = do
  device ← require_by_name name
  renamed ← rename changes.new_name device
  moved ← change_mac changes.mac renamed
  addressed ← change_ip now changes.ip moved
  branded ← change_vendor changes.vendor addressed
  changed ← change_type changes.device_type branded
  note (codes "device_updated") (codes "Device updated: " ++ changed.name) (some changed.mac) none
  pure changed

unfoldable pub neighbor_ip : ℕ → Device → Option Text → Text → Session (Unit {0})
neighbor_ip now device previous ip = do
  modify (write_device (record device { ip = some ip }))
  ip_changed device previous ip
  id ← gets fresh_observation
  modify (add_observation (plain_observation id device.id ip (codes "neighbor") 90 now))

unfoldable pub come_online : ℕ → Device → Option Text → Session (Unit {0})
come_online now device ip = do
  let present : Device = record device { online = true; last_seen = some now }
  modify (write_device present)
  if has_text ip && not (device.ip == ip)
      then neighbor_ip now present device.ip (or_empty ip)
      else pure tt
  if device.online
      then pure tt
      else note (codes "device_online") (device.name ++ codes " ağa katıldı") (some device.mac) none
  check_address_conflicts []

unfoldable pub go_offline : Device → Session (Unit {0})
go_offline device = do
  modify (write_device (record device { online = false }))
  note (codes "device_offline") (device.name ++ codes " ağdan ayrıldı") (some device.mac) none

unfoldable pub change_presence : ℕ → Device → Bool → Option Text → Session (Unit {0})
change_presence now device true ip = come_online now device ip
change_presence now device false ip = if device.online then go_offline device else pure tt

unfoldable pub presence_session : ℕ → Text → Bool → Option Text → Session Bool
presence_session now normalized online ip = do
  found ← find_by_mac normalized
  elim found [
    | none ↦ pure false
    | some device ↦ (do change_presence now device online ip; pure true)
  ]

-- An address that cannot be normalized is no error here.
unfoldable pub update_presence : ℕ → Text → Bool → Option Text → Session Bool
update_presence now mac online ip = elim (normalize_mac mac) [
  | err _ ↦ pure false
  | ok normalized ↦ presence_session now normalized online ip
]

abbrev pub is_expected : Option ℕ → Device → Bool
is_expected none device = true
is_expected (some id) device = device.id == id

unfoldable pub delete_device : Text → Option ℕ → Session (Unit {0})
delete_device name expected_id = do
  device ← require_by_name name
  raise_when (not (is_expected expected_id device)) validation_error
  note (codes "device_deleted") (codes "Device deleted: " ++ device.name) (some device.mac) none
  modify (remove_device device.id)
