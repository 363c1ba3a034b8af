-- ===== src/Managers/Devices/Find.antt =====
-- The lookups of manager/device_manager.py, and the checks on the columns of models/device.py.
use net_father.Prelude.{
  ℕ, Bool, false, not, ◌||◌, Option, none, some, List, [], ◌∷◌, ◌++◌, map, any, keep, find, ◌==◌,
  nat_eq, text_eq_instance, if◌then◌else◌, Text, Result, ok, err, Error, validation_error,
  value_error, device_not_found,
}
use net_father.Prelude.Sorting.{sort}
use net_father.Prelude.Strings.{is_empty, strip, text_before}
use net_father.Models.{Device}
use net_father.Models.Policies.{Profile, Rule, ProfileAssignment}
use net_father.Models.Evidence.{
  DeviceObservationRecord, IdentityAlias, AddressEvidence, ServiceEvidence,
}
use net_father.Database.{Database, get_device, get_alias}
use net_father.Database.Session.{
  Session, pure, gets, require, lift, modify, raise_when, ◌>>=◌, ◌>>◌,
}
use net_father.Net.Mac.{normalize_mac}

-- A text that is there and is not empty: Python's truth value of `str | None`.
abbrev pub has_text : Option Text → Bool
has_text none = false
has_text (some t) = not (is_empty t)

-- `a or b`
abbrev pub or_else : Option Text → Option Text → Option Text
or_else a b = if has_text a then a else b

-- `text or None`
abbrev pub or_none : Text → Option Text
or_none t = if is_empty t then none else some t

abbrev pub find_by_name : Text → Session (Option Device)
find_by_name name = gets (λ db. find (λ (d : Device). d.name == strip name) db.devices)

unfoldable pub require_by_name : Text → Session Device
require_by_name name = do found ← find_by_name name; require found device_not_found

-- The device with this address, or else the one that an alias of the address names.
unfoldable pub device_of_mac : Text → Database → Option Device
device_of_mac mac db = elim (find (λ (d : Device). d.mac == mac) db.devices) [
  | some device ↦ some device
  | none ↦ elim (get_alias mac db) [ none ↦ none | some alias ↦ get_device alias.device_id db ]
]

unfoldable pub find_by_mac : Text → Session (Option Device)
find_by_mac mac = do normalized ← lift (normalize_mac mac); gets (device_of_mac normalized)

-- `normalize_mac` with its ValueError turned into ValidationError.
unfoldable pub checked_mac : Text → Result Text
checked_mac mac = elim (normalize_mac mac) [ ok t ↦ ok t | err _ ↦ err validation_error ]

-- `order_by(Device.name)`
unfoldable pub list_devices : Database → List Device
list_devices db = sort (λ (a b : Device). text_before a.name b.name) db.devices

unfoldable pub get_device_by_mac : Text → Session (Option Device)
get_device_by_mac mac = do normalized ← lift (checked_mac mac); find_by_mac normalized

-- The validator of the column `name`.
unfoldable pub column_name : Text → Result Text
column_name name =
    let cleaned = strip name in if is_empty cleaned then err value_error else ok cleaned

-- The same with its ValueError turned into ValidationError.
unfoldable pub checked_name : Text → Result Text
checked_name name = elim (column_name name) [ ok t ↦ ok t | err _ ↦ err validation_error ]

-- The columns of one row are set.
unfoldable pub set_device : Device → List Device → List Device
set_device device devices = map (λ (d : Device). if d.id == device.id then device else d) devices

abbrev pub write_device : Device → Database → Database
write_device device db = record db { devices = set_device device db.devices }

-- The unique columns `name` and `mac`.
unfoldable pub is_taken : Device → List Device → Bool
is_taken device devices = any (λ (d : Device). d.name == device.name || d.mac == device.mac) devices

abbrev pub add_device_row : Device → Database → Database
add_device_row device db = record db { devices = db.devices ++ (device ∷ []) }

-- `session.add(device)` and `session.flush()`; the error is what IntegrityError becomes.
unfoldable pub insert_device : Device → Error → Session (Unit {0})
insert_device device error = do
  taken ← gets (λ db. is_taken device db.devices)
  raise_when taken error
  modify (add_device_row device)

-- `session.delete(device)`: every row that refers to the device goes with it.
unfoldable pub remove_device : ℕ → Database → Database
remove_device id db = record db {
  devices = keep (λ (d : Device). not (d.id == id)) db.devices;
  profiles = keep (λ (p : Profile). not (p.device_id == id)) db.profiles;
  rules = keep (λ (r : Rule). not (r.device_id == id)) db.rules;
  assignments = keep (λ (a : ProfileAssignment). not (a.device_id == id)) db.assignments;
  observations = keep (λ (o : DeviceObservationRecord). not (o.device_id == id)) db.observations;
  aliases = keep (λ (a : IdentityAlias). not (a.device_id == id)) db.aliases;
  addresses = keep (λ (a : AddressEvidence). not (a.device_id == id)) db.addresses;
  services = keep (λ (s : ServiceEvidence). not (s.device_id == id)) db.services;
}

-- The body of a loop that returns nothing, for each element.
unfoldable pub each_do : {A : Type 0} → (A → Session (Unit {0})) → List A → Session (Unit {0})
each_do f [] = pure tt
each_do f (x ∷ xs) = f x >> each_do f xs
