-- ===== src/Managers/Identities/Split.antt =====
-- `split` and `resolve_conflict` of manager/identity_manager.py.
use net_father.Prelude.{
  ℕ, Bool, true, false, not, ◌&&◌, ◌||◌, Option, none, some, List, ◌++◌, map, any, keep, take,
  is_some, ◌==◌, nat_eq, text_eq_instance, option_eq_instance, if◌then◌else◌, Text,
  validation_error, database_error, attribute_error,
}
use net_father.Prelude.Strings.{codes, decimal, is_empty, strip}
use net_father.Models.{Device}
use net_father.Models.Evidence.{IdentityAlias, AddressEvidence}
use net_father.Database.{Database, get_device, get_alias}
use net_father.Database.Session.{
  Session, pure, gets, require, lift, modify, raise_when, ◌>>=◌, ◌>>◌, note,
}
use net_father.Net.Mac.{normalize_mac, normalize_identity}
use net_father.Managers.Devices.Find.{
  has_text, find_by_name, column_name, write_device, insert_device,
}
use net_father.Managers.Devices.Edit.{fresh_device}

abbrev belongs_to : ℕ → Option IdentityAlias → Bool
belongs_to retained_id none = false
belongs_to retained_id (some alias) = alias.device_id == retained_id

-- The evidence of an address goes to the device that is split off, and the alias goes.
unfoldable pub move_evidence : ℕ → Text → ℕ → Database → Database
move_evidence retained_id alias_mac id db = record db {
  addresses =
      map
        (λ (e : AddressEvidence).
          if e.device_id == retained_id && e.observed_mac == alias_mac
          then record e { device_id = id }
          else e)
        db.addresses;
  aliases = keep (λ (a : IdentityAlias). not (a.mac == alias_mac)) db.aliases;
}

abbrev flag_retained : Device → Device
flag_retained retained = record retained {
  identity_conflict = true;
  identity_note = some (codes "Identity split: verify the retained address before enforcement.");
}

unfoldable pub split_session : ℕ → ℕ → Text → Text → Session Device
split_session now retained_id alias_mac name = do
  alias ← gets (get_alias alias_mac)
  raise_when (not (belongs_to retained_id alias)) validation_error
  same ← find_by_name name
  raise_when (is_some same) validation_error
  owner ← gets (get_device retained_id)
  cleaned ← lift (column_name name)
  mac ← lift (normalize_mac alias_mac)
  id ← gets fresh_device
  let device : Device = record {
    id = id;
    name = cleaned;
    mac = mac;
    ip = none;
    vendor = none;
    device_type = codes "unknown";
    hostname = none;
    os_hint = none;
    online = false;
    auto_registered = false;
    identity_conflict = false;
    identity_note = some (codes "Manually split identity; assign policies after verification.");
    created_at = now;
    last_seen = none;
  }
  insert_device device database_error
  modify (move_evidence retained_id alias_mac id)
  retained ← require owner attribute_error
  modify (write_device (flag_retained retained))
  note (codes "identity_split")
      (codes "Split alias into device " ++ (decimal id ++ codes "; policy assignment is explicit."))
      (some alias_mac) none
  pure device

unfoldable pub split : ℕ → ℕ → Text → Text → Bool → Session Device
split now retained_id alias_mac name confirmed = do
  raise_when (not confirmed || is_empty (strip name)) validation_error
  normalized ← lift (normalize_identity alias_mac)
  split_session now retained_id normalized name

-- Another device is online with this address.
unfoldable pub is_claimed : Device → List Device → Bool
is_claimed device devices =
    has_text device.ip
    && any (λ (d : Device). not (d.id == device.id) && (d.ip == device.ip && d.online)) devices

-- The tests that come before the address is normalized.
abbrev is_reviewed : Option Text → Device → Bool
is_reviewed expected_ip device = device.ip == expected_ip

unfoldable pub resolve_conflict : ℕ → Option Text → Text → Text → Session (Unit {0})
resolve_conflict device_id expected_ip expected_mac reason = do
  found ← gets (get_device device_id)
  device ← require found validation_error
  raise_when (not (is_reviewed expected_ip device)) validation_error
  mac ← lift (normalize_identity expected_mac)
  raise_when (not (device.mac == mac) || is_empty (strip reason)) validation_error
  claimed ← gets (λ db. is_claimed device db.devices)
  raise_when claimed validation_error
  modify (
      write_device (record device {
        identity_conflict = false;
        identity_note = some (take 512 (strip reason));
      }))
  note (codes "identity_resolved") (take 512 (codes "Identity reviewed: " ++ reason))
      (some device.mac) none
