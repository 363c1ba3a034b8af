-- ===== src/Managers/Profiles.antt =====
-- manager/profile_manager.py: the profiles of single devices.
use net_father.Prelude.{
  ℕ, Bool, not, ◌&&◌, ◌||◌, Option, none, some, List, [], ◌∷◌, ◌++◌, map, any, keep, ltb, length,
  ◌==◌, nat_eq, text_eq_instance, if◌then◌else◌, Text, Result, ok, err, validation_error,
  profile_not_found, duplicate_profile, attribute_error,
}
use net_father.Prelude.Strings.{codes, decimal, is_empty, lower, strip}
use net_father.Models.{Device}
use net_father.Models.Policies.{Profile}
use net_father.Database.{Database, fresh_id, get_device, get_profile}
use net_father.Database.Session.{
  Session, pure, gets, require, lift, modify, raise_when, ◌>>=◌, ◌>>◌, note,
}
use net_father.Managers.Devices.Find.{require_by_name}

unfoldable pub validate_name : Text → Result Text
validate_name name =
    let cleaned = strip name in
    if is_empty cleaned
    then err validation_error
    else if ltb 128 (length cleaned)
    then err validation_error
    else ok cleaned

unfoldable pub validate_mode : Text → Result Text
validate_mode mode =
    let normalized = lower (strip mode) in
    if normalized == codes "unrestricted"
      || (normalized == codes "controlled" || normalized == codes "blocked")
    then ok normalized
    else err validation_error

unfoldable pub require_profile : ℕ → Session Profile
require_profile profile_id = do
  found ← gets (get_profile profile_id)
  require found profile_not_found

-- A profile of the device with this name, other than one that is given.
unfoldable pub has_other : ℕ → Text → Option ℕ → List Profile → Bool
has_other device_id name none profiles =
    any (λ (p : Profile). p.device_id == device_id && p.name == name) profiles
has_other device_id name (some id) profiles =
    any (λ (p : Profile). p.device_id == device_id && (p.name == name && not (p.id == id))) profiles

abbrev add_profile : Profile → Database → Database
add_profile profile db = record db { profiles = db.profiles ++ (profile ∷ []) }

unfoldable pub set_profile : Profile → List Profile → List Profile
set_profile profile profiles =
    map (λ (p : Profile). if p.id == profile.id then profile else p) profiles

abbrev write_profile : Profile → Database → Database
write_profile profile db = record db { profiles = set_profile profile db.profiles }

unfoldable pub remove_profile : ℕ → Database → Database
remove_profile profile_id db = record db {
  profiles = keep (λ (p : Profile). not (p.id == profile_id)) db.profiles;
}

abbrev pub mac_of : Option Device → Option Text
mac_of none = none
mac_of (some device) = some device.mac

abbrev in_mode : Text → Text → Text
in_mode name mode = name ++ (codes " (" ++ (mode ++ codes ")"))

unfoldable pub create_session : Text → Text → Text → Session Profile
create_session device_name name mode = do
  device ← require_by_name device_name
  duplicate ← gets (λ db. has_other device.id name none db.profiles)
  raise_when duplicate duplicate_profile
  id ← gets (λ db. fresh_id (map (λ (p : Profile). p.id) db.profiles))
  let profile : Profile = record {
    id = id;
    device_id = device.id;
    name = name;
    internet_mode = mode;
  }
  modify (add_profile profile)
  note (codes "profile_created")
      (codes "Profile " ++ (in_mode name mode ++ (codes " created for " ++ device.name)))
      (some device.mac) none
  pure profile

unfoldable pub create_profile : Text → Text → Text → Session Profile
create_profile device_name name internet_mode = do
  cleaned ← lift (validate_name name)
  mode ← lift (validate_mode internet_mode)
  create_session device_name cleaned mode

unfoldable pub set_mode : ℕ → Text → Session Profile
set_mode profile_id internet_mode = do
  mode ← lift (validate_mode internet_mode)
  profile ← require_profile profile_id
  let changed : Profile = record profile { internet_mode = mode }
  modify (write_profile changed)
  device ← gets (get_device profile.device_id)
  note (codes "profile_changed")
      (codes "Profile " ++ (decimal profile_id ++ (codes " mode -> " ++ mode))) (mac_of device) none
  pure changed

unfoldable pub delete_profile : ℕ → Session (Unit {0})
delete_profile profile_id = do
  profile ← require_profile profile_id
  device ← gets (get_device profile.device_id)
  note (codes "profile_deleted") (codes "Profile " ++ (decimal profile_id ++ codes " deleted"))
      (mac_of device) none
  modify (remove_profile profile_id)

unfoldable pub update_session : ℕ → Text → Text → Session Profile
update_session profile_id name mode = do
  profile ← require_profile profile_id
  duplicate ← gets (λ db. has_other profile.device_id name (some profile_id) db.profiles)
  raise_when duplicate duplicate_profile
  let changed : Profile = record profile { name = name; internet_mode = mode }
  modify (write_profile changed)
  owner ← gets (get_device profile.device_id)
  device ← require owner attribute_error
  note (codes "profile_changed")
      (codes "Device profile " ++ (decimal profile_id ++ (codes ": " ++ in_mode name mode)))
      (some device.mac) none
  pure changed

unfoldable pub update_profile : ℕ → Text → Text → Session Profile
update_profile profile_id name internet_mode = do
  cleaned ← lift (validate_name name)
  mode ← lift (validate_mode internet_mode)
  update_session profile_id cleaned mode
