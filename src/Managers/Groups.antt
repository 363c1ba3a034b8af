-- ===== src/Managers/Groups.antt =====
-- manager/group_manager.py: reusable profiles and their assignment to devices.
pub mod Known
pub mod Calls
use net_father.Prelude.{
  ℕ, zero, suc, Bool, true, false, not, ◌&&◌, ◌||◌, Option, none, some, List, [], ◌∷◌, ◌++◌, map,
  any, find, keep, eqb, ◌==◌, nat_eq, text_eq_instance, option_eq_instance, if◌then◌else◌, Text,
  Result, ok, err, Error, validation_error, profile_not_found, attribute_error,
}
use net_father.Prelude.Strings.{codes, decimal}
use net_father.Models.{Device}
use net_father.Models.Policies.{PolicyGroup, ProfileAssignment, GroupRule}
use net_father.Database.{Database, fresh_id, get_device, get_group, get_assignment}
use net_father.Database.Session.{
  Session, pure, raise, gets, require, lift, modify, raise_when, ◌>>=◌, ◌>>◌, session, note,
}
use net_father.Managers.Profiles.{validate_name, validate_mode}

-- `json.dumps({"profile_id": profile_id})`
pub profile_metadata : ℕ → Option Text
profile_metadata profile_id = some (codes "{\"profile_id\": " ++ (decimal profile_id ++ codes "}"))

abbrev described : Text → ℕ → Text → Text
described verb profile_id rest = verb ++ (decimal profile_id ++ rest)

unfoldable pub require_group : ℕ → Session PolicyGroup
require_group profile_id = do
  profile ← gets (get_group profile_id)
  require profile profile_not_found

-- The columns of one row are set.
unfoldable pub set_group : PolicyGroup → List PolicyGroup → List PolicyGroup
set_group group groups = map (λ (g : PolicyGroup). if g.id == group.id then group else g) groups

abbrev write_group : PolicyGroup → Database → Database
write_group group db = record db { groups = set_group group db.groups }

abbrev add_group : PolicyGroup → Database → Database
add_group group db = record db { groups = db.groups ++ (group ∷ []) }

-- `profile_id` in a Boolean context.
abbrev pub truthy : Option ℕ → Bool
truthy none = false
truthy (some zero) = false
truthy (some (suc _)) = true

abbrev differs_from : Option ℕ → Option PolicyGroup → Bool
differs_from profile_id none = false
differs_from profile_id (some existing) = not (profile_id == some existing.id)

-- A row that is there is changed; otherwise a row is added.
unfoldable pub store_group : Text → Text → Option ℕ → Session PolicyGroup
store_group name mode (some (suc n)) = do
  profile ← require_group (suc n)
  let changed : PolicyGroup = record profile { name = name; internet_mode = mode }
  modify (write_group changed)
  pure changed
store_group name mode _ = do
  id ← gets (λ db. fresh_id (map (λ (g : PolicyGroup). g.id) db.groups))
  let created : PolicyGroup = record { id = id; name = name; internet_mode = mode }
  modify (add_group created)
  pure created

unfoldable pub save_session : Text → Text → Option ℕ → Session PolicyGroup
save_session name mode profile_id = do
  existing ← gets (λ db. find (λ (g : PolicyGroup). g.name == name) db.groups)
  raise_when (differs_from profile_id existing) validation_error
  profile ← store_group name mode profile_id
  note (if truthy profile_id then codes "profile_changed" else codes "profile_created")
      (described (codes "Reusable profile ") profile.id
        (codes ": " ++ (name ++ (codes " (" ++ (mode ++ codes ")")))))
      none (profile_metadata profile.id)
  pure profile

unfoldable pub save : Text → Text → Option ℕ → Session PolicyGroup
save name internet_mode profile_id = do
  cleaned ← lift (validate_name name)
  mode ← lift (validate_mode internet_mode)
  save_session cleaned mode profile_id

abbrev add_assignment : ProfileAssignment → Database → Database
add_assignment a db = record db { assignments = db.assignments ++ (a ∷ []) }

-- The device has no assignment: one is added.
unfoldable pub add_new : PolicyGroup → Device → Session (Unit {0})
add_new profile device = do
  modify (add_assignment (record { device_id = device.id; profile_id = profile.id }))
  note (codes "profile_changed")
      (described (codes "Assigned reusable profile ") profile.id (codes ": " ++ profile.name))
      (some device.mac) (profile_metadata profile.id)

unfoldable pub assign : ℕ → ℕ → Session (Unit {0})
assign profile_id device_id = do
  profile ← require_group profile_id
  found ← gets (get_device device_id)
  device ← require found validation_error
  existing ← gets (get_assignment device_id)
  elim existing [
    | none ↦ add_new profile device
    | some a ↦ if a.profile_id == profile_id then pure tt else raise validation_error
  ]

unfoldable pub remove_assignment : ℕ → Database → Database
remove_assignment device_id db = record db {
  assignments = keep (λ (a : ProfileAssignment). not (a.device_id == device_id)) db.assignments;
}

unfoldable pub unassign : ℕ → ℕ → Session (Unit {0})
unassign profile_id device_id = do
  found ← gets (get_assignment device_id)
  assignment ← require found validation_error
  raise_when (not (assignment.profile_id == profile_id)) validation_error
  owner ← gets (get_device device_id)
  device ← require owner attribute_error
  modify (remove_assignment device_id)
  note (codes "profile_changed") (described (codes "Unassigned reusable profile ") profile_id [])
      (some device.mac) (profile_metadata profile_id)

-- The rules of a group go with it (ON DELETE CASCADE).
unfoldable pub remove_group : ℕ → Database → Database
remove_group profile_id db = record db {
  groups = keep (λ (g : PolicyGroup). not (g.id == profile_id)) db.groups;
  group_rules = keep (λ (r : GroupRule). not (r.profile_id == profile_id)) db.group_rules;
}

abbrev pub is_assigned : ℕ → Database → Bool
is_assigned profile_id db =
    any (λ (a : ProfileAssignment). a.profile_id == profile_id) db.assignments

unfoldable pub delete : ℕ → Session (Unit {0})
delete profile_id = do
  profile ← require_group profile_id
  assigned ← gets (is_assigned profile_id)
  raise_when assigned validation_error
  note (codes "profile_deleted")
      (described (codes "Reusable profile ") profile.id (codes ": " ++ profile.name)) none
      (profile_metadata profile.id)
  modify (remove_group profile_id)
