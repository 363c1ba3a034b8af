-- ===== src/Managers/Rules.antt =====
-- manager/rule_manager.py: the access rules of devices and of reusable profiles.
pub mod Stored
pub mod Calls
pub mod Queries
pub mod Active
pub mod Clash
pub mod Overlap
use net_father.Prelude.{
  ℕ, suc, Bool, true, false, not, ◌&&◌, ◌||◌, Option, none, some, List, [], ◌∷◌, ◌++◌, map, keep,
  is_some, ◌==◌, nat_eq, text_eq_instance, if◌then◌else◌, Text, Result, ok, err, Error,
  validation_error, rule_not_found, attribute_error,
}
use net_father.Prelude.Int.{ℤ, pos, negsuc}
use net_father.Prelude.Strings.{codes, decimal, is_empty}
use net_father.Models.{Device}
use net_father.Models.Policies.{
  PolicyGroup, RuleFields, Rule, GroupRule, AnyRule, of_device, of_group, rule_fields, rule_id,
}
use net_father.Database.{Database, fresh_id, get_device, get_group, get_rule, get_group_rule}
use net_father.Database.Session.{
  Session, pure, raise, gets, require, lift, modify, raise_when, ◌>>=◌, ◌>>◌, note,
}
use net_father.Schedules.Zones.{Zones}
use net_father.Managers.Devices.Find.{require_by_name}
use net_father.Managers.Profiles.{mac_of}
use net_father.Managers.Groups.{profile_metadata, truthy}
use net_father.Managers.RuleFields.{RuleArguments, created_fields, updated_fields}

-- `bool(device_name)`
abbrev pub named : Option Text → Bool
named none = false
named (some name) = not (is_empty name)

abbrev pub agree : Bool → Bool → Bool
agree a b = if a then b else not b

abbrev pub signed : ℤ → Text
signed (pos n) = decimal n
signed (negsuc n) = b'-' ∷ decimal (suc n)

unfoldable pub with_fields : AnyRule → RuleFields → AnyRule
with_fields (of_device r) fields = of_device (record r { fields = fields })
with_fields (of_group r) fields = of_group (record r { fields = fields })

-- `session.add(rule)`
unfoldable pub add_rule : AnyRule → Database → Database
add_rule (of_device r) db = record db { rules = db.rules ++ (r ∷ []) }
add_rule (of_group r) db = record db { group_rules = db.group_rules ++ (r ∷ []) }

-- The columns of one row are set.
unfoldable pub write_rule : AnyRule → Database → Database
write_rule (of_device r) db = record db {
  rules = map (λ (x : Rule). if x.id == r.id then r else x) db.rules;
}
write_rule (of_group r) db = record db {
  group_rules = map (λ (x : GroupRule). if x.id == r.id then r else x) db.group_rules;
}

-- `session.delete(rule)`
unfoldable pub remove_rule : AnyRule → Database → Database
remove_rule (of_device r) db = record db {
  rules = keep (λ (x : Rule). not (x.id == r.id)) db.rules;
}
remove_rule (of_group r) db = record db {
  group_rules = keep (λ (x : GroupRule). not (x.id == r.id)) db.group_rules;
}

abbrev any_device : Option Rule → Option AnyRule
any_device none = none
any_device (some r) = some (of_device r)

abbrev any_group : Option GroupRule → Option AnyRule
any_group none = none
any_group (some r) = some (of_group r)

-- `session.get(GroupRule if group else Rule, rule_id)`
unfoldable pub find_rule : Bool → ℕ → Database → Option AnyRule
find_rule true id db = any_group (get_group_rule id db)
find_rule false id db = any_device (get_rule id db)

unfoldable pub require_rule : Bool → ℕ → Session AnyRule
require_rule group id = do found ← gets (find_rule group id); require found rule_not_found

-- `device.mac if device else None` of `session.get(Device, rule.device_id) if not group else None`.
unfoldable pub rule_mac : Database → AnyRule → Option Text
rule_mac db (of_device r) = mac_of (get_device r.device_id db)
rule_mac db (of_group r) = none

-- `json.dumps({"profile_id": rule.profile_id}) if group else None`
unfoldable pub rule_metadata : AnyRule → Option Text
rule_metadata (of_device r) = none
rule_metadata (of_group r) = profile_metadata r.profile_id

-- The event about a rule that is there.
unfoldable pub note_rule : Text → Text → AnyRule → Session (Unit {0})
note_rule event_type description rule = do
  mac ← gets (λ db. rule_mac db rule)
  note event_type description mac (rule_metadata rule)

-- The device that the name gives; none for an empty name.
unfoldable pub named_device : Option Text → Session (Option Device)
named_device none = pure none
named_device (some name) =
    if is_empty name then pure none else (do device ← require_by_name name; pure (some device))

-- `Rule(device_id=device.id, ...)` or `GroupRule(profile_id=profile_id, ...)`, with a fresh id.
unfoldable pub new_rule : Option Device → Option ℕ → RuleFields → Database → Option AnyRule
new_rule device (some profile_id) fields db = some (
    of_group (record {
      id = fresh_id (map (λ (r : GroupRule). r.id) db.group_rules);
      profile_id = profile_id;
      fields = fields;
    }))
new_rule (some device) none fields db = some (
    of_device (record {
      id = fresh_id (map (λ (r : Rule). r.id) db.rules);
      device_id = device.id;
      fields = fields;
    }))
new_rule none none fields db = none

unfoldable pub target_text : Option Device → Option ℕ → Text
target_text (some device) _ = device.name
target_text none none = codes "profile:None"
target_text none (some profile_id) = codes "profile:" ++ decimal profile_id

abbrev created_metadata : Option ℕ → Option Text
created_metadata none = none
created_metadata (some profile_id) =
    if truthy (some profile_id) then profile_metadata profile_id else none

abbrev pub missing_group : Option ℕ → Database → Bool
missing_group none db = false
missing_group (some profile_id) db = not (is_some (get_group profile_id db))

unfoldable pub create_session : Option Text → Option ℕ → RuleFields → Session AnyRule
create_session device_name profile_id fields = do
  device ← named_device device_name
  missing ← gets (missing_group profile_id)
  raise_when missing validation_error
  created ← gets (new_rule device profile_id fields)
  rule ← require created attribute_error
  modify (add_rule rule)
  note (codes "rule_created")
      (codes "Rule "
        ++ (fields.action
            ++ (codes " "
                ++ (fields.schedule ++ (codes " created for " ++ target_text device profile_id)))))
      (mac_of device) (created_metadata profile_id)
  pure rule

unfoldable pub delete_rule : Bool → ℕ → Session (Unit {0})
delete_rule group id = do
  rule ← require_rule group id
  note_rule (codes "rule_deleted") (codes "Rule " ++ (decimal id ++ codes " deleted")) rule
  modify (remove_rule rule)

unfoldable pub set_enabled : Bool → ℕ → Bool → Session AnyRule
set_enabled group id enabled = do
  rule ← require_rule group id
  let changed : AnyRule = with_fields rule (record (rule_fields rule) { enabled = enabled })
  modify (write_rule changed)
  note_rule (codes "rule_changed")
      (codes "Rule " ++ (decimal id ++ (if enabled then codes " enabled" else codes " disabled")))
      changed
  pure changed

unfoldable pub update_session : Bool → ℕ → RuleFields → Session AnyRule
update_session group id fields = do
  rule ← require_rule group id
  let changed : AnyRule = with_fields rule fields
  modify (write_rule changed)
  note_rule (codes "rule_changed")
      ((if group then codes "Group rule " else codes "Rule ")
        ++ (decimal id
            ++ (codes ": "
                ++ (fields.action
                    ++ (codes " "
                        ++ (fields.schedule
                            ++ (codes "; priority="
                                ++ (signed fields.priority
                                    ++ (codes "; zone="
                                        ++ (fields.timezone
                                            ++ (codes "; days=" ++ fields.weekdays)))))))))))
      changed
  pure changed

module _ {Zone : Type 0} (zones : Zones Zone) where
  unfoldable pub create_rule : Option Text → Option ℕ → RuleArguments → Session AnyRule
  create_rule device_name profile_id arguments = do
    raise_when (agree (named device_name) (is_some profile_id)) validation_error
    fields ← lift (created_fields zones arguments)
    create_session device_name profile_id fields

  unfoldable pub update_rule : Bool → ℕ → RuleArguments → Session AnyRule
  update_rule group id arguments = do
    fields ← lift (updated_fields zones arguments)
    update_session group id fields
