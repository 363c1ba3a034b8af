-- ===== src/Database/Tables.antt =====
-- The tables of the database. A fresh row of a table with an integer key takes the number after the
-- greatest one present, as SQLite gives it.
use net_father.Prelude.{
  ℕ, ◌+◌, Option, List, [], ◌∷◌, find, ◌==◌, nat_eq, text_eq_instance, Text, ltb, if◌then◌else◌,
}
use net_father.Models.{Device, Event}
use net_father.Models.Policies.{Profile, PolicyGroup, ProfileAssignment, Rule, GroupRule}
use net_father.Models.Evidence.{
  DeviceObservationRecord, IdentityAlias, AddressEvidence, ServiceEvidence,
}

pub record Database : Type 0 where
  pub devices : List Device
  pub profiles : List Profile
  pub rules : List Rule
  pub groups : List PolicyGroup
  pub assignments : List ProfileAssignment
  pub group_rules : List GroupRule
  pub events : List Event
  pub observations : List DeviceObservationRecord
  pub aliases : List IdentityAlias
  pub addresses : List AddressEvidence
  pub services : List ServiceEvidence

unfoldable pub greatest : List ℕ → ℕ
greatest [] = 0
greatest (n ∷ ns) = let m = greatest ns in if ltb m n then n else m

unfoldable pub fresh_id : List ℕ → ℕ
unfolding greatest
fresh_id ids = greatest ids + 1

-- `session.get(Model, id)`
abbrev pub get_device : ℕ → Database → Option Device
get_device id db = find (λ d. d.id == id) db.devices

abbrev pub get_group : ℕ → Database → Option PolicyGroup
get_group id db = find (λ g. g.id == id) db.groups

abbrev pub get_profile : ℕ → Database → Option Profile
get_profile id db = find (λ p. p.id == id) db.profiles

abbrev pub get_rule : ℕ → Database → Option Rule
get_rule id db = find (λ r. r.id == id) db.rules

abbrev pub get_group_rule : ℕ → Database → Option GroupRule
get_group_rule id db = find (λ r. r.id == id) db.group_rules

abbrev pub get_assignment : ℕ → Database → Option ProfileAssignment
get_assignment device_id db = find (λ a. a.device_id == device_id) db.assignments

abbrev pub get_alias : Text → Database → Option IdentityAlias
get_alias mac db = find (λ a. a.mac == mac) db.aliases
