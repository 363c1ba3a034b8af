-- ===== src/Models/Policies.antt =====
-- models/profile.py, models/rule.py and models/policy_group.py.
use net_father.Prelude.{ℕ, Bool, true, false, Option, Text}
use net_father.Prelude.Int.{ℤ}

pub record Profile : Type 0 where
  pub id : ℕ
  pub device_id : ℕ
  pub name : Text
  pub internet_mode : Text

pub record PolicyGroup : Type 0 where
  pub id : ℕ
  pub name : Text
  pub internet_mode : Text

pub record ProfileAssignment : Type 0 where
  pub device_id : ℕ
  pub profile_id : ℕ

-- The columns that `Rule` and `GroupRule` share.
pub record RuleFields : Type 0 where
  pub action : Text
  pub schedule : Text
  pub enabled : Bool
  pub description : Option Text
  pub priority : ℤ
  pub timezone : Text
  pub weekdays : Text

pub record Rule : Type 0 where
  pub id : ℕ
  pub device_id : ℕ
  pub fields : RuleFields

pub record GroupRule : Type 0 where
  pub id : ℕ
  pub profile_id : ℕ
  pub fields : RuleFields

-- A rule of either class, told apart by `isinstance(rule, GroupRule)`.
pub data AnyRule : Type 0 where
  of_device : Rule → AnyRule
  of_group : GroupRule → AnyRule

abbrev pub rule_fields : AnyRule → RuleFields
rule_fields (of_device r) = r.fields
rule_fields (of_group r) = r.fields

abbrev pub rule_id : AnyRule → ℕ
rule_id (of_device r) = r.id
rule_id (of_group r) = r.id

abbrev pub is_group : AnyRule → Bool
is_group (of_device r) = false
is_group (of_group r) = true

-- What a decision reads of a `Profile` or a `PolicyGroup`.
pub record Mode : Type 0 where
  pub name : Text
  pub internet_mode : Text
