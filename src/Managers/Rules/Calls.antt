-- ===== src/Managers/Rules/Calls.antt =====
-- Sequences of calls of `RuleManager`.
use net_father.Prelude.{ℕ, ◌≡◌, Bool, Option, List, [], ◌∷◌, In, In_of_All, Text, ok}
use net_father.Models.Policies.{Rule, GroupRule, AnyRule, of_device, of_group, rule_fields}
use net_father.Database.{Database}
use net_father.Database.Session.{session}
use net_father.Database.Keeps.{session-Keeps}
use net_father.Schedules.Zones.{Zones}
use net_father.Schedules.Active.{When, active}
use net_father.Managers.RuleFields.{RuleArguments}
use net_father.Managers.RuleFields.Valid.{IsValid, IsValid-active}
use net_father.Managers.Rules.{create_rule, update_rule, set_enabled, delete_rule}
use net_father.Managers.Rules.Stored.{
  IsStored, create_rule-Keeps, update_rule-Keeps, set_enabled-Keeps, delete_rule-Keeps,
}

-- A call of a method that changes the tables.
pub data RuleCall : Type 0 where
  creating : Option Text → Option ℕ → RuleArguments → RuleCall
  updating : Bool → ℕ → RuleArguments → RuleCall
  enabling : Bool → ℕ → Bool → RuleCall
  deleting : Bool → ℕ → RuleCall

-- One of the rules of either table.
abbrev pub IsRule : Database → AnyRule → Type 0
IsRule db (of_device r) = In r db.rules
IsRule db (of_group r) = In r db.group_rules

module _ {Zone : Type 0} (zones : Zones Zone) where
  -- The tables after a call, whether it returned or raised.
  unfoldable pub call : RuleCall → Database → Database
  call (creating name profile_id a) db = (session (create_rule zones name profile_id a) db).1
  call (updating group id a) db = (session (update_rule zones group id a) db).1
  call (enabling group id enabled) db = (session (set_enabled group id enabled) db).1
  call (deleting group id) db = (session (delete_rule group id) db).1

  unfoldable pub calls : List RuleCall → Database → Database
  calls [] db = db
  calls (c ∷ cs) db = calls cs (call c db)

  call-IsStored : (c : RuleCall) (db : Database) → IsStored zones db → IsStored zones (call c db)
  unfolding call
  call-IsStored (creating name profile_id a) =
      session-Keeps (IsStored zones) _ (create_rule-Keeps zones name profile_id a)
  call-IsStored (updating group id a) =
      session-Keeps (IsStored zones) _ (update_rule-Keeps zones group id a)
  call-IsStored (enabling group id enabled) =
      session-Keeps (IsStored zones) _ (set_enabled-Keeps zones group id enabled)
  call-IsStored (deleting group id) =
      session-Keeps (IsStored zones) _ (delete_rule-Keeps zones group id)

  -- From tables whose rules have valid columns, whatever calls of the rules are made, in whatever
  -- order and whether they return or raise, the columns of every stored rule are valid.
  pub calls-IsStored :
      (cs : List RuleCall) (db : Database) → IsStored zones db → IsStored zones (calls cs db)
  unfolding calls
  calls-IsStored [] db k = k
  calls-IsStored (c ∷ cs) db k = calls-IsStored cs (call c db) (call-IsStored c db k)

  IsRule-IsValid :
      (rule : AnyRule) (db : Database)
      → IsRule db rule
      → IsStored zones db
      → IsValid zones (rule_fields rule)
  IsRule-IsValid (of_device r) db m k =
      In_of_All (λ (r : Rule). IsValid zones r.fields) db.rules k.rules r m
  IsRule-IsValid (of_group r) db m k =
      In_of_All (λ (r : GroupRule). IsValid zones r.fields) db.group_rules k.group_rules r m

  -- From tables whose rules have valid columns, after any calls of the rules, the schedule of
  -- every stored rule can be evaluated at every moment.
  pub active-calls :
      (cs : List RuleCall) (db : Database) (rule : AnyRule) (when : When)
      → IsStored zones db
      → IsRule (calls cs db) rule
      → (b : Bool) × (active zones
            (rule_fields rule).schedule
            when
            (rule_fields rule).timezone
            (rule_fields rule).weekdays
          ≡ ok b)
  active-calls cs db rule when k m =
      IsValid-active zones (rule_fields rule) when
        (IsRule-IsValid rule (calls cs db) m (calls-IsStored cs db k))
