-- ===== src/Policy/Decision.antt =====
-- `rule_key` and `decision` of manager/policy_engine.py.
pub mod Precedence
pub mod Winner
pub mod Order
use net_father.Prelude.{
  ℕ, Bool, true, false, not, ◌&&◌, ◌||◌, Option, none, some, List, [], ◌∷◌, ◌++◌, map, find,
  is_some, ltb, eqb, ◌==◌, text_eq_instance, if◌then◌else◌, Text, Result, ok, err,
}
use net_father.Prelude.Int.{ℤ, ltb_ℤ}
use net_father.Prelude.Sorting.{sort}
use net_father.Prelude.Strings.{codes, decimal, join}
use net_father.Models.Policies.{AnyRule, Mode, rule_fields, rule_id, is_group}
use net_father.Schedules.Zones.{Zones}
use net_father.Schedules.Active.{When, active}

unfoldable pub rule_key : AnyRule → Text
rule_key rule =
    (if is_group rule then codes "group-rule" else codes "rule") ++ (b':' ∷ decimal (rule_id rule))

-- The order of `key=lambda rule: (-rule.priority, isinstance(rule, GroupRule), rule.id)`.
unfoldable pub rule_before : AnyRule → AnyRule → Bool
rule_before a b =
    let p = (rule_fields a).priority in
    let q = (rule_fields b).priority in
    if ltb_ℤ q p
    then true
    else if ltb_ℤ p q
    then false
    else if not (is_group a) && is_group b
    then true
    else if is_group a && not (is_group b)
    then false
    else ltb (rule_id a) (rule_id b)

abbrev pub has_mode : Text → Mode → Bool
has_mode mode profile = profile.internet_mode == mode

abbrev pub has_action : Text → AnyRule → Bool
has_action action rule = (rule_fields rule).action == action

pub record Decision : Type 0 where
  pub allowed : Bool
  pub reason : Text
  pub enabled : List AnyRule
  pub conflicts : List Text
  pub invalid : List Text

-- The answer of `active` for a rule; `none` where it raises.
abbrev answer : Result Bool → Option Bool
answer (ok b) = some b
answer (err _) = none

module _ {Zone : Type 0} (zones : Zones Zone) (when : When) where
  -- `active` raises nothing but ValidationError (Schedules/Active/Errors), which the loop catches.
  unfoldable pub rule_active : AnyRule → Option Bool
  rule_active rule =
      let f = rule_fields rule in answer (active zones f.schedule when f.timezone f.weekdays)

  abbrev pub is_active : AnyRule → Bool
  is_active rule =
      (rule_fields rule).enabled && elim (rule_active rule) [ some b ↦ b | none ↦ false ]

  -- The two lists that the loop fills.
  unfoldable pub enabled_rules : List AnyRule → List AnyRule
  enabled_rules [] = []
  enabled_rules (rule ∷ rules) =
      if is_active rule then rule ∷ enabled_rules rules else enabled_rules rules

  unfoldable pub invalid_rules : List AnyRule → List Text
  invalid_rules [] = []
  invalid_rules (rule ∷ rules) =
      if (rule_fields rule).enabled && not (is_some (rule_active rule))
      then rule_key rule ∷ invalid_rules rules
      else invalid_rules rules

  abbrev pub sorted_rules : List AnyRule → List AnyRule
  sorted_rules rules = sort rule_before (enabled_rules rules)

abbrev overrides : Option AnyRule → Option AnyRule → List Text
overrides (some block) (some allow) =
    (rule_key block
      ++ (codes " overrides " ++ (rule_key allow ++ codes ": block-over-allow precedence.")))
    ∷ []
overrides _ _ = []

abbrev review : List Text → List Text
review [] = []
review (key ∷ keys) =
    (codes "Invalid enabled rules require review: " ++ join (codes ", ") (key ∷ keys)) ∷ []

unfoldable pub allow_text : Option AnyRule → Text
allow_text none = codes "default-deny"
allow_text (some allow) = rule_key allow ++ codes "=allow"

-- The ladder of tests on the four values found.
unfoldable pub verdict : Option Mode → Option AnyRule → Option Mode → Option AnyRule → Bool × Text
verdict (some blocked) _ _ _ = (false, codes "profile:" ++ (blocked.name ++ codes "=blocked"))
verdict none (some block) _ _ = (false, rule_key block ++ codes "=block")
verdict none none (some controlled) allow = (
  is_some allow,
  codes "profile:" ++ (controlled.name ++ (codes "=controlled;" ++ allow_text allow)),
)
verdict none none none (some allow) = (true, rule_key allow ++ codes "=allow")
verdict none none none none = (true, codes "default-allow")

module _ {Zone : Type 0} (zones : Zones Zone) where
  unfoldable pub decision : List Mode → List AnyRule → When → Decision
  decision profiles rules when =
      let enabled = sorted_rules zones when rules in
      let invalid = invalid_rules zones when rules in
      let blocked = find (has_mode (codes "blocked")) profiles in
      let controlled = find (has_mode (codes "controlled")) profiles in
      let block = find (has_action (codes "block")) enabled in
      let allow = find (has_action (codes "allow")) enabled in
      let (allowed, reason) = verdict blocked block controlled allow in
      record {
        allowed = allowed;
        reason = reason;
        enabled = enabled;
        conflicts = overrides block allow ++ review invalid;
        invalid = invalid;
      }
