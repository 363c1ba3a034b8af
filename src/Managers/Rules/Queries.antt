-- ===== src/Managers/Rules/Queries.antt =====
-- The queries of manager/rule_manager.py.
use net_father.Prelude.{
  ℕ, Bool, true, false, not, ◌&&◌, Option, none, some, List, [], ◌∷◌, ◌++◌, keep, ltb, ◌==◌, nat_eq,
  text_eq_instance, if◌then◌else◌, Text, Result, ok, err, validation_error, rule_not_found,
  attribute_error,
}
use net_father.Prelude.Sorting.{sort}
use net_father.Prelude.Strings.{codes, decimal}
use net_father.Models.{Device}
use net_father.Models.Policies.{
  PolicyGroup, Rule, GroupRule, AnyRule, of_device, of_group, rule_fields, rule_id,
}
use net_father.Database.{Database, get_device, get_group, get_rule}
use net_father.Database.Session.{Session, pure, gets, require, lift, ◌>>=◌}
use net_father.Schedules.Zones.{Zones}
use net_father.Schedules.Active.{When, active}
use net_father.Schedules.Change.{Timetable, overlaps}
use net_father.Policy.Decision.{rule_before}
use net_father.Managers.Devices.Find.{require_by_name}

-- `order_by(Rule.id)`
abbrev pub by_id : List Rule → List Rule
by_id = sort (λ (a b : Rule). ltb a.id b.id)

-- `order_by(GroupRule.id)`
abbrev pub group_by_id : List GroupRule → List GroupRule
group_by_id = sort (λ (a b : GroupRule). ltb a.id b.id)

unfoldable pub list_rules : Option Text → Session (List Rule)
list_rules none = gets (λ db. by_id db.rules)
list_rules (some device_name) = do
  device ← require_by_name device_name
  gets (λ db. by_id (keep (λ (r : Rule). r.device_id == device.id) db.rules))

unfoldable pub get_rule_by_id : ℕ → Session Rule
get_rule_by_id rule_id = do found ← gets (get_rule rule_id); require found rule_not_found

-- What the loop appends to the list that is collected.
unfoldable pub append_active : Rule → Result Bool → Result (List Rule) → Result (List Rule)
append_active rule (ok true) (ok rules) = ok (rule ∷ rules)
append_active rule (ok true) (err e) = err e
append_active rule (ok false) rest = rest
append_active rule (err e) rest = elim e [ validation_error ↦ rest | other ↦ err other ]

-- The order of `key=lambda rule: (-rule.priority, rule.id)` on the rules of devices.
abbrev pub device_rule_before : Rule → Rule → Bool
device_rule_before a b = rule_before (of_device a) (of_device b)

-- A rule with the two attributes that `all_rules` sets.
pub record Listed : Type 0 where
  pub rule : AnyRule
  pub scope_label : Text

abbrev pub device_item : Rule → Device → Listed
device_item r device = record { rule = of_device r; scope_label = codes "device:" ++ device.name }

abbrev pub group_item : GroupRule → PolicyGroup → Listed
group_item r profile = record { rule = of_group r; scope_label = codes "profile:" ++ profile.name }

unfoldable pub listed_rule : Database → Rule → Result Listed
listed_rule db r = elim (get_device r.device_id db) [
  | none ↦ err attribute_error
  | some device ↦ ok (device_item r device)
]

unfoldable pub listed_group_rule : Database → GroupRule → Result Listed
listed_group_rule db r = elim (get_group r.profile_id db) [
  | none ↦ err attribute_error
  | some profile ↦ ok (group_item r profile)
]

abbrev prepend : {B : Type 0} → Result B → Result (List B) → Result (List B)
prepend (err e) _ = err e
prepend (ok y) (err e) = err e
prepend (ok y) (ok ys) = ok (y ∷ ys)

-- The results of a loop body that may raise.
unfoldable pub each : {A B : Type 0} → (A → Result B) → List A → Result (List B)
each f [] = ok []
each f (x ∷ xs) = prepend (f x) (each f xs)

-- `key=lambda item: (-item.priority, item.group_rule, item.id)`
unfoldable pub listed_before : Listed → Listed → Bool
listed_before a b = rule_before a.rule b.rule

unfoldable pub all_rules : Session (List Listed)
all_rules = do
  rules ← list_rules none
  own ← gets (λ db. each (listed_rule db) rules)
  devices ← lift own
  shared ← gets (λ db. each (listed_group_rule db) (group_by_id db.group_rules))
  profiles ← lift shared
  pure (sort listed_before (devices ++ profiles))

abbrev pub item_timetable : Listed → Timetable
item_timetable l = record {
  schedule = (rule_fields l.rule).schedule;
  timezone = (rule_fields l.rule).timezone;
  weekdays = (rule_fields l.rule).weekdays;
}

unfoldable pub overlap_text : Listed → Listed → Text
overlap_text left right =
    left.scope_label
    ++ (codes ": rules "
        ++ (decimal (rule_id left.rule)
            ++ (b'/' ∷ (decimal (rule_id right.rule) ++ codes " overlap; block overrides allow."))))

unfoldable pub invalid_text : Listed → Text
invalid_text left = left.scope_label ++ codes ": invalid enabled schedule requires review."

-- `left.scope_label != right.scope_label or left.action == right.action`, negated.
unfoldable pub opposed : Listed → Listed → Bool
opposed left right =
    left.scope_label == right.scope_label
    && not ((rule_fields left.rule).action == (rule_fields right.rule).action)

-- The warning about a pair, from the answer of `overlaps`.
unfoldable pub warning : Listed → Listed → Result Bool → Result (List Text)
warning left right (ok true) = ok (overlap_text left right ∷ [])
warning left right (ok false) = ok []
warning left right (err e) = elim e [
  | validation_error ↦ ok (invalid_text left ∷ [])
  | other ↦ err other
]

abbrev join_results : Result (List Text) → Result (List Text) → Result (List Text)
join_results (err e) _ = err e
join_results (ok a) (err e) = err e
join_results (ok a) (ok b) = ok (a ++ b)

module _ {Zone : Type 0} (zones : Zones Zone) where
  unfoldable pub collect_active : When → List Rule → Result (List Rule)
  collect_active when [] = ok []
  collect_active when (r ∷ rules) =
      let rest = collect_active when rules in
      if r.fields.enabled
      then append_active r (active zones r.fields.schedule when r.fields.timezone r.fields.weekdays)
          rest
      else rest

  unfoldable pub active_rules : When → Option Text → Session (List Rule)
  active_rules when device_name = do
    rules ← list_rules device_name
    found ← lift (collect_active when rules)
    pure (sort device_rule_before found)

  -- The inner loop, for one rule on the left.
  unfoldable pub warnings_of : ℕ → Listed → List Listed → Result (List Text)
  warnings_of now left [] = ok []
  warnings_of now left (right ∷ others) =
      let rest = warnings_of now left others in
      if opposed left right
      then join_results
          (warning left right (overlaps zones (item_timetable left) (item_timetable right) now))
          rest
      else rest

  unfoldable pub warnings : ℕ → List Listed → Result (List Text)
  warnings now [] = ok []
  warnings now (left ∷ others) = join_results (warnings_of now left others) (warnings now others)

  unfoldable pub conflicts : ℕ → Session (List Text)
  conflicts now = do
    all ← all_rules
    lift (warnings now (keep (λ (l : Listed). (rule_fields l.rule).enabled) all))
