-- ===== src/Examples/RuleTests.antt =====
-- The theorems on access rules at a small input.
use net_father.Prelude.{
  ℕ, ◌≡◌, ◌↔◌, refl, Bool, true, false, none, some, List, [], ◌∷◌, In, keep, Text, ok, inl, inr,
}
use net_father.Prelude.Sorting.{IsSorted}
use net_father.Prelude.Int.{pos}
use net_father.Prelude.Strings.{codes}
use net_father.Models.Policies.{RuleFields, Rule, of_device, rule_fields}
use net_father.Database.{Database}
use net_father.Schedules.Window.{normalize_windows}
use net_father.Schedules.Weekdays.{normalize_days}
use net_father.Schedules.Zones.{zone}
use net_father.Schedules.Active.{aware, active}
use net_father.Managers.RuleFields.{RuleArguments}
use net_father.Managers.RuleFields.Valid.{IsValid}
use net_father.Managers.Rules.Stored.{IsStored}
use net_father.Managers.Rules.Calls.{
  RuleCall, creating, updating, enabling, deleting, calls, calls-IsStored, active-calls,
}
use net_father.Managers.Rules.Queries.{
  Listed, device_rule_before, active_rules, all_rules, conflicts,
}
use net_father.Managers.Rules.Active.{IsActive, active_rules-Exactly}
use net_father.Managers.Rules.Clash.{IsWarned}
use net_father.Managers.Rules.Overlap.{IsLinked, conflicts-IsWarned}
use net_father.Examples.{utc, home}

abbrev bedtime : RuleFields
bedtime = record {
  action = codes "block";
  schedule = codes "22:00-06:00";
  enabled = true;
  description = none;
  priority = pos 10;
  timezone = codes "UTC";
  weekdays = codes "0,1,2,3,4,5,6";
}

-- The tablet may use the network from nine to ten in the evening, and a quarter more.
abbrev evening : RuleFields
evening = record bedtime { action = codes "allow"; schedule = codes "21:00-22:15" }

abbrev ruled : Database
ruled = record home {
  rules =
      record { id = 1; device_id = 1; fields = bedtime }
      ∷ record { id = 2; device_id = 1; fields = evening }
      ∷ [];
}

night_schedule : normalize_windows (codes "22:00-06:00") ≡ ok (codes "22:00-06:00")
unfolding normalize_windows net_father.Prelude.Strings.split
    net_father.Schedules.Window.normalize_parts net_father.Schedules.Window.normalize_part
    net_father.Schedules.Window.Parse.parse_window net_father.Schedules.Window.Parse.take_hour
    net_father.Prelude.Strings.lstrip net_father.Schedules.Window.Parse.take_minute
    net_father.Schedules.Window.Parse.take_dash net_father.Prelude.Strings.join
    net_father.Prelude.dedupe net_father.Schedules.Window.show_window
    net_father.Prelude.Strings.two_digits
night_schedule = refl

evening_schedule : normalize_windows (codes "21:00-22:15") ≡ ok (codes "21:00-22:15")
unfolding normalize_windows net_father.Prelude.Strings.split
    net_father.Schedules.Window.normalize_parts net_father.Schedules.Window.normalize_part
    net_father.Schedules.Window.Parse.parse_window net_father.Schedules.Window.Parse.take_hour
    net_father.Prelude.Strings.lstrip net_father.Schedules.Window.Parse.take_minute
    net_father.Schedules.Window.Parse.take_dash net_father.Prelude.Strings.join
    net_father.Prelude.dedupe net_father.Schedules.Window.show_window
    net_father.Prelude.Strings.two_digits
evening_schedule = refl

every_day_normal : normalize_days (codes "0,1,2,3,4,5,6") ≡ ok (codes "0,1,2,3,4,5,6")
unfolding normalize_days net_father.Schedules.Weekdays.parse_days net_father.Prelude.Strings.split
    net_father.Schedules.Weekdays.weekday net_father.Prelude.Strings.int
    net_father.Schedules.Weekdays.show_days net_father.Prelude.Strings.join
    net_father.Schedules.Weekdays.sorted_days net_father.Prelude.Sorting.sort
    net_father.Prelude.dedupe net_father.Prelude.Strings.decimal
every_day_normal = refl

utc_found : zone utc (codes "UTC") ≡ ok tt
unfolding zone net_father.Prelude.text_eq
utc_found = refl

bedtime-IsValid : IsValid utc bedtime
bedtime-IsValid = record {
  action = inr refl;
  schedule = night_schedule;
  weekdays = every_day_normal;
  found = tt;
  timezone = utc_found;
  priority = refl;
  description = refl;
}

evening-IsValid : IsValid utc evening
evening-IsValid = record {
  action = inl refl;
  schedule = evening_schedule;
  weekdays = every_day_normal;
  found = tt;
  timezone = utc_found;
  priority = refl;
  description = refl;
}

ruled-IsStored : IsStored utc ruled
ruled-IsStored = record { rules = (bedtime-IsValid, (evening-IsValid, tt)); group_rules = tt }

ruled-IsLinked : IsLinked ruled
unfolding net_father.Prelude.find
ruled-IsLinked = record { rules = (refl, (refl, tt)); group_rules = tt }

abbrev lunch : RuleArguments
lunch = record {
  action = codes " Allow ";
  schedule = codes "9:00 - 12:00";
  enabled = true;
  description = some (codes " lunch ");
  priority = pos 3;
  timezone = codes "UTC";
  weekdays = codes "4,0,4";
  ports = false;
  destination = false;
}

-- A rule is added, one is refused for its ports, one is switched off and one is removed.
abbrev a_day : List RuleCall
a_day =
    creating (some (codes "tablet")) none lunch
    ∷ updating false 1 (record lunch { ports = true })
    ∷ enabling false 3 false
    ∷ deleting false 2
    ∷ []

calls-IsStored_example : IsStored utc (calls utc a_day ruled)
calls-IsStored_example = calls-IsStored utc a_day ruled ruled-IsStored

active-calls_example :
    (b : Bool) × (active utc (codes "22:00-06:00") (aware 0) (codes "UTC") (codes "0,1,2,3,4,5,6")
      ≡ ok b)
unfolding net_father.Managers.Rules.Calls.calls
active-calls_example =
    active-calls utc [] ruled (of_device (record { id = 1; device_id = 1; fields = bedtime }))
      (aware 0) ruled-IsStored (inl refl)

active_rules-Exactly_example :
    (found : List Rule) × (active_rules utc (aware 0) none ruled ≡ ok (found, ruled))
    × IsSorted device_rule_before found
    × ((r : Rule) → In r found ↔ (In r ruled.rules × IsActive utc (aware 0) r))
active_rules-Exactly_example = active_rules-Exactly utc (aware 0) ruled ruled-IsStored

conflicts-IsWarned_example :
    (all : List Listed) × (ws : List Text) × (all_rules ruled ≡ ok (all, ruled))
    × (conflicts utc 0 ruled ≡ ok (ws, ruled))
    × ((t : Text)
        → In t ws ↔ IsWarned utc 0 (keep (λ (l : Listed). (rule_fields l.rule).enabled) all) t)
conflicts-IsWarned_example = conflicts-IsWarned utc 0 ruled ruled-IsStored ruled-IsLinked
