-- ===== src/Examples/PolicyTests.antt =====
-- The theorems on policies at small inputs.
use mathlib.Core.List.Perm
use net_father.Prelude.{
  length, map, none, sym, ap, ◌∙◌, inl, inr, arith, ℕ, ◌+◌, ◌<◌, ◌≤◌, ◌≡◌, refl, ◌↔◌, Bool, true,
  false, not, Option, some, List, [], ◌∷◌, ◌++◌, any, In, Text, Result, ok, find,
}
use net_father.Prelude.Strings.{codes}
use net_father.Models.{Device}
use net_father.Models.Policies.{AnyRule, Mode, of_device, rule_id}
use net_father.Schedules.Active.{aware}
use net_father.Policy.Decision.{rule_key, has_mode, has_action, is_active, decision}
use net_father.Policy.Decision.Precedence.{
  active_action, permits, decision-permits, decision_more_restrictive,
}
use net_father.Policy.Decision.Order.{Keyed, decision_perm}
use net_father.Prelude.Int.{pos}
use net_father.Policy.Decision.Winner.{IsWinner, block-IsWinner}
use net_father.Policy.Engine.{evaluate_all, policy_of, blocked_ips, next_transition, look_ahead}
use net_father.Policy.Engine.Blocked.{MustBlock, blocked_ips-MustBlock}
use net_father.Policy.Engine.Transition.{next_transition-flips}
use net_father.Policy.Service.{PolicySnapshot, snapshot_of, refresh}
use net_father.Policy.Service.Counts.{refresh_lem}
use net_father.Examples.{tablet, utc, two_addresses, nights, home, host_a}

-- One in the morning.
abbrev at_night : ℕ
at_night = 3600000000

-- Noon.
abbrev at_noon : ℕ
at_noon = 43200000000

abbrev guest : Mode
guest = record { name = codes "guest"; internet_mode = codes "open" }

decision-permits_example :
    (decision utc (guest ∷ []) (nights ∷ []) (aware at_night)).allowed
    ≡ permits utc (aware at_night) (guest ∷ []) (nights ∷ [])
decision-permits_example = decision-permits utc (aware at_night) (guest ∷ []) (nights ∷ [])

-- A second rule that is blocking at night, of a higher priority.
abbrev late : AnyRule
late = of_device (record {
  id = 2;
  device_id = 1;
  fields = record {
    action = codes "block";
    schedule = codes "00:30-05:00";
    enabled = true;
    description = none;
    priority = pos 5;
    timezone = codes "UTC";
    weekdays = codes "0,1,2,3,4,5,6";
  };
})

abbrev work : Mode
work = record { name = codes "work"; internet_mode = codes "controlled" }

two_rules-Keyed : Keyed (nights ∷ late ∷ [])
two_rules-Keyed a b (inl e) (inl f) c k = sym e ∙ f
two_rules-Keyed a b (inl e) (inr (inl f)) c k =
    let one_is_two : 1 ≡ 2 = ap rule_id e ∙ k ∙ sym (ap rule_id f) in
    absurd (omega (arith, one_is_two))
two_rules-Keyed a b (inl e) (inr (inr f)) c k = elim f [ ]
two_rules-Keyed a b (inr (inl e)) (inr (inr f)) c k = elim f [ ]
two_rules-Keyed a b (inr (inr e)) m c k = elim e [ ]
two_rules-Keyed a b (inr (inl e)) (inl f) c k =
    let two_is_one : 2 ≡ 1 = ap rule_id e ∙ k ∙ sym (ap rule_id f) in
    absurd (omega (arith, two_is_one))
two_rules-Keyed a b (inr (inl e)) (inr (inl f)) c k = sym e ∙ f

decision_perm_example :
    ((decision utc (guest ∷ work ∷ []) (nights ∷ late ∷ []) (aware at_night)).allowed
      ≡ (decision utc (work ∷ guest ∷ []) (late ∷ nights ∷ []) (aware at_night)).allowed)
    × ((decision utc (guest ∷ work ∷ []) (nights ∷ late ∷ []) (aware at_night)).reason
        ≡ (decision utc (guest ∷ work ∷ []) (late ∷ nights ∷ []) (aware at_night)).reason)
    × (map rule_key (decision utc (guest ∷ work ∷ []) (nights ∷ late ∷ []) (aware at_night)).enabled
        ≡ map rule_key
            (decision utc (guest ∷ work ∷ []) (late ∷ nights ∷ []) (aware at_night)).enabled)
decision_perm_example =
    decision_perm utc (aware at_night) (guest ∷ work ∷ []) (work ∷ guest ∷ []) (nights ∷ late ∷ [])
      (late ∷ nights ∷ []) (Perm.swap work guest []) (Perm.swap late nights []) two_rules-Keyed

no_allow : has_action (codes "allow") nights ≡ false
unfolding net_father.Prelude.text_eq
no_allow = refl

open_at_noon : (decision utc (guest ∷ []) (nights ∷ []) (aware at_noon)).allowed ≡ true
unfolding decision net_father.Policy.Decision.verdict find net_father.Prelude.text_eq
    net_father.Prelude.Sorting.sort net_father.Policy.Decision.enabled_rules
    net_father.Policy.Decision.rule_active net_father.Schedules.Active.active
    net_father.Schedules.Zones.zone net_father.Schedules.Active.when_days
    net_father.Schedules.Active.weekday_set net_father.Schedules.Weekdays.normalize_days
    net_father.Schedules.Weekdays.parse_days net_father.Prelude.Strings.split
    net_father.Schedules.Weekdays.weekday net_father.Prelude.Strings.int
    net_father.Schedules.Weekdays.show_days net_father.Prelude.Strings.join
    net_father.Policy.Decision.allow_text net_father.Policy.Decision.invalid_rules
    net_father.Policy.Decision.rule_before rule_key any net_father.Prelude.dedupe
    net_father.Prelude.keep net_father.Prelude.Sorting.insert net_father.Prelude.Strings.is_space
    net_father.Prelude.Strings.lstrip net_father.Prelude.Strings.rstrip
    net_father.Prelude.Strings.strip net_father.Prelude.Strings.decimal
    net_father.Prelude.Strings.decimal_from net_father.Prelude.Strings.int_digits
    net_father.Prelude.Strings.two_digits net_father.Schedules.Active.in_window
    net_father.Schedules.Weekdays.sorted_days net_father.Schedules.Window.Parse.parse_window
    net_father.Schedules.Window.Parse.take_dash net_father.Schedules.Window.Parse.take_hour
    net_father.Schedules.Window.Parse.take_minute net_father.Schedules.Window.all_minutes
    net_father.Schedules.Window.clock_minutes net_father.Schedules.Window.int_part
    net_father.Schedules.Window.normalize_part net_father.Schedules.Window.normalize_parts
    net_father.Schedules.Window.normalize_windows net_father.Schedules.Window.pair_minutes
    net_father.Schedules.Window.show_window net_father.Schedules.Window.windows
    net_father.Schedules.Zones.local_zone net_father.Schedules.Zones.strip_colons
open_at_noon = refl

decision_more_restrictive_example : (decision utc (guest ∷ []) [] (aware at_noon)).allowed ≡ true
decision_more_restrictive_example =
    decision_more_restrictive utc (aware at_noon) (guest ∷ []) nights [] no_allow open_at_noon

none_blocked : any (has_mode (codes "blocked")) (guest ∷ []) ≡ false
unfolding any net_father.Prelude.text_eq
none_blocked = refl

some_block : active_action utc (aware at_night) (codes "block") (nights ∷ []) ≡ true
unfolding any net_father.Policy.Decision.rule_active net_father.Schedules.Active.active
    net_father.Schedules.Zones.zone net_father.Prelude.text_eq net_father.Schedules.Active.when_days
    net_father.Schedules.Active.weekday_set net_father.Schedules.Weekdays.normalize_days
    net_father.Schedules.Weekdays.parse_days net_father.Prelude.Strings.split
    net_father.Schedules.Weekdays.weekday net_father.Prelude.Strings.int
    net_father.Schedules.Weekdays.show_days net_father.Prelude.Strings.join
    net_father.Schedules.Weekdays.sorted_days net_father.Prelude.Sorting.sort
    net_father.Prelude.dedupe net_father.Prelude.Strings.decimal net_father.Prelude.keep
    net_father.Prelude.Sorting.insert net_father.Prelude.Strings.is_space
    net_father.Prelude.Strings.lstrip net_father.Prelude.Strings.rstrip
    net_father.Prelude.Strings.strip net_father.Prelude.Strings.decimal_from
    net_father.Prelude.Strings.int_digits net_father.Prelude.Strings.two_digits
    net_father.Schedules.Active.in_window net_father.Schedules.Window.Parse.parse_window
    net_father.Schedules.Window.Parse.take_dash net_father.Schedules.Window.Parse.take_hour
    net_father.Schedules.Window.Parse.take_minute net_father.Schedules.Window.all_minutes
    net_father.Schedules.Window.clock_minutes net_father.Schedules.Window.int_part
    net_father.Schedules.Window.normalize_part net_father.Schedules.Window.normalize_parts
    net_father.Schedules.Window.normalize_windows net_father.Schedules.Window.pair_minutes
    net_father.Schedules.Window.show_window net_father.Schedules.Window.windows
    net_father.Schedules.Zones.local_zone net_father.Schedules.Zones.strip_colons
some_block = refl

block-IsWinner_example :
    (w : AnyRule) × IsWinner utc (aware at_night) (codes "block") (nights ∷ []) w
    × ((decision utc (guest ∷ []) (nights ∷ []) (aware at_night)).allowed ≡ false)
    × ((decision utc (guest ∷ []) (nights ∷ []) (aware at_night)).reason
        ≡ rule_key w ++ codes "=block")
block-IsWinner_example =
    block-IsWinner utc (aware at_night) (guest ∷ []) (nights ∷ []) none_blocked some_block

home_run : blocked_ips utc two_addresses home at_noon ≡ ok (host_a ∷ [])
unfolding blocked_ips net_father.Policy.Engine.evaluate_all net_father.Policy.Engine.evaluate_list
    net_father.Prelude.Sorting.sort net_father.Policy.Engine.evaluate
    net_father.Policy.Engine.policy_inputs find net_father.Prelude.dedupe
    net_father.Policy.Engine.blocked_list net_father.Policy.Engine.policy_of decision
    net_father.Policy.Decision.verdict net_father.Policy.Engine.own_modes net_father.Prelude.text_eq
    net_father.Policy.Decision.invalid_rules net_father.Policy.Engine.own_rules
    net_father.Policy.Engine.duplicate_ip any net_father.Policy.Decision.allow_text
    net_father.Policy.Decision.enabled_rules net_father.Policy.Decision.rule_active
    net_father.Policy.Decision.rule_before rule_key net_father.Policy.Engine.candidates
    net_father.Policy.Engine.check_address net_father.Policy.Engine.earliest
    net_father.Policy.Engine.follow next_transition net_father.Prelude.option_eq
    net_father.Prelude.keep net_father.Prelude.Sorting.insert net_father.Prelude.Strings.is_space
    net_father.Prelude.Strings.join net_father.Prelude.Strings.lstrip
    net_father.Prelude.Strings.rstrip net_father.Prelude.Strings.split
    net_father.Prelude.Strings.strip net_father.Prelude.Strings.text_before
    net_father.Prelude.Strings.decimal net_father.Prelude.Strings.decimal_from
    net_father.Prelude.Strings.int net_father.Prelude.Strings.int_digits
    net_father.Prelude.Strings.two_digits net_father.Schedules.Active.active
    net_father.Schedules.Active.in_window net_father.Schedules.Active.weekday_set
    net_father.Schedules.Active.when_days net_father.Schedules.Change.find_change
    net_father.Schedules.Change.next_change net_father.Schedules.Change.seek
    net_father.Schedules.Weekdays.normalize_days net_father.Schedules.Weekdays.parse_days
    net_father.Schedules.Weekdays.show_days net_father.Schedules.Weekdays.sorted_days
    net_father.Schedules.Weekdays.weekday net_father.Schedules.Window.Parse.parse_window
    net_father.Schedules.Window.Parse.take_dash net_father.Schedules.Window.Parse.take_hour
    net_father.Schedules.Window.Parse.take_minute net_father.Schedules.Window.all_minutes
    net_father.Schedules.Window.clock_minutes net_father.Schedules.Window.int_part
    net_father.Schedules.Window.normalize_part net_father.Schedules.Window.normalize_parts
    net_father.Schedules.Window.normalize_windows net_father.Schedules.Window.pair_minutes
    net_father.Schedules.Window.show_window net_father.Schedules.Window.windows
    net_father.Schedules.Zones.local_zone net_father.Schedules.Zones.strip_colons
    net_father.Schedules.Zones.zone
home_run = refl

blocked_ips-MustBlock_example :
    In host_a (host_a ∷ [])
    ↔ ((d : Device) × In d home.devices × MustBlock utc two_addresses home at_noon d host_a)
blocked_ips-MustBlock_example = blocked_ips-MustBlock utc two_addresses home at_noon host_a home_run

-- Two minutes before the nightly window opens.
abbrev before_ten : ℕ
before_ten = 79080000000

night_run : next_transition utc (guest ∷ []) (nights ∷ []) true before_ten ≡ some 79200000000
unfolding next_transition any net_father.Prelude.text_eq net_father.Policy.Engine.follow
    net_father.Policy.Engine.earliest net_father.Policy.Engine.candidates
    net_father.Schedules.Change.next_change net_father.Schedules.Change.find_change
    net_father.Schedules.Active.active net_father.Schedules.Zones.zone
    net_father.Schedules.Active.when_days net_father.Schedules.Active.weekday_set
    net_father.Schedules.Weekdays.normalize_days net_father.Schedules.Weekdays.parse_days
    net_father.Prelude.Strings.split net_father.Schedules.Weekdays.weekday
    net_father.Prelude.Strings.int net_father.Schedules.Weekdays.show_days
    net_father.Policy.Decision.allow_text decision net_father.Policy.Decision.enabled_rules
    net_father.Policy.Decision.invalid_rules net_father.Policy.Decision.rule_active
    net_father.Policy.Decision.rule_before rule_key net_father.Policy.Decision.verdict
    net_father.Prelude.dedupe find net_father.Prelude.keep net_father.Prelude.Sorting.insert
    net_father.Prelude.Sorting.sort net_father.Prelude.Strings.is_space
    net_father.Prelude.Strings.join net_father.Prelude.Strings.lstrip
    net_father.Prelude.Strings.rstrip net_father.Prelude.Strings.strip
    net_father.Prelude.Strings.decimal net_father.Prelude.Strings.decimal_from
    net_father.Prelude.Strings.int_digits net_father.Prelude.Strings.two_digits
    net_father.Schedules.Active.in_window net_father.Schedules.Change.seek
    net_father.Schedules.Weekdays.sorted_days net_father.Schedules.Window.Parse.parse_window
    net_father.Schedules.Window.Parse.take_dash net_father.Schedules.Window.Parse.take_hour
    net_father.Schedules.Window.Parse.take_minute net_father.Schedules.Window.all_minutes
    net_father.Schedules.Window.clock_minutes net_father.Schedules.Window.int_part
    net_father.Schedules.Window.normalize_part net_father.Schedules.Window.normalize_parts
    net_father.Schedules.Window.normalize_windows net_father.Schedules.Window.pair_minutes
    net_father.Schedules.Window.show_window net_father.Schedules.Window.windows
    net_father.Schedules.Zones.local_zone net_father.Schedules.Zones.strip_colons
night_run = refl

next_transition-flips_example :
    (any (has_mode (codes "blocked")) (guest ∷ []) ≡ false)
    × (before_ten < 79200000000)
    × (79200000000 ≤ before_ten + look_ahead)
    × ((decision utc (guest ∷ []) (nights ∷ []) (aware 79200000000)).allowed ≡ not true)
next_transition-flips_example =
    next_transition-flips utc (guest ∷ []) (nights ∷ []) true before_ten 79200000000 night_run

abbrev blocked_mode : Mode
blocked_mode = record { name = codes "off"; internet_mode = codes "blocked" }

abbrev home_snapshot : PolicySnapshot
home_snapshot =
    snapshot_of (policy_of utc two_addresses home tablet at_noon (blocked_mode ∷ []) [] ∷ [])

refresh_run : refresh utc two_addresses home at_noon ≡ ok home_snapshot
unfolding refresh net_father.Policy.Engine.evaluate_all net_father.Policy.Engine.evaluate_list
    net_father.Policy.Engine.evaluate net_father.Policy.Engine.policy_inputs
    net_father.Policy.Engine.own_modes net_father.Policy.Engine.own_rules
    net_father.Prelude.Sorting.sort net_father.Prelude.Sorting.insert net_father.Prelude.keep find
refresh_run = refl

refresh_lem_example :
    (home_snapshot.allowed + home_snapshot.blocked ≡ 1)
    × (home_snapshot.online ≤ 1)
    × (blocked_ips utc two_addresses home at_noon ≡ ok home_snapshot.blocked_ips)
    × (length home_snapshot.blocked_ips ≤ home_snapshot.blocked)
refresh_lem_example = refresh_lem utc two_addresses at_noon home refresh_run
