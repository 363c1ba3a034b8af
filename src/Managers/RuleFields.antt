-- ===== src/Managers/RuleFields.antt =====
-- What manager/rule_manager.py checks before it opens a session.
pub mod Valid
use net_father.Prelude.{
  Bool, false, not, ◌&&◌, ◌||◌, Option, none, some, length, leb, ltb, ◌==◌, text_eq_instance,
  if◌then◌else◌, Text, Result, ok, err, raise_if, validation_error, ◌>>=◌, ◌>>◌,
}
use net_father.Prelude.Int.{ℤ, pos, negsuc}
use net_father.Prelude.Strings.{codes, is_empty, lower, strip}
use net_father.Models.Policies.{RuleFields}
use net_father.Schedules.Weekdays.{normalize_days}
use net_father.Schedules.Window.{normalize_windows}
use net_father.Schedules.Zones.{Zones, zone}

unfoldable pub is_action : Text → Bool
is_action action = action == codes "allow" || action == codes "block"

unfoldable pub validate_action : Text → Result Text
validate_action action = do
  let normalized = lower (strip action)
  raise_if (not (is_action normalized)) validation_error
  ok normalized

unfoldable pub normalize_schedule : Text → Result Text
normalize_schedule schedule = normalize_windows schedule

-- `0 <= priority <= 10000`; the argument is an int.
abbrev pub in_range : ℤ → Bool
in_range (pos n) = leb n 10000
in_range (negsuc _) = false

-- `description.strip() if description else None`
unfoldable pub clean_description : Option Text → Option Text
clean_description none = none
clean_description (some text) = if is_empty text then none else some (strip text)

abbrev pub is_long : Option Text → Bool
is_long none = false
is_long (some text) = ltb 256 (length text)

-- The arguments of `create_rule` and `update_rule` that become columns. Of `ports` and
-- `destination` only the truth value is read.
pub record RuleArguments : Type 0 where
  pub action : Text
  pub schedule : Text
  pub enabled : Bool
  pub description : Option Text
  pub priority : ℤ
  pub timezone : Text
  pub weekdays : Text
  pub ports : Bool
  pub destination : Bool

-- The columns, with the description and the weekdays that are stored.
unfoldable pub build_fields : RuleArguments → Text → Text → Result RuleFields
build_fields a action schedule = do
  let description = clean_description a.description
  raise_if (is_long description) validation_error
  weekdays ← normalize_days a.weekdays
  ok (record {
    action = action;
    schedule = schedule;
    enabled = a.enabled;
    description = description;
    priority = a.priority;
    timezone = a.timezone;
    weekdays = weekdays;
  })

module _ {Zone : Type 0} (zones : Zones Zone) where
  unfoldable pub validate_options : RuleArguments → Result (Unit {0})
  validate_options a = do
    raise_if (not (in_range a.priority)) validation_error
    tz ← zone zones a.timezone
    days ← normalize_days a.weekdays
    raise_if (a.ports || a.destination) validation_error

  -- The order of `create_rule`: the options first, then the action and the schedule.
  unfoldable pub created_fields : RuleArguments → Result RuleFields
  created_fields a = do
    validate_options a
    action ← validate_action a.action
    schedule ← normalize_schedule a.schedule
    build_fields a action schedule

  -- The order of `update_rule`: the action and the schedule first.
  unfoldable pub updated_fields : RuleArguments → Result RuleFields
  updated_fields a = do
    action ← validate_action a.action
    schedule ← normalize_schedule a.schedule
    validate_options a
    build_fields a action schedule
