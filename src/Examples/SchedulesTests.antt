-- ===== src/Examples/SchedulesTests.antt =====
-- The theorems on schedules at small inputs.
use net_father.Prelude.{
  ◌⊎◌, ℕ, ◌≡◌, refl, ◌↔◌, Bool, true, false, Option, List, [], ◌∷◌, All, ◌≤◌, ◌<◌, ◌+◌, ◌*◌, length,
  In, Text, Result, ok, err, Error, validation_error, arith,
}
use net_father.Prelude.Strings.{codes}
use net_father.Schedules.Window.{normalize_windows, windows}
use net_father.Schedules.Window.Normal.{normalize_windows_idem, windows-InDay, InDay}
use net_father.Schedules.Zones.{WallTime}
use net_father.Schedules.Active.{aware, active, in_window}
use net_father.Schedules.Active.Week.{Covers, in_window-Covers}
use net_father.Schedules.Change.{Timetable, active_at, next_change, overlaps, eight_days, day_start}
use net_father.Schedules.Change.First.{ChangeSpec, next_change-ChangeSpec}
use net_father.Schedules.Change.Meeting.{Together, overlaps-Together}
use net_father.Examples.{utc}

abbrev evening : Text
evening = codes " 8:30 - 10:00;08:30-10:00"

evening_run : normalize_windows evening ≡ ok (codes "08:30-10:00")
unfolding normalize_windows net_father.Prelude.Strings.split
    net_father.Schedules.Window.normalize_parts net_father.Schedules.Window.normalize_part
    net_father.Schedules.Window.Parse.parse_window net_father.Schedules.Window.Parse.take_hour
    net_father.Prelude.Strings.lstrip net_father.Schedules.Window.Parse.take_minute
    net_father.Schedules.Window.Parse.take_dash net_father.Prelude.Strings.join
    net_father.Prelude.dedupe net_father.Prelude.text_eq net_father.Schedules.Window.show_window
    net_father.Prelude.Strings.two_digits
evening_run = refl

normalize_windows_idem_example : normalize_windows (codes "08:30-10:00") ≡ ok (codes "08:30-10:00")
normalize_windows_idem_example = normalize_windows_idem evening evening_run

windows-InDay_example :
    (ps : List (ℕ × ℕ)) × (windows evening ≡ ok ps)
    × All InDay ps
    × (1 ≤ length ps)
    × (length ps ≤ 16)
windows-InDay_example = windows-InDay evening evening_run

abbrev monday_night : WallTime
monday_night = record { day = 1; minute = 300 }

abbrev night : ℕ × ℕ
night = (1320, 360)

in_window-Covers_example : (in_window monday_night (0 ∷ []) night ≡ true) ↔ (
    ((night.0 ≡ night.1) × In monday_night.day (0 ∷ []))
    ⊎ ((d : ℕ) × In d (0 ∷ []) × Covers night monday_night d))
in_window-Covers_example =
    in_window-Covers monday_night (0 ∷ []) 1320 360 (omega arith) (omega arith) (omega arith)
      (omega arith) (omega arith, tt)

abbrev weekday_mornings : Timetable
weekday_mornings = record {
  schedule = codes "08:00-12:00";
  timezone = codes "UTC";
  weekdays = codes "0,1,2,3,4";
}

closed_at_start : active_at utc weekday_mornings 0 ≡ ok false
unfolding active net_father.Schedules.Zones.zone net_father.Prelude.text_eq
    net_father.Schedules.Active.when_days net_father.Schedules.Active.weekday_set
    net_father.Schedules.Weekdays.normalize_days net_father.Schedules.Weekdays.parse_days
    net_father.Prelude.Strings.split net_father.Schedules.Weekdays.weekday
    net_father.Prelude.Strings.int net_father.Schedules.Weekdays.show_days
    net_father.Prelude.Strings.join net_father.Schedules.Weekdays.sorted_days
    net_father.Prelude.Sorting.sort net_father.Prelude.dedupe net_father.Prelude.Strings.decimal
    windows normalize_windows net_father.Prelude.any net_father.Prelude.keep
    net_father.Prelude.Sorting.insert net_father.Prelude.Strings.is_space
    net_father.Prelude.Strings.lstrip net_father.Prelude.Strings.rstrip
    net_father.Prelude.Strings.strip net_father.Prelude.Strings.decimal_from
    net_father.Prelude.Strings.int_digits net_father.Prelude.Strings.two_digits in_window
    net_father.Schedules.Window.Parse.parse_window net_father.Schedules.Window.Parse.take_dash
    net_father.Schedules.Window.Parse.take_hour net_father.Schedules.Window.Parse.take_minute
    net_father.Schedules.Window.all_minutes net_father.Schedules.Window.clock_minutes
    net_father.Schedules.Window.int_part net_father.Schedules.Window.normalize_part
    net_father.Schedules.Window.normalize_parts net_father.Schedules.Window.pair_minutes
    net_father.Schedules.Window.show_window net_father.Schedules.Zones.local_zone
    net_father.Schedules.Zones.strip_colons
closed_at_start = refl

next_change-ChangeSpec_example :
    (result : Option ℕ) × (next_change utc weekday_mornings true 59000000 ≡ ok result)
    × ChangeSpec utc weekday_mornings 0 false result
next_change-ChangeSpec_example =
    next_change-ChangeSpec utc weekday_mornings 59000000 closed_at_start

overlaps-Together_example :
    (c : Bool) × (overlaps utc weekday_mornings weekday_mornings 59000000 ≡ ok c)
    × ((c ≡ true) ↔ Together utc weekday_mornings weekday_mornings eight_days (day_start 59000000))
overlaps-Together_example =
    overlaps-Together utc weekday_mornings weekday_mornings 59000000 closed_at_start closed_at_start
