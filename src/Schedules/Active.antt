-- ===== src/Schedules/Active.antt =====
-- `active` of manager/schedules.py: whether a schedule is in one of its windows at a moment.
pub mod Week
pub mod AllDay
pub mod Errors
use net_father.Prelude.{
  ℕ, ◌+◌, ◌*◌, ◌%◌, Bool, ◌&&◌, ◌||◌, List, [], ◌∷◌, any, ltb, leb, eqb, contains, nat_eq, Text,
  Result, ok, ◌>>=◌,
}
use net_father.Prelude.Strings.{split}
use net_father.Schedules.Window.{windows}
use net_father.Schedules.Weekdays.{every_day, normalize_days, parse_days}
use net_father.Schedules.Zones.{WallTime, Zones, zone}

-- The argument `when`: a `datetime.time`, a `datetime` with a zone, or one without. A caller that
-- passes None gives the present instant.
pub data When : Type 0 where
  clock : (hour minute : ℕ) → When
  aware : ℕ → When
  naive : WallTime → When

-- The tests of the loop body. `(day - 1) % 7` is taken over naturals.
unfoldable pub in_window : WallTime → List ℕ → ℕ × ℕ → Bool
in_window now days (start, end) =
    eqb start end && contains now.day days
    || (ltb start end && contains now.day days && (leb start now.minute && ltb now.minute end)
        || ltb end start
          && (leb start now.minute && contains now.day days
              || ltb now.minute end && contains ((now.day + 6) % 7) days))

-- `days` of a call with a date: the numbers of the normalized text.
unfoldable pub weekday_set : Text → Result (List ℕ)
weekday_set weekdays = do text ← normalize_days weekdays; parse_days (split b',' text)

module _ {Zone : Type 0} (zones : Zones Zone) where
  abbrev pub local_time : Zone → When → WallTime
  local_time tz (clock hour minute) = record { day = 0; minute = hour * 60 + minute }
  local_time tz (aware t) = zones.wall tz t
  local_time tz (naive w) = w

  -- Time-only calls take every day and do not read `weekdays`.
  unfoldable pub when_days : When → Text → Result (List ℕ)
  when_days (clock _ _) weekdays = ok every_day
  when_days (aware _) weekdays = weekday_set weekdays
  when_days (naive _) weekdays = weekday_set weekdays

  unfoldable pub active : Text → When → Text → Text → Result Bool
  active schedule when timezone weekdays = do
    tz ← zone zones timezone
    days ← when_days when weekdays
    ws ← windows schedule
    ok (any (in_window (local_time tz when) days) ws)
