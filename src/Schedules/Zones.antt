-- ===== src/Schedules/Zones.antt =====
-- `zone` of manager/schedules.py. The time-zone database, the TZ variable and /etc/localtime lie
-- outside the repository: they are a record of what the program reads of them. ZoneInfo raises
-- ZoneInfoNotFoundError or ValueError for a name that it does not know; that the database cannot be
-- read for another reason (PermissionError, IsADirectoryError), which `zone` does not catch, lies
-- outside the model.
use net_father.Prelude.{
  ℕ, ◌<◌, Option, none, some, [], ◌∷◌, if◌then◌else◌, eqb, ◌==◌, text_eq_instance, Text, Result, ok,
  validation_error, or_raise,
}
use net_father.Prelude.Strings.{codes, is_empty}

-- The hour and minute of a local time as minutes of its day, and its weekday from 0 (Monday).
pub record WallTime : Type 0 where
  pub day : ℕ
  pub minute : ℕ

-- Instants are microseconds, the resolution of Python's `datetime`. They have no end: that local
-- time and the eight days after an instant stay within the range of `datetime` is assumed.
pub record Zones (Zone : Type 0) : Type 0 where
  pub tz_variable : Option Text
  -- /etc/localtime: `none` where it cannot be read (OSError), `some none` where it is malformed
  -- (ValueError).
  pub system_zone : Option (Option Zone)
  pub current_zone : Zone
  -- `none` where ZoneInfo raises ZoneInfoNotFoundError or ValueError.
  pub iana_zone : Text → Option Zone
  pub wall : Zone → ℕ → WallTime
  pub wall_minute : (z : Zone) (t : ℕ) → (wall z t).minute < 1440
  pub wall_day : (z : Zone) (t : ℕ) → (wall z t).day < 7

-- `text.lstrip(":")`
unfoldable pub strip_colons : Text → Text
strip_colons [] = []
strip_colons (c ∷ s) = if eqb c b':' then strip_colons s else c ∷ s

module _ {Zone : Type 0} (zones : Zones Zone) where
  open zones use {tz_variable, system_zone, current_zone, iana_zone}

  abbrev pub system_or_current : Result Zone
  system_or_current = elim system_zone [
    | some file ↦ or_raise file validation_error
    | none ↦ ok current_zone
  ]

  unfoldable pub local_zone : Result Zone
  local_zone = elim tz_variable [
    | none ↦ system_or_current
    | some value ↦
        if is_empty value
        then system_or_current
        else or_raise (iana_zone (strip_colons value)) validation_error
  ]

  unfoldable pub zone : Text → Result Zone
  zone name =
      if name == codes "local" then local_zone else or_raise (iana_zone name) validation_error
