-- ===== src/Schedules/Change.antt =====
-- `next_change` and `overlaps` of manager/schedules.py: searches over the minutes of eight days.
pub mod First
pub mod Meeting
use net_father.Prelude.{
  ℕ, zero, suc, ◌+◌, ◌-◌, ◌*◌, ◌/◌, Bool, true, false, not, ◌&&◌, ◌||◌, Option, none, some, List,
  [], ◌∷◌, any, eqb, ◌==◌, text_eq_instance, if◌then◌else◌, Text, Result, ok, err, ◌>>=◌,
}
use net_father.Prelude.Strings.{codes}
use net_father.Schedules.Window.{windows}
use net_father.Schedules.Zones.{Zones}
use net_father.Schedules.Active.{When, aware, active}

-- One minute in microseconds.
abbrev pub minute_span : ℕ
minute_span = 60000000

-- `timedelta(days=8)` in minutes.
abbrev pub eight_days : ℕ
eight_days = 11520

-- `replace(second=0, microsecond=0)`
abbrev pub whole_minute : ℕ → ℕ
whole_minute t = t / minute_span * minute_span

abbrev differs : Bool → Bool → Bool
differs a b = if a then not b else b

-- What a rule's schedule is read from.
pub record Timetable : Type 0 where
  pub schedule : Text
  pub timezone : Text
  pub weekdays : Text

module _ {Zone : Type 0} (zones : Zones Zone) (r : Timetable) where
  abbrev pub active_at : ℕ → Result Bool
  active_at t = active zones r.schedule (aware t) r.timezone r.weekdays

  -- The loop over the offsets: `left` are still to be tried, from `offset` on.
  unfoldable pub seek : ℕ → ℕ → ℕ → Bool → Result (Option ℕ)
  seek zero offset minute before = ok none
  seek (suc left) offset minute before =
      let candidate = minute + offset * minute_span in
      let rest = seek left (offset + 1) minute before in
      active_at candidate >>= λ now. if differs now before then ok (some candidate) else rest

  unfoldable pub find_change : ℕ → Result (Option ℕ)
  find_change minute = do
    before ← active_at minute
    ws ← windows r.schedule
    if r.weekdays == codes "0,1,2,3,4,5,6" && any (λ w. eqb w.0 w.1) ws
        then ok none
        else seek eight_days 1 minute before

  unfoldable pub next_change : Bool → ℕ → Result (Option ℕ)
  next_change enabled when = if enabled then find_change (whole_minute when) else ok none

  -- `_week_mask`: the bits of the mask, from the lowest on.
  unfoldable pub mask_from : ℕ → ℕ → Result (List Bool)
  mask_from zero at = ok []
  mask_from (suc left) at = do
    bit ← active_at at
    bits ← mask_from left (at + minute_span)
    ok (bit ∷ bits)

  unfoldable pub week_mask : ℕ → Result (List Bool)
  week_mask anchor = mask_from eight_days anchor

-- `bool(left & right)`
unfoldable pub meet : List Bool → List Bool → Bool
meet (a ∷ as_) (b ∷ bs) = a && b || meet as_ bs
meet _ _ = false

-- `replace(hour=0, minute=0, second=0, microsecond=0)` of an instant in UTC.
abbrev pub day_start : ℕ → ℕ
day_start t = t / 86400000000 * 86400000000

module _ {Zone : Type 0} (zones : Zones Zone) where
  unfoldable pub overlaps : Timetable → Timetable → ℕ → Result Bool
  overlaps left right when = do
    l ← week_mask zones left (day_start when)
    r ← week_mask zones right (day_start when)
    ok (meet l r)
