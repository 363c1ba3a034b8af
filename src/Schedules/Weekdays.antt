-- ===== src/Schedules/Weekdays.antt =====
-- `normalize_days` of manager/schedules.py: weekdays as comma-separated numbers from 0 (Monday).
pub mod Normal
use net_father.Prelude.{
  ℕ, Option, none, some, List, [], ◌∷◌, map, ltb, if◌then◌else◌, dedupe, nat_eq, Text, Result, ok,
  validation_error, ◌>>=◌, or_raise,
}
use net_father.Prelude.Int.{pos}
use net_father.Prelude.Sorting.{sort}
use net_father.Prelude.Strings.{split, join, int, decimal}

abbrev comma : Text
comma = b',' ∷ []

abbrev pub every_day : List ℕ
every_day = 0 ∷ 1 ∷ 2 ∷ 3 ∷ 4 ∷ 5 ∷ 6 ∷ []

-- `int(item)`, and that it lies in `set(range(7))`: both failures raise ValidationError.
unfoldable pub weekday : Text → Option ℕ
weekday item = elim (int item) [ some (pos n) ↦ if ltb n 7 then some n else none | _ ↦ none ]

unfoldable pub parse_days : List Text → Result (List ℕ)
parse_days [] = ok []
parse_days (item ∷ items) = do
  day ← or_raise (weekday item) validation_error
  days ← parse_days items
  ok (day ∷ days)

-- `sorted(days)` of the set of days.
unfoldable pub sorted_days : List ℕ → List ℕ
sorted_days days = sort ltb (dedupe days)

unfoldable pub show_days : List ℕ → Text
show_days days = join comma (map decimal days)

unfoldable pub normalize_days : Text → Result Text
normalize_days value = do days ← parse_days (split b',' value); ok (show_days (sorted_days days))
