-- ===== src/Schedules/Window/Parse.antt =====
-- The pattern WINDOW of manager/schedules.py as a parser. Its digits and spaces are the ASCII ones,
-- where `\d` and `\s` of Python take those of other scripts too.
use net_father.Prelude.{
  ℕ, ◌+◌, ◌-◌, ◌*◌, ◌&&◌, Option, none, some, [], ◌∷◌, eqb, if◌then◌else◌, Text,
}
use net_father.Prelude.Options.{◌>>=◌, ◌>>◌, require}
use net_father.Prelude.Strings.{is_digit, is_empty, lstrip}

pub record Window : Type 0 where
  pub start_hour : ℕ
  pub start_minute : ℕ
  pub end_hour : ℕ
  pub end_minute : ℕ

take_second : ℕ → ℕ → Text → Option (ℕ × Text)
take_second hour d [] = none
take_second hour d (e ∷ s) =
    if is_digit d && eqb e b':' then some (hour * 10 + (d - 48), s) else none

-- `(\d{1,2}):`
unfoldable pub take_hour : Text → Option (ℕ × Text)
unfolding take_second
take_hour (c ∷ (d ∷ s)) =
    if is_digit c then (if eqb d b':' then some (c - 48, s) else take_second (c - 48) d s) else none
take_hour _ = none

-- `(\d{2})`
unfoldable pub take_minute : Text → Option (ℕ × Text)
take_minute (c ∷ (d ∷ s)) =
    if is_digit c && is_digit d then some ((c - 48) * 10 + (d - 48), s) else none
take_minute _ = none

unfoldable pub take_dash : Text → Option Text
take_dash [] = none
take_dash (c ∷ s) = if eqb c b'-' then some s else none

-- `WINDOW.fullmatch(part)` with its four groups as numbers.
unfoldable pub parse_window : Text → Option Window
parse_window part = do
  (sh, at_minute) ← take_hour (lstrip part)
  (sm, at_dash) ← take_minute at_minute
  at_end ← take_dash (lstrip at_dash)
  (eh, at_end_minute) ← take_hour (lstrip at_end)
  (em, rest) ← take_minute at_end_minute
  require (is_empty (lstrip rest))
  some (record { start_hour = sh; start_minute = sm; end_hour = eh; end_minute = em })
