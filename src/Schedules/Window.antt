-- ===== src/Schedules/Window.antt =====
-- `normalize_windows` and `windows` of manager/schedules.py. The pattern WINDOW is read by hand:
-- an hour of one or two digits, a minute of two, a dash, and white space where the pattern has it.
pub mod Parse
pub mod RoundTrip
pub mod Normal
use Parse.{Window, parse_window}
use net_father.Prelude.{
  ℕ, ◌+◌, ◌*◌, ◌≡◌, Bool, true, false, not, ◌&&◌, ◌||◌, Option, none, some, List, [], ◌∷◌, ◌++◌,
  ltb, leb, length, take, drop, dedupe, Text, Result, ok, err, Error, validation_error, value_error,
  ◌>>=◌, ◌>>◌, raise_if, or_raise, text_eq_instance,
}
use net_father.Prelude.Int.{pos}
use net_father.Prelude.Strings.{split, join, int, two_digits}

abbrev dash : Text
dash = b'-' ∷ []

abbrev semicolon : Text
semicolon = b';' ∷ []

-- `f"{sh:02d}:{sm:02d}-{eh:02d}:{em:02d}"`
unfoldable pub show_window : Window → Text
show_window w =
    two_digits w.start_hour
    ++ (b':'
        ∷ (two_digits w.start_minute
            ++ (b'-' ∷ (two_digits w.end_hour ++ (b':' ∷ two_digits w.end_minute)))))

abbrev pub is_clock : Window → Bool
is_clock w =
    not (ltb 23 w.start_hour || ltb 23 w.end_hour || ltb 59 w.start_minute || ltb 59 w.end_minute)

-- The body of the loop over the parts.
unfoldable pub normalize_part : Text → Result Text
normalize_part part = do
  w ← or_raise (parse_window part) validation_error
  raise_if (not (is_clock w)) validation_error
  ok (show_window w)

unfoldable pub normalize_parts : List Text → Result (List Text)
normalize_parts [] = ok []
normalize_parts (part ∷ parts) = do w ← normalize_part part; ws ← normalize_parts parts; ok (w ∷ ws)

unfoldable pub normalize_windows : Text → Result Text
normalize_windows value = do
  let parts = split b';' value
  raise_if (not (leb 1 (length parts) && leb (length parts) 16)) validation_error
  result ← normalize_parts parts
  ok (join semicolon (dedupe result))

-- `int(t)` of two digits; a sign never stands in a normalized text.
unfoldable pub int_part : Text → Result ℕ
int_part t = elim (int t) [ some (pos n) ↦ ok n | _ ↦ err value_error ]

-- `int(t[:2]) * 60 + int(t[3:])`
unfoldable pub clock_minutes : Text → Result ℕ
clock_minutes t = do
  hour ← int_part (take 2 t)
  minute ← int_part (drop 3 t)
  ok (hour * 60 + minute)

-- The pair that `for start, end in windows(schedule)` unpacks.
unfoldable pub pair_minutes : List Text → Result (ℕ × ℕ)
pair_minutes (start ∷ (end ∷ [])) = do s ← clock_minutes start; e ← clock_minutes end; ok (s, e)
pair_minutes _ = err value_error

unfoldable pub all_minutes : List Text → Result (List (ℕ × ℕ))
all_minutes [] = ok []
all_minutes (part ∷ parts) = do
  p ← pair_minutes (split b'-' part)
  ps ← all_minutes parts
  ok (p ∷ ps)

unfoldable pub windows : Text → Result (List (ℕ × ℕ))
windows schedule = do value ← normalize_windows schedule; all_minutes (split b';' value)
