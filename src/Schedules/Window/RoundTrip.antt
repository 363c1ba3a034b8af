-- ===== src/Schedules/Window/RoundTrip.antt =====
-- Normalized schedules: the canonical text is read back, and normalizing again changes nothing.
use net_father.Prelude.{
  ℕ, ◌<◌, ◌≡◌, refl, true, false, List, [], ◌∷◌, ◌++◌, All, any, eqb, text_eq_instance, Text, ok,
  >>=-eq-ok, ok_injective, some, Bool-cases, Option-cases, inl, inr, arith,
}
use net_father.Prelude.Strings.{lstrip, is_space, two_digits}
use net_father.Schedules.Window.Parse.{Window, parse_window, take_hour, take_minute, take_dash}
use net_father.Schedules.Window.{show_window, is_clock, normalize_part, normalize_parts}

take_hour-two_digits :
    (n : ℕ) (s : Text) → n < 100 → take_hour (two_digits n ++ (b':' ∷ s)) ≡ some (n, s)
unfolding take_hour two_digits
take_hour-two_digits n s h = ground arith

take_minute-two_digits :
    (n : ℕ) (s : Text) → n < 100 → take_minute (two_digits n ++ s) ≡ some (n, s)
unfolding take_minute two_digits
take_minute-two_digits n s h = ground arith

lstrip-two_digits : (n : ℕ) (s : Text) → n < 100 → lstrip (two_digits n ++ s) ≡ two_digits n ++ s
unfolding lstrip is_space two_digits
lstrip-two_digits n s h = ground arith

lstrip_dash : (s : Text) → lstrip (b'-' ∷ s) ≡ b'-' ∷ s
unfolding lstrip is_space
lstrip_dash s = refl

take_minute_end : (n : ℕ) → n < 100 → take_minute (two_digits n) ≡ some (n, [])
unfolding take_minute two_digits
take_minute_end n h = ground arith

lstrip_nil : lstrip [] ≡ []
unfolding lstrip
lstrip_nil = refl

pub record IsSmall (w : Window) : Type 0 where
  pub sh : w.start_hour < 24
  pub sm : w.start_minute < 60
  pub eh : w.end_hour < 24
  pub em : w.end_minute < 60

pub is_clock-IsSmall : (w : Window) → is_clock w ≡ true → IsSmall w
is_clock-IsSmall w h = ground arith

show-no_semicolon : (w : Window) → IsSmall w → any (λ c. eqb c b';') (show_window w) ≡ false
unfolding show_window two_digits any
show-no_semicolon w h = ground arith

-- The pattern reads back what the format writes.
pub parse-show : (w : Window) → is_clock w ≡ true → parse_window (show_window w) ≡ some w
unfolding parse_window show_window take_dash
parse-show w h =
    let b = is_clock-IsSmall w h in
    simp (
      lstrip-two_digits w.start_hour _ (omega arith),
      take_hour-two_digits w.start_hour _ (omega arith),
      take_minute-two_digits w.start_minute _ (omega arith),
      lstrip_dash,
      lstrip-two_digits w.end_hour _ (omega arith),
      take_hour-two_digits w.end_hour _ (omega arith),
      take_minute_end w.end_minute (omega arith),
      lstrip_nil,
    )

-- The text of a window in range.
abbrev pub IsCanonical : Text → Type 0
IsCanonical t = (w : Window) × (is_clock w ≡ true) × (t ≡ show_window w)

pub no_semicolon : (t : Text) → IsCanonical t → any (λ c. eqb c b';') t ≡ false
no_semicolon t (w, h, e) = rw e (show-no_semicolon w (is_clock-IsSmall w h))

normalize_part-IsCanonical : (p : Text) {t : Text} → normalize_part p ≡ ok t → IsCanonical t
unfolding normalize_part
normalize_part-IsCanonical p {t} h = elim (Option-cases (parse_window p)) [
  | inl e ↦ absurd (ground arith)
  | inr (w, e) ↦ elim (Bool-cases (is_clock w)) [
    | inl c ↦ (w, c, ground arith)
    | inr c ↦ absurd (ground arith)
  ]
]

normalize_part_of_IsCanonical : (t : Text) → IsCanonical t → normalize_part t ≡ ok t
unfolding normalize_part
normalize_part_of_IsCanonical t (w, c, e) = rw (e, parse-show w c, c) refl

pub normalize_parts-IsCanonical :
    (ps : List Text) {ts : List Text} → normalize_parts ps ≡ ok ts → All IsCanonical ts
unfolding normalize_parts
normalize_parts-IsCanonical [] h = rw (← ok_injective h) tt
normalize_parts-IsCanonical (p ∷ ps) h =
    let (t, e, h₁) = >>=-eq-ok (normalize_part p) _ h in
    let (ts, f, h₂) = >>=-eq-ok (normalize_parts ps) _ h₁ in
    rw (← ok_injective h₂) (normalize_part-IsCanonical p e, normalize_parts-IsCanonical ps f)

pub normalize_parts_of_IsCanonical :
    (ts : List Text) → All IsCanonical ts → normalize_parts ts ≡ ok ts
unfolding normalize_parts
normalize_parts_of_IsCanonical [] h = refl
normalize_parts_of_IsCanonical (t ∷ ts) h =
    rw (normalize_part_of_IsCanonical t h.0, normalize_parts_of_IsCanonical ts h.1) refl
