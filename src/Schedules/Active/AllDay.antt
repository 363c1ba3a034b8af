-- ===== src/Schedules/Active/AllDay.antt =====
-- What `active` answers does not depend on the instant, only whether it raises; and a window with
-- equal ends on all seven weekdays never closes.
use net_father.Prelude.{
  ℕ, ◌<◌, ◌≡◌, refl, Bool, true, List, [], ◌∷◌, any, eqb, ok, >>=-eq-ok, contains, dedupe, nat_eq,
  arith, Text,
}
use net_father.Prelude.Strings.{codes, int, split, join, decimal}
use net_father.Prelude.Sorting.{sort}
use net_father.Schedules.Window.{windows}
use net_father.Schedules.Weekdays.{
  every_day, normalize_days, parse_days, weekday, show_days, sorted_days,
}
use net_father.Schedules.Zones.{WallTime, Zones, zone}
use net_father.Schedules.Active.{aware, in_window, weekday_set, when_days, active}

contains-every_day : (d : ℕ) → d < 7 → contains d every_day ≡ true
unfolding any
contains-every_day d h = ground arith

in_window_all_day :
    (now : WallTime) (w : ℕ × ℕ)
    → now.day < 7
    → eqb w.0 w.1 ≡ true
    → in_window now every_day w ≡ true
unfolding in_window
in_window_all_day now w h e = ground (arith, contains-every_day now.day h)

any-all_day :
    (now : WallTime) (ws : List (ℕ × ℕ))
    → now.day < 7
    → any (λ w. eqb w.0 w.1) ws ≡ true
    → any (in_window now every_day) ws ≡ true
unfolding any
any-all_day now [] h e = cc
any-all_day now (w ∷ ws) h e = ground (arith, in_window_all_day now w h, any-all_day now ws h)

weekday_set-every_day : weekday_set (codes "0,1,2,3,4,5,6") ≡ ok every_day
unfolding weekday_set normalize_days parse_days weekday int show_days sorted_days sort split join
    decimal dedupe
weekday_set-every_day = refl

module _ {Zone : Type 0} (zones : Zones Zone) where
  pub active-all_day :
      (schedule timezone weekdays : Text) (s t : ℕ) {b : Bool} {ws : List (ℕ × ℕ)}
      → weekdays ≡ codes "0,1,2,3,4,5,6"
      → windows schedule ≡ ok ws
      → any (λ w. eqb w.0 w.1) ws ≡ true
      → active zones schedule (aware s) timezone weekdays ≡ ok b
      → active zones schedule (aware t) timezone weekdays ≡ ok true
  unfolding active when_days
  active-all_day schedule timezone weekdays s t {ws = ws} all_days e equal h =
      let (tz, z, _) = >>=-eq-ok (zone zones timezone) _ h in
      rw (z, all_days, weekday_set-every_day, e)
        (ap_ok (any-all_day _ ws (zones.wall_day tz t) equal))
    where
      ap_ok : {p q : Bool} → p ≡ q → ok p ≡ ok q
      ap_ok k = cc

  pub active-total :
      (schedule timezone weekdays : Text) (s t : ℕ) {b : Bool}
      → active zones schedule (aware s) timezone weekdays ≡ ok b
      → (b' : Bool) × (active zones schedule (aware t) timezone weekdays ≡ ok b')
  unfolding active when_days
  active-total schedule timezone weekdays s t h =
      let (tz, z, h₁) = >>=-eq-ok (zone zones timezone) _ h in
      let (days, d, h₂) = >>=-eq-ok (weekday_set weekdays) _ h₁ in
      let (ws, w, _) = >>=-eq-ok (windows schedule) _ h₂ in
      (any (in_window (zones.wall tz t) days) ws, rw (z, d, w) refl)

  pub active-windows :
      (schedule timezone weekdays : Text) (s : ℕ) {b : Bool}
      → active zones schedule (aware s) timezone weekdays ≡ ok b
      → (ws : List (ℕ × ℕ)) × (windows schedule ≡ ok ws)
  unfolding active when_days
  active-windows schedule timezone weekdays s h =
      let (tz, z, h₁) = >>=-eq-ok (zone zones timezone) _ h in
      let (days, d, h₂) = >>=-eq-ok (weekday_set weekdays) _ h₁ in
      let (ws, w, _) = >>=-eq-ok (windows schedule) _ h₂ in (ws, w)
