-- ===== src/Managers/RuleFields/Valid.antt =====
-- The columns that pass the checks of manager/rule_manager.py, and that they can be evaluated.
use net_father.Prelude.{
  ℕ, ◌≡◌, refl, subst, ◌⊎◌, Bool, true, false, not, eq_iff, text_eq_instance, any, List, Text, ok,
  raise_if, validation_error, ok_injective, >>=-eq-ok, arith,
}
use net_father.Prelude.Strings.{codes, split, lower, strip}
use net_father.Models.Policies.{RuleFields}
use net_father.Schedules.Window.{normalize_windows}
use net_father.Schedules.Window.Normal.{normalize_windows_idem, windows-InDay}
use net_father.Schedules.Weekdays.{every_day, normalize_days, parse_days}
use net_father.Schedules.Weekdays.Normal.{normalize_days-Days, normalize_days_idem, parse-show_days}
use net_father.Schedules.Zones.{Zones, zone}
use net_father.Schedules.Active.{
  When, clock, aware, naive, weekday_set, when_days, active, local_time, in_window,
}
use net_father.Managers.RuleFields.{
  is_action, validate_action, normalize_schedule, in_range, is_long, RuleArguments,
  validate_options, build_fields, created_fields, updated_fields, clean_description,
}

module _ {Zone : Type 0} (zones : Zones Zone) where
  -- One of the two actions, a schedule and weekdays in normal form, a zone that can be found, a
  -- priority in the range and a description that is not too long.
  pub record IsValid (f : RuleFields) : Type 0 where
    pub action : (f.action ≡ codes "allow") ⊎ (f.action ≡ codes "block")
    pub schedule : normalize_windows f.schedule ≡ ok f.schedule
    pub weekdays : normalize_days f.weekdays ≡ ok f.weekdays
    pub found : Zone
    pub timezone : zone zones f.timezone ≡ ok found
    pub priority : in_range f.priority ≡ true
    pub description : is_long f.description ≡ false

  raise_if-ok : (b : Bool) {u : Unit {0}} → raise_if b validation_error ≡ ok u → b ≡ false
  raise_if-ok b h = ground arith

  validate_action-ok :
      (a : Text) (t : Text) → validate_action a ≡ ok t → (t ≡ codes "allow") ⊎ (t ≡ codes "block")
  unfolding validate_action is_action
  validate_action-ok a t h =
      let b = lower (strip a) in ground (arith, eq_iff b (codes "allow"), eq_iff b (codes "block"))

  validate_options-ok :
      (a : RuleArguments) (u : Unit {0})
      → validate_options zones a ≡ ok u
      → (in_range a.priority ≡ true) × (z : Zone) × (zone zones a.timezone ≡ ok z)
  unfolding validate_options
  validate_options-ok a u h =
      let (v, e, h₁) = >>=-eq-ok (raise_if (not (in_range a.priority)) validation_error) _ h in
      let (tz, f, h₂) = >>=-eq-ok (zone zones a.timezone) _ h₁ in
      let range = raise_if-ok (not (in_range a.priority)) e in (ground arith, tz, f)

  build_fields-IsValid :
      (a : RuleArguments) (u : Unit {0}) (action schedule : Text) (f : RuleFields)
      → validate_options zones a ≡ ok u
      → validate_action a.action ≡ ok action
      → normalize_windows a.schedule ≡ ok schedule
      → build_fields a action schedule ≡ ok f
      → IsValid f
  unfolding build_fields
  build_fields-IsValid a u action schedule f e₁ e₂ e₃ h =
      let description = clean_description a.description in
      let (v, e₄, h₁) = >>=-eq-ok (raise_if (is_long description) validation_error) _ h in
      let (days, e₅, h₂) = >>=-eq-ok (normalize_days a.weekdays) _ h₁ in
      let (range, tz, e₆) = validate_options-ok a u e₁ in
      subst IsValid (ok_injective h₂) (record {
        action = validate_action-ok a.action action e₂;
        schedule = normalize_windows_idem a.schedule e₃;
        weekdays = normalize_days_idem a.weekdays days e₅;
        found = tz;
        timezone = e₆;
        priority = range;
        description = raise_if-ok (is_long description) e₄;
      })

  pub created_fields-IsValid :
      (a : RuleArguments) (f : RuleFields) → created_fields zones a ≡ ok f → IsValid f
  unfolding created_fields normalize_schedule
  created_fields-IsValid a f h =
      let (u, e₁, h₁) = >>=-eq-ok (validate_options zones a) _ h in
      let (action, e₂, h₂) = >>=-eq-ok (validate_action a.action) _ h₁ in
      let (schedule, e₃, h₃) = >>=-eq-ok (normalize_windows a.schedule) _ h₂ in
      build_fields-IsValid a u action schedule f e₁ e₂ e₃ h₃

  pub updated_fields-IsValid :
      (a : RuleArguments) (f : RuleFields) → updated_fields zones a ≡ ok f → IsValid f
  unfolding updated_fields normalize_schedule
  updated_fields-IsValid a f h =
      let (action, e₂, h₁) = >>=-eq-ok (validate_action a.action) _ h in
      let (schedule, e₃, h₂) = >>=-eq-ok (normalize_windows a.schedule) _ h₁ in
      let (u, e₁, h₃) = >>=-eq-ok (validate_options zones a) _ h₂ in
      build_fields-IsValid a u action schedule f e₁ e₂ e₃ h₃

  weekday_set-ok :
      (v : Text) → normalize_days v ≡ ok v → (days : List ℕ) × (weekday_set v ≡ ok days)
  unfolding weekday_set
  weekday_set-ok v h =
      let d = normalize_days-Days v v h in
      let shown : parse_days (split b',' v) ≡ ok d.days =
        subst (λ t. parse_days (split b',' t) ≡ ok d.days) d.shown
          (parse-show_days d.days d.some_day d.within) in
      (d.days, rw (h, shown) refl)

  when_days-ok :
      (when : When) (v : Text)
      → normalize_days v ≡ ok v
      → (days : List ℕ) × (when_days zones when v ≡ ok days)
  unfolding when_days
  when_days-ok (clock h m) v e = (every_day, refl)
  when_days-ok (aware t) v e = weekday_set-ok v e
  when_days-ok (naive w) v e = weekday_set-ok v e

  -- The schedule of valid columns is read without an error, at any moment.
  pub IsValid-active :
      (f : RuleFields) (when : When)
      → IsValid f
      → (b : Bool) × (active zones f.schedule when f.timezone f.weekdays ≡ ok b)
  unfolding active
  IsValid-active f when v =
      let (days, e) = when_days-ok when f.weekdays v.weekdays in
      let (ws, g, _, _, _) = windows-InDay f.schedule v.schedule in
      (any (in_window (local_time zones v.found when) days) ws, rw (v.timezone, e, g) refl)
