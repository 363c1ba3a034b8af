-- ===== src/Schedules/Active/Errors.antt =====
-- `active` raises only ValidationError, which is all that its callers catch, for zones in the sense
-- of Schedules/Zones.
use net_father.Prelude.{
  ◌≡◌, refl, List, [], ◌∷◌, Text, Result, err, Error, validation_error, >>=-eq-err, Result-cases,
  inl, inr, arith,
}
use net_father.Prelude.Strings.{split}
use net_father.Schedules.Window.{normalize_part, normalize_parts, normalize_windows, windows}
use net_father.Schedules.Window.Normal.{windows-InDay}
use net_father.Schedules.Weekdays.{parse_days, normalize_days}
use net_father.Schedules.Zones.{Zones, zone, local_zone}
use net_father.Schedules.Active.{When, clock, aware, naive, weekday_set, when_days, active}

-- The only error that a computation can end in.
abbrev OnlyValidation : {A : Type 0} → Result A → Type 0
OnlyValidation m = (e : Error) → m ≡ err e → e ≡ validation_error

normalize_part-OnlyValidation : (part : Text) → OnlyValidation (normalize_part part)
unfolding normalize_part
normalize_part-OnlyValidation part e h = ground arith

normalize_parts-OnlyValidation : (parts : List Text) → OnlyValidation (normalize_parts parts)
unfolding normalize_parts
normalize_parts-OnlyValidation [] e h = cc
normalize_parts-OnlyValidation (p ∷ ps) e h =
    ground (arith, normalize_part-OnlyValidation p e, normalize_parts-OnlyValidation ps e)

normalize_windows-OnlyValidation : (v : Text) → OnlyValidation (normalize_windows v)
unfolding normalize_windows
normalize_windows-OnlyValidation v e h =
    ground (arith, normalize_parts-OnlyValidation (split b';' v) e)

windows_fail : (v : Text) (e : Error) → normalize_windows v ≡ err e → windows v ≡ err e
unfolding windows
windows_fail v e h = rw h refl

windows-OnlyValidation : (v : Text) → OnlyValidation (windows v)
windows-OnlyValidation v e h = elim (Result-cases (normalize_windows v)) [
  | inl (t, q) ↦ let (ps, r, _, _, _) = windows-InDay v q in cc
  | inr (d, q) ↦ cc (normalize_windows-OnlyValidation v d q, windows_fail v d q)
]

parse_days-OnlyValidation : (items : List Text) → OnlyValidation (parse_days items)
unfolding parse_days
parse_days-OnlyValidation [] e h = cc
parse_days-OnlyValidation (i ∷ is) e h = ground (arith, parse_days-OnlyValidation is e)

normalize_days-OnlyValidation : (v : Text) → OnlyValidation (normalize_days v)
unfolding normalize_days
normalize_days-OnlyValidation v e h = ground (arith, parse_days-OnlyValidation (split b',' v) e)

weekday_set-OnlyValidation : (v : Text) → OnlyValidation (weekday_set v)
unfolding weekday_set
weekday_set-OnlyValidation v e h = elim (>>=-eq-err (normalize_days v) _ h) [
  | inl q ↦ normalize_days-OnlyValidation v e q
  | inr (t, q, r) ↦ parse_days-OnlyValidation (split b',' t) e r
]

module _ {Zone : Type 0} (zones : Zones Zone) where
  zone-OnlyValidation : (name : Text) → OnlyValidation (zone zones name)
  unfolding zone local_zone
  zone-OnlyValidation name e h = ground arith

  when_days-OnlyValidation : (when : When) (v : Text) → OnlyValidation (when_days zones when v)
  unfolding when_days
  when_days-OnlyValidation (clock h m) v e p = cc
  when_days-OnlyValidation (aware t) v e p = weekday_set-OnlyValidation v e p
  when_days-OnlyValidation (naive w) v e p = weekday_set-OnlyValidation v e p

  -- Within the model of Schedules/Zones, evaluating a schedule gives an answer or raises
  -- ValidationError, which lets `rule_active` take every error for that one.
  pub active-OnlyValidation :
      (schedule : Text) (when : When) (timezone weekdays : Text) (e : Error)
      → active zones schedule when timezone weekdays ≡ err e
      → e ≡ validation_error
  unfolding active
  active-OnlyValidation schedule when timezone weekdays e h =
      elim (>>=-eq-err (zone zones timezone) _ h) [
        | inl p ↦ zone-OnlyValidation timezone e p
        | inr (tz, _, h₁) ↦ elim (>>=-eq-err (when_days zones when weekdays) _ h₁) [
          | inl p ↦ when_days-OnlyValidation when weekdays e p
          | inr (days, _, h₂) ↦ elim (>>=-eq-err (windows schedule) _ h₂) [
            | inl p ↦ windows-OnlyValidation schedule e p
            | inr (ws, _, h₃) ↦ cc
          ]
        ]
      ]
