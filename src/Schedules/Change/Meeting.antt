-- ===== src/Schedules/Change/Meeting.antt =====
-- `overlaps`: the masks of two timetables share a bit exactly where both are active.
use net_father.Prelude.{
  ℕ, zero, suc, ◌+◌, ◌*◌, ◌<◌, ◌≡◌, ◌↔◌, ◌⊎◌, refl, sym, ap, ◌∙◌, subst₂, Bool, true, ◌&&◌, ◌||◌,
  List, [], ◌∷◌, ok, >>=-eq-ok, ok_injective, Bool-cases, inl, inr, arith,
}
use net_father.Schedules.Zones.{Zones}
use net_father.Schedules.Active.AllDay.{active-total}
use net_father.Schedules.Change.{
  Timetable, active_at, mask_from, week_mask, meet, overlaps, day_start, minute_span, eight_days,
}

module _ {Zone : Type 0} (zones : Zones Zone) (l r : Timetable) where
  -- Both timetables are active in one of `n` minutes from an instant on.
  abbrev pub Together : ℕ → ℕ → Type 0
  Together n at =
      (k : ℕ) × (k < n)
      × (active_at zones l (at + k * minute_span) ≡ ok true)
      × (active_at zones r (at + k * minute_span) ≡ ok true)

  Together-suc : (n at : ℕ) → Together n (at + minute_span) → Together (suc n) at
  Together-suc n at (k, lt, a, b) =
      let e : at + minute_span + k * minute_span ≡ at + suc k * minute_span = omega arith in
      (suc k, omega arith, rw (← e) a, rw (← e) b)

  Together-pred :
      (n at : ℕ)
      → Together (suc n) at
      → ((active_at zones l at ≡ ok true) × (active_at zones r at ≡ ok true))
        ⊎ Together n (at + minute_span)
  Together-pred n at (zero, lt, a, b) =
      let e : at + zero * minute_span ≡ at = omega arith in inl (rw e at a, rw e at b)
  Together-pred n at (suc k, lt, a, b) =
      let e : at + suc k * minute_span ≡ at + minute_span + k * minute_span = omega arith in
      inr (k, omega arith, rw e at a, rw e at b)

  split_bits :
      (n at : ℕ) (a b : Bool) (bits bits' : List Bool)
      → active_at zones l at ≡ ok a
      → active_at zones r at ≡ ok b
      → (meet bits bits' ≡ true) ↔ Together n (at + minute_span)
      → ((a && b || meet bits bits') ≡ true) ↔ Together (suc n) at
  split_bits n at a b bits bits' ea eb ih = (to, from)
    where
      now :
          (x : Bool) (t : Timetable)
          → active_at zones t at ≡ ok x
          → x ≡ true
          → active_at zones t (at + 0 * minute_span) ≡ ok true
      now x t e h = let z : at + 0 * minute_span ≡ at = omega arith in rw z (e ∙ ap ok h)

      to : (a && b || meet bits bits') ≡ true → Together (suc n) at
      to h = elim (Bool-cases (a && b)) [
        | inl both ↦ (0, omega arith, now a l ea (ground arith), now b r eb (ground arith))
        | inr other ↦ Together-suc n at (ih.0 (ground arith))
      ]

      from : Together (suc n) at → (a && b || meet bits bits') ≡ true
      from t = elim (Together-pred n at t) [
        | inl (x, y) ↦
            let p : a ≡ true = ok_injective (sym ea ∙ x) in
            let q : b ≡ true = ok_injective (sym eb ∙ y) in ground arith
        | inr later ↦ let m = ih.1 later in ground arith
      ]

  meet-Together :
      (n at : ℕ) (ls rs : List Bool)
      → mask_from zones l n at ≡ ok ls
      → mask_from zones r n at ≡ ok rs
      → (meet ls rs ≡ true) ↔ Together n at
  unfolding mask_from meet
  meet-Together zero at ls rs e f =
      let e' : ls ≡ [] = sym (ok_injective e) in
      rw e' ((λ h. cc), (λ (k, lt, a, b). absurd (omega arith)))
  meet-Together (suc n) at ls rs e f =
      let (a, ea, e₁) = >>=-eq-ok (active_at zones l at) _ e in
      let (as', es, e₂) = >>=-eq-ok (mask_from zones l n (at + minute_span)) _ e₁ in
      let (b, eb, f₁) = >>=-eq-ok (active_at zones r at) _ f in
      let (bs', fs, f₂) = >>=-eq-ok (mask_from zones r n (at + minute_span)) _ f₁ in
      subst₂ (λ x y. (meet x y ≡ true) ↔ Together (suc n) at) (ok_injective e₂) (ok_injective f₂)
        (split_bits n at a b as' bs' ea eb (meet-Together n (at + minute_span) as' bs' es fs))

  -- A mask can be built wherever the timetable can be read at one instant.
  mask_from-total :
      (t : Timetable) (at : ℕ) {b : Bool}
      → active_at zones t at ≡ ok b
      → (n from : ℕ) → (bits : List Bool) × (mask_from zones t n from ≡ ok bits)
  unfolding mask_from
  mask_from-total t at h zero from = ([], refl)
  mask_from-total t at h (suc n) from =
      let (bit, e) = active-total zones t.schedule t.timezone t.weekdays at from h in
      let (bits, f) = mask_from-total t at h n (from + minute_span) in (bit ∷ bits, rw (e, f) refl)

  -- Where both timetables can be read, `overlaps` returns, and it answers true exactly if some
  -- minute of the eight days from the start of the day is one in which both are active.
  pub overlaps-Together :
      (when : ℕ) {a b : Bool}
      → active_at zones l (day_start when) ≡ ok a
      → active_at zones r (day_start when) ≡ ok b
      → (c : Bool) × (overlaps zones l r when ≡ ok c)
        × ((c ≡ true) ↔ Together eight_days (day_start when))
  unfolding overlaps week_mask
  overlaps-Together when h k =
      let (ls, e) = mask_from-total l (day_start when) h eight_days (day_start when) in
      let (rs, f) = mask_from-total r (day_start when) k eight_days (day_start when) in
      (meet ls rs, rw (e, f) refl, meet-Together eight_days (day_start when) ls rs e f)
