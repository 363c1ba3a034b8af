-- ===== src/Schedules/Change/First.antt =====
-- `next_change` finds the first minute at which a timetable changes.
use net_father.Prelude.{
  ℕ, zero, suc, ◌+◌, ◌*◌, ◌<◌, ◌≤◌, ◌≡◌, refl, sym, ap, ◌∙◌, subst, Bool, true, false, not, ◌&&◌,
  Option, none, some, List, any, eqb, ◌==◌, eq_iff, text_eq_instance, ok, >>=-eq-ok, Bool-cases,
  ok_injective, inl, inr, arith,
}
use net_father.Prelude.Strings.{codes}
use net_father.Schedules.Window.{windows}
use net_father.Schedules.Zones.{Zones}
use net_father.Schedules.Active.AllDay.{active-all_day, active-total, active-windows}
use net_father.Schedules.Change.{
  Timetable, active_at, seek, find_change, next_change, differs, whole_minute, minute_span,
  eight_days,
}

module _ {Zone : Type 0} (zones : Zones Zone) (r : Timetable) where
  abbrev pub nth_minute : ℕ → ℕ → ℕ
  nth_minute minute k = minute + k * minute_span

  -- The timetable keeps one state over `n` minutes from the given offset on.
  pub Steady : ℕ → ℕ → ℕ → Bool → Type 0
  Steady zero offset minute b = Unit
  Steady (suc n) offset minute b =
      (active_at zones r (nth_minute minute offset) ≡ ok b) × Steady n (offset + 1) minute b

  -- What a search returns.
  abbrev pub Found : ℕ → ℕ → ℕ → Bool → ℕ → Type 0
  Found left offset minute b c =
      (k : ℕ) × (k < left)
      × (c ≡ nth_minute minute (offset + k))
      × (active_at zones r c ≡ ok (not b))
      × Steady k offset minute b

  here :
      (left offset minute : ℕ) (b now : Bool) {c : ℕ}
      → active_at zones r (nth_minute minute offset) ≡ ok now
      → differs now b ≡ true
      → c ≡ nth_minute minute offset
      → Found (suc left) offset minute b c
  unfolding Steady
  here left offset minute b now e d f = (
    0,
    omega arith,
    f ∙ ap (nth_minute minute) (omega arith),
    subst (λ m. active_at zones r m ≡ ok (not b)) (sym f) (e ∙ ap ok (ground arith)),
    tt,
  )

  later :
      (left offset minute : ℕ) (b now : Bool) {c : ℕ}
      → active_at zones r (nth_minute minute offset) ≡ ok now
      → differs now b ≡ false
      → Found left (offset + 1) minute b c
      → Found (suc left) offset minute b c
  unfolding Steady
  later left offset minute b now e d (k, lt, at, change, steady) = (
    suc k,
    omega arith,
    at ∙ ap (nth_minute minute) (omega arith),
    change,
    (e ∙ ap ok (ground arith), steady),
  )

  seek-some :
      (left offset minute : ℕ) (b : Bool) {c : ℕ}
      → seek zones r left offset minute b ≡ ok (some c)
      → Found left offset minute b c
  unfolding seek
  seek-some zero offset minute b h = cc
  seek-some (suc left) offset minute b {c} h =
      let (now, e, h') = >>=-eq-ok (active_at zones r (nth_minute minute offset)) _ h in
      elim (Bool-cases (differs now b)) [
        | inl d ↦ here left offset minute b now e d (ground arith)
        | inr d ↦
            later left offset minute b now e d (seek-some left (offset + 1) minute b (rw d at h'))
      ]

  seek-none :
      (left offset minute : ℕ) (b : Bool)
      → seek zones r left offset minute b ≡ ok none
      → Steady left offset minute b
  unfolding seek Steady
  seek-none zero offset minute b h = tt
  seek-none (suc left) offset minute b h =
      let (now, e, h') = >>=-eq-ok (active_at zones r (nth_minute minute offset)) _ h in
      elim (Bool-cases (differs now b)) [
        | inl d ↦ absurd (ground arith)
        | inr d ↦ (e ∙ ap ok (ground arith), seek-none left (offset + 1) minute b (rw d at h'))
      ]

  constant-Steady :
      (n offset minute : ℕ) (b : Bool)
      → ((t : ℕ) → active_at zones r t ≡ ok b)
      → Steady n offset minute b
  unfolding Steady
  constant-Steady zero offset minute b h = tt
  constant-Steady (suc n) offset minute b h =
      (h (nth_minute minute offset), constant-Steady n (offset + 1) minute b h)

  -- The search answers wherever `active` does.
  seek-total :
      (left offset minute : ℕ) (b : Bool)
      → ((t : ℕ) → (now : Bool) × (active_at zones r t ≡ ok now))
      → (result : Option ℕ) × (seek zones r left offset minute b ≡ ok result)
  unfolding seek
  seek-total zero offset minute b h = (none, refl)
  seek-total (suc left) offset minute b h =
      let (now, e) = h (nth_minute minute offset) in
      elim (Bool-cases (differs now b)) [
        | inl d ↦ (some (nth_minute minute offset), rw (e, d) refl)
        | inr d ↦ let (result, f) = seek-total left (offset + 1) minute b h in (result, rw (e, d) f)
      ]

  -- What the search for the next change promises, from a whole minute on.
  pub ChangeSpec : ℕ → Bool → Option ℕ → Type 0
  ChangeSpec minute b none = Steady eight_days 1 minute b
  ChangeSpec minute b (some c) = Found eight_days 1 minute b c

  seek-ChangeSpec :
      (minute : ℕ) (b : Bool) (result : Option ℕ)
      → seek zones r eight_days 1 minute b ≡ ok result
      → ChangeSpec minute b result
  unfolding ChangeSpec
  seek-ChangeSpec minute b none h = seek-none eight_days 1 minute b h
  seek-ChangeSpec minute b (some c) h = seek-some eight_days 1 minute b h

  abbrev fast_path : List (ℕ × ℕ) → Bool
  fast_path ws = r.weekdays == codes "0,1,2,3,4,5,6" && any (λ w. eqb w.0 w.1) ws

  fast-ChangeSpec :
      (minute : ℕ) (b : Bool) (ws : List (ℕ × ℕ))
      → active_at zones r minute ≡ ok b
      → windows r.schedule ≡ ok ws
      → fast_path ws ≡ true
      → ChangeSpec minute b none
  unfolding ChangeSpec
  fast-ChangeSpec minute b ws now e fast =
      constant-Steady eight_days 1 minute b (λ t. on t ∙ sym (on minute) ∙ now)
    where
      every : r.weekdays ≡ codes "0,1,2,3,4,5,6"
      every = (eq_iff r.weekdays (codes "0,1,2,3,4,5,6")).0 (ground arith)

      on : (t : ℕ) → active_at zones r t ≡ ok true
      on t =
          active-all_day zones r.schedule r.timezone r.weekdays minute t every e (ground arith) now

  -- From a minute at which the schedule can be read, the search returns: either the first of the
  -- following minutes of eight days at which the timetable changes its state, or nothing, and then
  -- the state stays the same over all of them.
  pub next_change-ChangeSpec :
      (when : ℕ) {b : Bool}
      → active_at zones r (whole_minute when) ≡ ok b
      → (result : Option ℕ) × (next_change zones r true when ≡ ok result)
        × ChangeSpec (whole_minute when) b result
  unfolding next_change find_change
  next_change-ChangeSpec when {b} now =
      let minute = whole_minute when in
      let (ws, e) = active-windows zones r.schedule r.timezone r.weekdays minute now in
      elim (Bool-cases (fast_path ws)) [
        | inl fast ↦ (none, rw (now, e, fast) refl, fast-ChangeSpec minute b ws now e fast)
        | inr slow ↦
            let (result, f) =
              seek-total eight_days 1 minute b
                (λ t. active-total zones r.schedule r.timezone r.weekdays minute t now) in
            (result, rw (now, e, slow) f, seek-ChangeSpec minute b result f)
      ]

  Found-later :
      (left minute : ℕ) (b : Bool) (c : ℕ) → Found left 1 minute b c → minute + minute_span ≤ c
  Found-later left minute b c (k, lt, at, change, steady) = omega arith

  -- A change lies after the instant from which it is searched.
  pub next_change-later :
      (enabled : Bool) (when c : ℕ) → next_change zones r enabled when ≡ ok (some c) → when < c
  unfolding next_change find_change
  next_change-later false when c h = cc
  next_change-later true when c h =
      let minute = whole_minute when in
      let (b, now, h₁) = >>=-eq-ok (active_at zones r minute) _ h in
      let (ws, e, h₂) = >>=-eq-ok (windows r.schedule) _ h₁ in
      elim (Bool-cases (fast_path ws)) [
        | inl fast ↦ absurd (no_change (ok_injective (rw fast at h₂)))
        | inr slow ↦
            let found = seek-some eight_days 1 minute b (rw slow at h₂) in
            let later = Found-later eight_days minute b c found in omega arith
      ]
    where
      no_change : none ≡ some c → ⊥
      no_change e = cc
