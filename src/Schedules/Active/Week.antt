-- ===== src/Schedules/Active/Week.antt =====
-- A window as a stretch of the weekly cycle of 10080 minutes.
use net_father.Prelude.{
  ℕ, ◌+◌, ◌-◌, ◌*◌, ◌%◌, ◌<◌, ◌≤◌, ◌⊎◌, ◌≡◌, ◌↔◌, true, List, [], ◌∷◌, In, contains_iff, nat_eq,
  arith, All, inl, inr,
}
use net_father.Schedules.Zones.{WallTime}
use net_father.Schedules.Active.{in_window}

-- The minutes from its start to its end, past midnight if the end is before the start. Equal ends
-- give no stretch.
abbrev pub window_length : ℕ × ℕ → ℕ
window_length (s, e) = (e + 1440 - s) % 1440

-- The minute of the week lies within the stretch that starts at the window's start on `day`.
abbrev pub Covers : ℕ × ℕ → WallTime → ℕ → Type 0
Covers w now day =
    (now.day * 1440 + now.minute + 10080 - (day * 1440 + w.0)) % 10080 < window_length w

Covers-same_day :
    (s e m t : ℕ) (d : ℕ)
    → s < 1440
    → e < 1440
    → m < 1440
    → d < 7
    → t < 7
    → Covers (s, e) (record { day = t; minute = m }) d
    → ((((s < e) × (s ≤ m) × (m < e)) ⊎ ((e < s) × (s ≤ m))) × (t ≡ d))
      ⊎ ((e < s) × (m < e) × ((t + 6) % 7 ≡ d))
Covers-same_day s e m t d hs he hm hd ht h = ground arith

Covers-of_day :
    (s e m t : ℕ)
    → s < 1440
    → e < 1440
    → m < 1440
    → t < 7
    → ((s < e) × (s ≤ m) × (m < e)) ⊎ ((e < s) × (s ≤ m))
    → Covers (s, e) (record { day = t; minute = m }) t
Covers-of_day s e m t hs he hm ht h = ground arith

Covers-overnight :
    (s e m t : ℕ)
    → s < 1440
    → e < 1440
    → m < 1440
    → t < 7
    → e < s
    → m < e
    → Covers (s, e) (record { day = t; minute = m }) ((t + 6) % 7)
Covers-overnight s e m t hs he hm ht h k = ground arith

In-bound : (d : ℕ) (days : List ℕ) → All (λ x. x < 7) days → In d days → d < 7
In-bound d [] h m = absurd m
In-bound d (x ∷ xs) h (inl e) = omega (arith, h.0)
In-bound d (x ∷ xs) h (inr m) = In-bound d xs h.1 m

module _ (now : WallTime) (days : List ℕ) (s e : ℕ) (hs : s < 1440) (he : e < 1440)
    (hm : now.minute < 1440) (ht : now.day < 7) (hd : All (λ x. x < 7) days) where
  -- The whole calendar day, whatever minute the equal ends name.
  abbrev AllDay : Type 0
  AllDay = (s ≡ e) × In now.day days

  in_window_cases :
      in_window now days (s, e) ≡ true
      → AllDay
        ⊎ ((((s < e) × (s ≤ now.minute) × (now.minute < e)) ⊎ ((e < s) × (s ≤ now.minute)))
            × In now.day days)
        ⊎ ((e < s) × (now.minute < e) × In ((now.day + 6) % 7) days)
  unfolding in_window
  in_window_cases h =
      ground (arith, contains_iff now.day days, contains_iff ((now.day + 6) % 7) days)

  opens : in_window now days (s, e) ≡ true → AllDay ⊎ ((d : ℕ) × In d days × Covers (s, e) now d)
  opens h = elim (in_window_cases h) [
    | inl all_day ↦ inl all_day
    | inr (inl (c, m)) ↦ inr (now.day, m, Covers-of_day s e now.minute now.day hs he hm ht c)
    | inr (inr (k, l, m)) ↦
        inr ((now.day + 6) % 7, m, Covers-overnight s e now.minute now.day hs he hm ht k l)
  ]

  covered : (d : ℕ) → In d days → Covers (s, e) now d → in_window now days (s, e) ≡ true
  unfolding in_window
  covered d m c = ground (
    arith,
    Covers-same_day s e now.minute now.day d hs he hm (In-bound d days hd m) ht c,
    contains_iff now.day days,
    contains_iff ((now.day + 6) % 7) days,
    m,
  )

  all_day : AllDay → in_window now days (s, e) ≡ true
  unfolding in_window
  all_day (equal, m) = ground (arith, contains_iff now.day days, equal, m)

  -- A window within the day is open at a local time exactly in two cases. Its ends are equal and
  -- the calendar day is selected: it then opens at midnight, not at the start that it names. Or the
  -- minute of the week lies in the stretch from its start to its end, over midnight and over the end
  -- of the week too, that starts on a selected day.
  pub in_window-Covers :
      (in_window now days (s, e) ≡ true)
      ↔ (((s ≡ e) × In now.day days) ⊎ ((d : ℕ) × In d days × Covers (s, e) now d))
  in_window-Covers =
      (opens, (λ h. elim h [ inl same ↦ all_day same | inr (d, m, c) ↦ covered d m c ]))
