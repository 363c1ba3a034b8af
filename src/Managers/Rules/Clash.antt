-- ===== src/Managers/Rules/Clash.antt =====
-- When the inner loops of `conflicts` warn about two rules.
use net_father.Prelude.{
  ℕ, ◌≡◌, refl, sym, ap, ◌∙◌, subst, ◌↔◌, ◌⊎◌, Bool, true, false, eq_iff, text_eq_instance, List,
  [], ◌∷◌, ◌++◌, All, In, In-append_left, In-append_right, Bool-cases, inl, inr, ok, Text, arith,
}
use net_father.Models.Policies.{rule_fields}
use net_father.Schedules.Zones.{Zones}
use net_father.Schedules.Active.{aware}
use net_father.Schedules.Change.{overlaps, eight_days, day_start}
use net_father.Schedules.Change.Meeting.{Together, overlaps-Together}
use net_father.Managers.RuleFields.Valid.{IsValid, IsValid-active}
use net_father.Managers.Rules.Queries.{
  Listed, item_timetable, overlap_text, opposed, warning, warnings_of, warnings,
}

-- `l` stands before `r` in the list.
abbrev pub Precedes : {A : Type 0} → A → A → List A → Type 0
Precedes l r [] = ⊥
Precedes l r (x ∷ xs) = ((x ≡ l) × In r xs) ⊎ Precedes l r xs

-- A listed rule with valid columns.
abbrev pub ValidItem : {Zone : Type 0} → Zones Zone → Listed → Type 0
ValidItem zones l = IsValid zones (rule_fields l.rule)

module _ {Zone : Type 0} (zones : Zones Zone) (now : ℕ) where
  -- Two rules of the same scope with different actions that are active in a common minute of the
  -- eight days from the start of the day.
  pub record Clash (l r : Listed) : Type 0 where
    pub scope : l.scope_label ≡ r.scope_label
    pub actions : (rule_fields l.rule).action ≡ (rule_fields r.rule).action → ⊥
    pub minute : Together zones (item_timetable l) (item_timetable r) eight_days (day_start now)

  overlaps-Clash :
      (l r : Listed)
      → ValidItem zones l
      → ValidItem zones r
      → (c : Bool) × (overlaps zones (item_timetable l) (item_timetable r) now ≡ ok c)
        × ((c ≡ true)
            ↔ Together zones (item_timetable l) (item_timetable r) eight_days (day_start now))
  overlaps-Clash l r v w =
      let (a, e) = IsValid-active zones (rule_fields l.rule) (aware (day_start now)) v in
      let (b, f) = IsValid-active zones (rule_fields r.rule) (aware (day_start now)) w in
      overlaps-Together zones (item_timetable l) (item_timetable r) now e f

  opposed_iff :
      (l r : Listed)
      → (opposed l r ≡ true) ↔ (
          (l.scope_label ≡ r.scope_label)
          × ((rule_fields l.rule).action ≡ (rule_fields r.rule).action → ⊥))
  unfolding opposed
  opposed_iff l r = ground (
    arith,
    eq_iff l.scope_label r.scope_label,
    eq_iff (rule_fields l.rule).action (rule_fields r.rule).action,
  )

  -- The warnings about `left` and one of the rules.
  abbrev Reports : Listed → List Listed → Text → Type 0
  Reports left others t = (r : Listed) × In r others × Clash left r × (t ≡ overlap_text left r)

  -- The body of the inner loop adds the warning of a clash, and nothing otherwise.
  pair-Clash :
      (left right : Listed)
      → ValidItem zones left
      → ValidItem zones right
      → ((opposed left right ≡ true)
          × (warning left right (overlaps zones (item_timetable left) (item_timetable right) now)
              ≡ ok (overlap_text left right ∷ []))
          × Clash left right)
        ⊎ ((opposed left right ≡ true)
            × (warning left right (overlaps zones (item_timetable left) (item_timetable right) now)
                ≡ ok [])
            × (Clash left right → ⊥))
        ⊎ ((opposed left right ≡ false) × (Clash left right → ⊥))
  unfolding warning
  pair-Clash left right v w = elim (Bool-cases (opposed left right)) [
    | inr e ↦ inr (inr (e, λ c. let h = (opposed_iff left right).1 (c.scope, c.actions) in cc))
    | inl e ↦
        let (c, f, m) = overlaps-Clash left right v w in
        let (s, a) = (opposed_iff left right).0 e in
        elim (Bool-cases c) [
          | inl t ↦ inl (e, rw (f, t) refl, record { scope = s; actions = a; minute = m.0 t })
          | inr t ↦ inr (inl (e, rw (f, t) refl, (λ d. let h = m.1 d.minute in cc)))
        ]
  ]

  warnings_of-Reports :
      (left : Listed) (others : List Listed)
      → ValidItem zones left
      → All (ValidItem zones) others
      → (ws : List Text) × (warnings_of zones now left others ≡ ok ws)
        × ((t : Text) → In t ws ↔ Reports left others t)
  unfolding warnings_of
  warnings_of-Reports left [] v vs =
      ([], refl, (λ t. ((λ m. absurd m), (λ (r, m, c, e). absurd m))))
  warnings_of-Reports left (right ∷ others) v vs =
      let (ws, e, x) = warnings_of-Reports left others v vs.1 in
      elim (pair-Clash left right v vs.0) [
        | inl (o, f, c) ↦ (
          overlap_text left right ∷ ws,
          rw (o, f, e) refl,
          λ t. (
            (λ m. elim m [
              | inl h ↦ (right, inl refl, c, sym h)
              | inr n ↦ let (r, i, d, q) = (x t).0 n in (r, inr i, d, q)
            ]),
            (λ (r, i, d, q). elim i [
              | inl h ↦ inl (ap (overlap_text left) h ∙ sym q)
              | inr j ↦ inr ((x t).1 (r, j, d, q))
            ]),
          ),
        )
        | inr (inl (o, f, c)) ↦ (ws, rw (o, f, e) refl, skip ws x c)
        | inr (inr (o, c)) ↦ (ws, rw (o, e) refl, skip ws x c)
      ]
    where
      skip :
          (ws : List Text)
          → ((t : Text) → In t ws ↔ Reports left others t)
          → (Clash left right → ⊥)
          → (t : Text) → In t ws ↔ Reports left (right ∷ others) t
      skip ws x c t = (
        (λ m. let (r, i, d, q) = (x t).0 m in (r, inr i, d, q)),
        (λ (r, i, d, q). elim i [
          | inl h ↦ absurd (c (subst (Clash left) (sym h) d))
          | inr j ↦ (x t).1 (r, j, d, q)
        ]),
      )

  -- The warning of some pair of the list that clashes.
  abbrev pub IsWarned : List Listed → Text → Type 0
  IsWarned rules t =
      (l : Listed) × (r : Listed) × Precedes l r rules × Clash l r × (t ≡ overlap_text l r)

  In-append : (t : Text) (xs ys : List Text) → In t (xs ++ ys) → In t xs ⊎ In t ys
  In-append t [] ys m = inr m
  In-append t (x ∷ xs) ys (inl e) = inl (inl e)
  In-append t (x ∷ xs) ys (inr m) = elim (In-append t xs ys m) [
    | inl n ↦ inl (inr n)
    | inr n ↦ inr n
  ]

  pub warnings-IsWarned :
      (rules : List Listed)
      → All (ValidItem zones) rules
      → (ws : List Text) × (warnings zones now rules ≡ ok ws)
        × ((t : Text) → In t ws ↔ IsWarned rules t)
  unfolding warnings
  warnings-IsWarned [] v = ([], refl, (λ t. ((λ m. absurd m), (λ (l, r, p, c, e). absurd p))))
  warnings-IsWarned (left ∷ others) v =
      let (ws, e, x) = warnings_of-Reports left others v.0 v.1 in
      let (us, f, y) = warnings-IsWarned others v.1 in
      (
        ws ++ us,
        rw (e, f) refl,
        λ t. (
          (λ m. elim (In-append t ws us m) [
            | inl n ↦ let (r, i, c, q) = (x t).0 n in (left, r, inl (refl, i), c, q)
            | inr n ↦ let (l, r, p, c, q) = (y t).0 n in (l, r, inr p, c, q)
          ]),
          (λ (l, r, p, c, q). elim p [
            | inl (h, i) ↦ In-append_left t ws us (
                (x t).1
                  (r, i, subst (λ z. Clash z r) (sym h) c, q ∙ ap (λ z. overlap_text z r) (sym h)))
            | inr n ↦ In-append_right t ws us ((y t).1 (l, r, n, c, q))
          ]),
        ),
      )
