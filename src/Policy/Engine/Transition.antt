-- ===== src/Policy/Engine/Transition.antt =====
-- The transition that `_evaluate` reports.
use net_father.Prelude.{
  ℕ, zero, suc, ◌+◌, ◌<◌, ◌≤◌, ◌≡◌, subst, Bool, true, false, not, none, some, List, [], ◌∷◌, ◌++◌,
  any, All, ltb, leb, Bool-cases, Option-cases, Result-cases, some_injective, inl, inr, arith,
}
use net_father.Prelude.Strings.{codes}
use net_father.Models.Policies.{AnyRule, Mode, rule_fields}
use net_father.Schedules.Zones.{Zones}
use net_father.Schedules.Active.{aware}
use net_father.Schedules.Change.{next_change}
use net_father.Schedules.Change.First.{next_change-later}
use net_father.Policy.Decision.{has_mode, decision}
use net_father.Policy.Engine.{
  timetable, earliest, within, candidates, flips_at, follow, look_ahead, rounds, next_transition,
}

-- After one instant and not after another.
abbrev Between : ℕ → ℕ → ℕ → Type 0
Between lo hi t = (lo < t) × (t ≤ hi)

All-append : (P : ℕ → Type 0) (xs ys : List ℕ) → All P xs → All P ys → All P (xs ++ ys)
All-append P [] ys h k = k
All-append P (x ∷ xs) ys h k = (h.0, All-append P xs ys h.1 k)

All-earliest : (P : ℕ → Type 0) (ts : List ℕ) {t : ℕ} → All P ts → earliest ts ≡ some t → P t
unfolding earliest
All-earliest P [] h e = cc
All-earliest P (x ∷ ts) h e = elim (Option-cases (earliest ts)) [
  | inl n ↦ subst P (some_injective (rw n at e)) h.0
  | inr (u, s) ↦ elim (Bool-cases (ltb u x)) [
    | inl l ↦ subst P (some_injective (rw (s, l) at e)) (All-earliest P ts h.1 s)
    | inr l ↦ subst P (some_injective (rw (s, l) at e)) h.0
  ]
]

module _ {Zone : Type 0} (zones : Zones Zone) where
  within-Between :
      (rule : AnyRule) (cursor limit : ℕ)
      → All
          (Between cursor limit)
          (within limit (next_change zones (timetable rule) (rule_fields rule).enabled cursor))
  within-Between rule cursor limit =
      elim (Result-cases (next_change zones (timetable rule) (rule_fields rule).enabled cursor)) [
        | inr (e, h) ↦ rw h tt
        | inl (none, h) ↦ rw h tt
        | inl (some t, h) ↦ elim (Bool-cases (leb t limit)) [
          | inl l ↦
              rw (h, l)
                (
                  (
                    next_change-later zones (timetable rule) (rule_fields rule).enabled cursor t h,
                    ground arith,
                  ),
                  tt,
                )
          | inr l ↦ rw (h, l) tt
        ]
      ]

  candidates-Between :
      (rules : List AnyRule) (cursor limit : ℕ)
      → All (Between cursor limit) (candidates zones rules cursor limit)
  unfolding candidates
  candidates-Between [] cursor limit = tt
  candidates-Between (rule ∷ rules) cursor limit =
      All-append (Between cursor limit) _ _ (within-Between rule cursor limit)
        (candidates-Between rules cursor limit)

  module _ (profiles : List Mode) (rules : List AnyRule) (allowed : Bool) where
    follow-flips :
        (limit left cursor t : ℕ)
        → follow zones profiles rules allowed limit left cursor ≡ some t
        → Between cursor limit t × (flips_at zones profiles rules allowed limit t ≡ true)
    unfolding follow
    follow-flips limit zero cursor t h = cc
    follow-flips limit (suc left) cursor t h =
        elim (Option-cases (earliest (candidates zones rules cursor limit))) [
          | inl e ↦ absurd (nothing (rw (follow, e) at h))
          | inr (next, e) ↦
              let between =
                All-earliest (Between cursor limit) _ (candidates-Between rules cursor limit) e in
              elim (Bool-cases (flips_at zones profiles rules allowed limit next)) [
                | inl f ↦
                    subst
                      (λ u.
                        Between cursor limit u
                        × (flips_at zones profiles rules allowed limit u ≡ true))
                      (some_injective (rw (follow, e, f) at h)) (between, f)
                | inr f ↦
                    let (later, flips) = follow-flips limit left next t (rw (follow, e, f) at h) in
                    ((omega arith, later.1), flips)
              ]
        ]
      where
        nothing : none ≡ some t → ⊥
        nothing e = cc

    -- A reported transition lies after the moment of the evaluation and at most eight days later,
    -- and at it the decision of the same profiles and rules is the opposite of the reported one.
    -- None is reported where a profile is blocked.
    pub next_transition-flips :
        (when t : ℕ)
        → next_transition zones profiles rules allowed when ≡ some t
        → (any (has_mode (codes "blocked")) profiles ≡ false)
          × (when < t)
          × (t ≤ when + look_ahead)
          × ((decision zones profiles rules (aware t)).allowed ≡ not allowed)
    unfolding next_transition
    next_transition-flips when t h = elim (Bool-cases (any (has_mode (codes "blocked")) profiles)) [
      | inl b ↦ absurd (nothing (rw b at h))
      | inr b ↦
          let (between, flips) = follow-flips (when + look_ahead) rounds when t (rw b at h) in
          (b, between.0, between.1, ground arith)
    ]
      where
        nothing : none ≡ some t → ⊥
        nothing e = cc
