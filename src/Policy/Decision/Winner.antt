-- ===== src/Policy/Decision/Winner.antt =====
-- Which rule wins within an action: the first by priority, then by class, then by id.
use net_father.Prelude.{
  ℕ, ◌<◌, ◌≤◌, All, ◌≡◌, refl, sym, ap, ◌∙◌, true, false, ◌&&◌, none, some, List, [], ◌∷◌, ◌++◌,
  any, find, find-In, In, is_some, find-test, find-none, any-perm, ◌⊎◌, text_eq_instance, Text,
  Bool-cases, Option-cases, inl, inr, arith,
}
use net_father.Prelude.Sorting.{sort, sort-perm, sort-IsSorted, In-sort, find-first}
use net_father.Prelude.Strings.{codes}
use net_father.Prelude.Int.{ℤ_ext, ltb_ℤ}
use net_father.Models.Policies.{of_device, of_group, rule_id, rule_fields, AnyRule, Mode}
use net_father.Schedules.Zones.{Zones}
use net_father.Schedules.Active.{When}
use net_father.Policy.Decision.{
  rule_key, rule_before, has_mode, has_action, is_active, enabled_rules, sorted_rules, verdict,
  decision,
}
use net_father.Policy.Decision.Precedence.{active_action, any-enabled_rules, found_action}

rule_before_irrefl : (a : AnyRule) → rule_before a a ≡ false
unfolding rule_before
rule_before_irrefl a = ground arith

pub rule_before-asym : (a b : AnyRule) → rule_before a b ≡ true → rule_before b a ≡ false
unfolding rule_before
rule_before-asym a b h = ground arith

pub rule_before-skip :
    (a b c : AnyRule) → rule_before c b ≡ false → rule_before b a ≡ false → rule_before c a ≡ false
unfolding rule_before
rule_before-skip a b c h k = ground arith

-- The place of a rule's class: device rules stand before group rules.
abbrev pub class_rank : AnyRule → ℕ
class_rank (of_device r) = 0
class_rank (of_group r) = 1

-- `w` is at least as good as `r`: a higher priority, or the same one and an earlier class, or the
-- same class too and no higher id.
abbrev pub Ranks : AnyRule → AnyRule → Type 0
Ranks w r =
    (ltb_ℤ (rule_fields r).priority (rule_fields w).priority ≡ true)
    ⊎ (((rule_fields w).priority ≡ (rule_fields r).priority)
        × ((class_rank w < class_rank r)
            ⊎ ((class_rank w ≡ class_rank r) × (rule_id w ≤ rule_id r))))

rule_before-Ranks : (w r : AnyRule) → rule_before r w ≡ false → Ranks w r
unfolding rule_before
rule_before-Ranks w r h =
    let p = (rule_fields w).priority in
    let q = (rule_fields r).priority in
    elim (Bool-cases (ltb_ℤ q p)) [
      | inl higher ↦ inl higher
      | inr same ↦ inr (ground (arith, ℤ_ext p q))
    ]

module _ {Zone : Type 0} (zones : Zones Zone) (when : When) where
  pub In-enabled_rules :
      (a : AnyRule) (rules : List AnyRule)
      → In a (enabled_rules zones when rules)
      → In a rules × (is_active zones when a ≡ true)
  unfolding enabled_rules
  In-enabled_rules a [] m = absurd m
  In-enabled_rules a (r ∷ rs) m = elim (Bool-cases (is_active zones when r)) [
    | inl e ↦
        let m' : (r ≡ a) ⊎ In a (enabled_rules zones when rs) = rw e at m in
        elim m' [
          | inl h ↦ (inl h, rw (← h) e)
          | inr t ↦ let (i, j) = In-enabled_rules a rs t in (inr i, j)
        ]
    | inr e ↦
        let m' : In a (enabled_rules zones when rs) = rw e at m in
        let (i, j) = In-enabled_rules a rs m' in (inr i, j)
  ]

  -- A rule that is not active or has another action does not compete.
  abbrev pub Beats : Text → AnyRule → AnyRule → Type 0
  Beats action w r = ((is_active zones when r && has_action action r) ≡ false) ⊎ Ranks w r

  -- `w` is an active rule of the action, and it ranks with every such rule or before it.
  abbrev pub IsWinner : Text → List AnyRule → AnyRule → Type 0
  IsWinner action rules w =
      In w rules
      × (is_active zones when w ≡ true)
      × (has_action action w ≡ true)
      × All (Beats action w) rules

  any-Beats :
      (action : Text) (w : AnyRule) (rules : List AnyRule)
      → any (λ r. is_active zones when r && (has_action action r && rule_before r w)) rules ≡ false
      → All (Beats action w) rules
  unfolding any
  any-Beats action w [] h = tt
  any-Beats action w (r ∷ rs) h = (
    elim (Bool-cases (rule_before r w)) [
      | inl before ↦ inl (let h' = rw before at h in ground arith)
      | inr after ↦ inr (rule_before-Ranks w r after)
    ],
    any-Beats action w rs (ground arith),
  )

  find-IsWinner :
      (action : Text) (rules : List AnyRule) (w : AnyRule)
      → find (has_action action) (sorted_rules zones when rules) ≡ some w
      → IsWinner action rules w
  find-IsWinner action rules w h =
      let enabled = enabled_rules zones when rules in
      let (listed, active) = In-enabled_rules w rules (
        In-sort rule_before w enabled (find-In (has_action action) (sort rule_before enabled) h)) in
      (
        listed,
        active,
        find-test (has_action action) (sort rule_before enabled) h,
        any-Beats action w rules (
            sym (any-enabled_rules zones when (λ r. has_action action r && rule_before r w) rules)
            ∙ sym (
                any-perm (λ r. has_action action r && rule_before r w)
                  (sort-perm rule_before enabled))
            ∙ find-first rule_before rule_before_irrefl (has_action action)
                (sort rule_before enabled) w
                (sort-IsSorted rule_before rule_before-asym rule_before-skip enabled) h),
      )

  -- With no blocked profile and some active block rule, access is denied, and the reason names the
  -- active block rule that no other active block rule precedes: the one of highest priority, a
  -- device rule before a group rule at equal priority, and the lower id within a class.
  pub block-IsWinner :
      (profiles : List Mode) (rules : List AnyRule)
      → any (has_mode (codes "blocked")) profiles ≡ false
      → active_action zones when (codes "block") rules ≡ true
      → (w : AnyRule) × IsWinner (codes "block") rules w
        × ((decision zones profiles rules when).allowed ≡ false)
        × ((decision zones profiles rules when).reason ≡ rule_key w ++ codes "=block")
  unfolding decision verdict
  block-IsWinner profiles rules none_blocked some_block =
      elim (Option-cases (find (has_action (codes "block")) (sorted_rules zones when rules))) [
        | inl absent ↦ absurd (not_found absent)
        | inr (w, found) ↦ (
          w,
          find-IsWinner (codes "block") rules w found,
          rw (find-none _ profiles none_blocked, found) refl,
          rw (find-none _ profiles none_blocked, found) refl,
        )
      ]
    where
      not_found : find (has_action (codes "block")) (sorted_rules zones when rules) ≡ none → ⊥
      not_found absent = cc (found_action zones when (codes "block") rules, ap is_some absent)
