-- ===== src/Policy/Decision/Precedence.antt =====
-- The precedence of the ladder in `decision`, against a statement that names no order and no
-- search, and what follows from it.
use net_father.Prelude.{
  ◌≡◌, refl, sym, ◌∙◌, Bool, true, false, not, ◌&&◌, ◌||◌, Option, List, [], ◌∷◌, any, find,
  is_some, is_some-find, any-perm, text_eq_instance, Text, arith,
}
use net_father.Prelude.Sorting.{sort-perm}
use net_father.Prelude.Strings.{codes}
use net_father.Models.Policies.{AnyRule, Mode}
use net_father.Schedules.Zones.{Zones}
use net_father.Schedules.Active.{When}
use net_father.Policy.Decision.{
  rule_before, has_mode, has_action, is_active, enabled_rules, sorted_rules, verdict, decision,
}

verdict_allowed :
    (blocked : Option Mode) (block : Option AnyRule) (controlled : Option Mode)
    (allow : Option AnyRule)
    → (verdict blocked block controlled allow).0 ≡ (
        not (is_some blocked) && not (is_some block) && (not (is_some controlled) || is_some allow))
unfolding verdict
verdict_allowed blocked block controlled allow = ground arith

module _ {Zone : Type 0} (zones : Zones Zone) (when : When) where
  -- Some rule of this action is enabled and in one of its windows.
  abbrev pub active_action : Text → List AnyRule → Bool
  active_action action rules =
      any (λ rule. is_active zones when rule && has_action action rule) rules

  pub any-enabled_rules :
      (p : AnyRule → Bool) (rules : List AnyRule)
      → any p (enabled_rules zones when rules)
        ≡ any (λ rule. is_active zones when rule && p rule) rules
  unfolding any enabled_rules
  any-enabled_rules p [] = refl
  any-enabled_rules p (rule ∷ rules) = ground (arith, any-enabled_rules p rules)

  pub found_action :
      (action : Text) (rules : List AnyRule)
      → is_some (find (has_action action) (sorted_rules zones when rules))
        ≡ active_action action rules
  found_action action rules =
      is_some-find (has_action action) (sorted_rules zones when rules)
      ∙ any-perm (has_action action) (sort-perm rule_before (enabled_rules zones when rules))
      ∙ any-enabled_rules (has_action action) rules

  -- A condition on the profiles and the active rules that names no order and no search.
  abbrev pub permits : List Mode → List AnyRule → Bool
  permits profiles rules =
      not (any (has_mode (codes "blocked")) profiles)
      && not (active_action (codes "block") rules)
      && (not (any (has_mode (codes "controlled")) profiles) || active_action (codes "allow") rules)

  -- A decision allows access exactly if no profile is blocked, no active rule blocks, and some active
  -- rule allows wherever a profile is controlled.
  pub decision-permits :
      (profiles : List Mode) (rules : List AnyRule)
      → (decision zones profiles rules when).allowed ≡ permits profiles rules
  unfolding decision
  decision-permits profiles rules =
      verdict_allowed _ _ _ _
      ∙ rw
          (
            is_some-find (has_mode (codes "blocked")) profiles,
            is_some-find (has_mode (codes "controlled")) profiles,
            found_action (codes "block") rules,
            found_action (codes "allow") rules,
          )
          refl

  permits-block :
      (profiles : List Mode) (rule : AnyRule) (rules : List AnyRule)
      → has_action (codes "allow") rule ≡ false
      → permits profiles (rule ∷ rules) ≡ true
      → permits profiles rules ≡ true
  unfolding any
  permits-block profiles rule rules a h = ground arith

  -- One more rule that is not an allow rule, whatever its schedule and priority, never turns a
  -- denied device into an allowed one.
  pub decision_more_restrictive :
      (profiles : List Mode) (rule : AnyRule) (rules : List AnyRule)
      → has_action (codes "allow") rule ≡ false
      → (decision zones profiles (rule ∷ rules) when).allowed ≡ true
      → (decision zones profiles rules when).allowed ≡ true
  decision_more_restrictive profiles rule rules a h =
      decision-permits profiles rules
      ∙ permits-block profiles rule rules a (sym (decision-permits profiles (rule ∷ rules)) ∙ h)
