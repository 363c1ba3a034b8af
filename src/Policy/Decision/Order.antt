-- ===== src/Policy/Decision/Order.antt =====
-- A decision does not see the order in which the profiles and the rules are read.
use mathlib.Core.List.{Perm}
use mathlib.Core.List.{Permᴰ}
use mathlib.Core.Logic.{∥∥₁_elim}
use net_father.Prelude.{
  ◌≡◌, refl, sym, ap, ◌∙◌, Bool, true, false, ◌&&◌, List, [], ◌∷◌, In, any-perm, ◌⊎◌, inl, inr, map,
  if◌then◌else◌, text_eq_instance, Text, Bool-cases, arith,
}
use net_father.Prelude.Sorting.Permuted.{sort-permᴰ}
use net_father.Prelude.Strings.{codes}
use net_father.Models.Policies.{AnyRule, Mode, is_group, rule_id}
use net_father.Schedules.Zones.{Zones}
use net_father.Schedules.Active.{When}
use net_father.Policy.Decision.{
  rule_key, rule_before, has_mode, has_action, is_active, enabled_rules, sorted_rules, decision,
}
use net_father.Policy.Decision.Precedence.{decision-permits}
use net_father.Policy.Decision.Winner.{In-enabled_rules, rule_before-asym, rule_before-skip}

-- The ids are the primary keys of the two tables of rules.
abbrev pub Keyed : List AnyRule → Type 0
Keyed rules =
    (a b : AnyRule)
    → In a rules
    → In b rules
    → is_group a ≡ is_group b
    → rule_id a ≡ rule_id b
    → a ≡ b

rule_before_cases :
    (a b : AnyRule)
    → (is_group a ≡ is_group b → rule_id a ≡ rule_id b → a ≡ b)
    → (rule_before a b ≡ true) ⊎ (rule_before b a ≡ true) ⊎ (a ≡ b)
unfolding rule_before
rule_before_cases a b k = elim (Bool-cases (rule_before a b)) [
  | inl h ↦ inl h
  | inr h ↦ elim (Bool-cases (rule_before b a)) [
    | inl h' ↦ inr (inl h')
    | inr h' ↦ inr (inr (k (ground arith) (ground arith)))
  ]
]

text_set : IsSet Text
text_set = hlevel

texts_set : IsSet (List Text)
texts_set = hlevel

permᴰ_refl : (rules : List AnyRule) → Permᴰ rules rules
permᴰ_refl [] = Permᴰ.nil
permᴰ_refl (r ∷ rs) = Permᴰ.cons refl (permᴰ_refl rs)

-- A rule goes in front of the others if it is kept.
abbrev kept : Bool → AnyRule → List AnyRule → List AnyRule
kept b rule rules = if b then rule ∷ rules else rules

swap_kept :
    (p q : Bool) (a b : AnyRule) (rules : List AnyRule)
    → Permᴰ (kept p a (kept q b rules)) (kept q b (kept p a rules))
swap_kept true true a b rules = Permᴰ.swap refl refl
swap_kept true false a b rules = permᴰ_refl (a ∷ rules)
swap_kept false true a b rules = permᴰ_refl (b ∷ rules)
swap_kept false false a b rules = permᴰ_refl rules

module _ {Zone : Type 0} (zones : Zones Zone) (when : When) where
  enabled_rules-permᴰ :
      {rules rules' : List AnyRule}
      → Permᴰ rules rules'
      → Permᴰ (enabled_rules zones when rules) (enabled_rules zones when rules')
  unfolding enabled_rules
  enabled_rules-permᴰ Permᴰ.nil = Permᴰ.nil
  enabled_rules-permᴰ (Permᴰ.cons {a = a} e d) =
      rw (← e) (elim (Bool-cases (is_active zones when a)) [
        | inl h ↦ rw h (Permᴰ.cons refl (enabled_rules-permᴰ d))
        | inr h ↦ rw h (enabled_rules-permᴰ d)
      ])
  enabled_rules-permᴰ (Permᴰ.swap {a = a} {b = b} {l = l} e f) =
      rw (← e, ← f)
        (swap_kept (is_active zones when a) (is_active zones when b) a b
          (enabled_rules zones when l))
  enabled_rules-permᴰ (Permᴰ.trans d d') =
      Permᴰ.trans (enabled_rules-permᴰ d) (enabled_rules-permᴰ d')

  In-enabled :
      (a : AnyRule) (rules : List AnyRule) → In a (enabled_rules zones when rules) → In a rules
  In-enabled a rules m = (In-enabled_rules zones when a rules m).0

  sorted_rules-permᴰ :
      {rules rules' : List AnyRule}
      → Permᴰ rules rules'
      → Keyed rules
      → sorted_rules zones when rules ≡ sorted_rules zones when rules'
  sorted_rules-permᴰ {rules} d keyed =
      sort-permᴰ rule_before rule_before-asym rule_before-skip (enabled_rules-permᴰ d)
        (λ a b m n. rule_before_cases a b (keyed a b (In-enabled a rules m) (In-enabled b rules n)))

  reason_perm :
      (profiles : List Mode) {rules rules' : List AnyRule}
      → Permᴰ rules rules'
      → Keyed rules
      → (decision zones profiles rules when).reason ≡ (decision zones profiles rules' when).reason
  unfolding decision
  reason_perm profiles d keyed = rw (sorted_rules-permᴰ d keyed) refl

  enabled_perm :
      (profiles : List Mode) {rules rules' : List AnyRule}
      → Permᴰ rules rules'
      → Keyed rules
      → map rule_key (decision zones profiles rules when).enabled
        ≡ map rule_key (decision zones profiles rules' when).enabled
  unfolding decision
  enabled_perm profiles d keyed = ap (map rule_key) (sorted_rules-permᴰ d keyed)

  -- The order in which the profiles and the rules are read does not change what is allowed. Where
  -- no two of the rules share a class and an id, the order in which the rules are read does not
  -- change the reason either, nor which active rules are listed, nor their order.
  pub decision_perm :
      (profiles profiles' : List Mode) (rules rules' : List AnyRule)
      → Perm profiles profiles'
      → Perm rules rules'
      → Keyed rules
      → ((decision zones profiles rules when).allowed
          ≡ (decision zones profiles' rules' when).allowed)
        × ((decision zones profiles rules when).reason
            ≡ (decision zones profiles rules' when).reason)
        × (map rule_key (decision zones profiles rules when).enabled
            ≡ map rule_key (decision zones profiles rules' when).enabled)
  decision_perm profiles profiles' rules rules' p r keyed = (
    decision-permits zones when profiles rules
        ∙ rw
            (
              any-perm (has_mode (codes "blocked")) p,
              any-perm (has_mode (codes "controlled")) p,
              any-perm (λ rule. is_active zones when rule && has_action (codes "block") rule) r,
              any-perm (λ rule. is_active zones when rule && has_action (codes "allow") rule) r,
            )
            (sym (decision-permits zones when profiles' rules')),
    ∥∥₁_elim r (text_set _ _) (λ d. reason_perm profiles d keyed),
    ∥∥₁_elim r (texts_set _ _) (λ d. enabled_perm profiles d keyed),
  )
