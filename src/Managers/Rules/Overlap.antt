-- ===== src/Managers/Rules/Overlap.antt =====
-- Which pairs of rules `conflicts` reports.
use net_father.Prelude.{
  ℕ, ◌≡◌, refl, ◌↔◌, true, text_eq_instance, Option-cases, is_some, List, [], ◌∷◌, ◌++◌, keep, All,
  All-keep, In, inl, inr, ok, Result, Text,
}
use net_father.Prelude.Sorting.{sort, All-sort}
use net_father.Models.Policies.{Rule, GroupRule, rule_fields}
use net_father.Database.{Database, get_device, get_group}
use net_father.Schedules.Zones.{Zones}
use net_father.Managers.RuleFields.Valid.{IsValid}
use net_father.Managers.Rules.Stored.{IsStored, All-append}
use net_father.Managers.Rules.Clash.{ValidItem, IsWarned, warnings-IsWarned}
use net_father.Managers.Rules.Queries.{
  device_item, group_item, group_by_id, by_id, list_rules, Listed, listed_rule, listed_group_rule,
  each, listed_before, all_rules, conflicts,
}

each-All :
    {A B : Type 0} (P : A → Type 0) (Q : B → Type 0) (f : A → Result B)
    → ((a : A) → P a → (b : B) × (f a ≡ ok b) × Q b)
    → (xs : List A) → All P xs
    → (ys : List B) × (each f xs ≡ ok ys) × All Q ys
unfolding each
each-All P Q f step [] h = ([], refl, tt)
each-All P Q f step (x ∷ xs) h =
    let (y, e, q) = step x h.0 in
    let (ys, g, qs) = each-All P Q f step xs h.1 in (y ∷ ys, rw (e, g) refl, (q, qs))

-- The device of every rule and the profile of every group rule are there, which the database's
-- foreign keys ensure.
pub record IsLinked (db : Database) : Type 0 where
  pub rules : All (λ (r : Rule). is_some (get_device r.device_id db) ≡ true) db.rules
  pub group_rules :
      All (λ (r : GroupRule). is_some (get_group r.profile_id db) ≡ true) db.group_rules

module _ {Zone : Type 0} (zones : Zones Zone) (now : ℕ) where
  listed_rule-ValidItem :
      (db : Database) (r : Rule)
      → IsValid zones r.fields × (is_some (get_device r.device_id db) ≡ true)
      → (l : Listed) × (listed_rule db r ≡ ok l) × ValidItem zones l
  unfolding listed_rule
  listed_rule-ValidItem db r (v, s) = elim (Option-cases (get_device r.device_id db)) [
    | inl e ↦ absurd (cc (rw e at s))
    | inr (d, e) ↦ (device_item r d, rw (listed_rule, e) refl, v)
  ]

  listed_group_rule-ValidItem :
      (db : Database) (r : GroupRule)
      → IsValid zones r.fields × (is_some (get_group r.profile_id db) ≡ true)
      → (l : Listed) × (listed_group_rule db r ≡ ok l) × ValidItem zones l
  unfolding listed_group_rule
  listed_group_rule-ValidItem db r (v, s) = elim (Option-cases (get_group r.profile_id db)) [
    | inl e ↦ absurd (cc (rw e at s))
    | inr (g, e) ↦ (group_item r g, rw (listed_group_rule, e) refl, v)
  ]

  All-both :
      {A : Type 0} (P Q : A → Type 0) (xs : List A) → All P xs → All Q xs → All (λ x. P x × Q x) xs
  All-both P Q [] h k = tt
  All-both P Q (x ∷ xs) h k = ((h.0, k.0), All-both P Q xs h.1 k.1)

  -- All rules can be listed.
  all_rules-ValidItem :
      (db : Database)
      → IsStored zones db
      → IsLinked db
      → (all : List Listed) × (all_rules db ≡ ok (all, db)) × All (ValidItem zones) all
  unfolding all_rules list_rules
  all_rules-ValidItem db k d =
      let (own, e, v) =
        each-All _ (ValidItem zones) (listed_rule db) (listed_rule-ValidItem db) (by_id db.rules)
          (All-sort _ _ db.rules (All-both _ _ db.rules k.rules d.rules)) in
      let (shared, f, w) =
        each-All _ (ValidItem zones) (listed_group_rule db) (listed_group_rule-ValidItem db)
          (group_by_id db.group_rules)
          (All-sort _ _ db.group_rules (All-both _ _ db.group_rules k.group_rules d.group_rules)) in
      (
        sort listed_before (own ++ shared),
        rw (e, f) refl,
        All-sort listed_before (ValidItem zones) _ (All-append (ValidItem zones) own shared v w),
      )

  -- Where the stored columns are valid and every rule's device or profile is there, the report
  -- returns, and a text is one of its warnings exactly if it is the warning of two enabled rules,
  -- in the order of the list of all rules, of one scope, with different actions, which are active
  -- in a common minute of the eight days from the start of the day.
  pub conflicts-IsWarned :
      (db : Database)
      → IsStored zones db
      → IsLinked db
      → (all : List Listed) × (ws : List Text) × (all_rules db ≡ ok (all, db))
        × (conflicts zones now db ≡ ok (ws, db))
        × ((t : Text)
            → In t ws
              ↔ IsWarned zones now (keep (λ (l : Listed). (rule_fields l.rule).enabled) all) t)
  unfolding conflicts
  conflicts-IsWarned db k d =
      let (all, e, v) = all_rules-ValidItem db k d in
      let (ws, f, x) =
        warnings-IsWarned zones now _
          (All-keep (ValidItem zones) (λ (l : Listed). (rule_fields l.rule).enabled) all v) in
      (all, ws, e, rw (e, f) refl, x)
