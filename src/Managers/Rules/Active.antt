-- ===== src/Managers/Rules/Active.antt =====
-- What the query for the active rules returns.
use net_father.Prelude.{
  ◌≡◌, refl, sym, ap, ◌∙◌, subst, ◌↔◌, true, none, List, [], ◌∷◌, All, In, Bool-cases, inl, inr, ok,
  ok_injective,
}
use net_father.Prelude.Sorting.{sort, sort-IsSorted, IsSorted, In-sort, sort-In, All-sort}
use net_father.Models.Policies.{Rule, of_device}
use net_father.Database.{Database}
use net_father.Schedules.Zones.{Zones}
use net_father.Schedules.Active.{When, active}
use net_father.Policy.Decision.Winner.{rule_before-asym, rule_before-skip}
use net_father.Managers.RuleFields.Valid.{IsValid, IsValid-active}
use net_father.Managers.Rules.Stored.{IsStored}
use net_father.Managers.Rules.Queries.{
  by_id, list_rules, append_active, device_rule_before, collect_active, active_rules,
}

module _ {Zone : Type 0} (zones : Zones Zone) (when : When) where
  -- An enabled rule whose schedule is active at the moment.
  abbrev pub IsActive : Rule → Type 0
  IsActive r =
      (r.fields.enabled ≡ true)
      × (active zones r.fields.schedule when r.fields.timezone r.fields.weekdays ≡ ok true)

  abbrev Exactly : List Rule → List Rule → Type 0
  Exactly rules found = (r : Rule) → In r found ↔ (In r rules × IsActive r)

  Exactly-take :
      (r : Rule) (rules found : List Rule)
      → IsActive r
      → Exactly rules found
      → Exactly (r ∷ rules) (r ∷ found)
  Exactly-take r rules found a x s = (to, from)
    where
      to : In s (r ∷ found) → In s (r ∷ rules) × IsActive s
      to (inl e) = (inl e, subst IsActive e a)
      to (inr m) = let (n, b) = (x s).0 m in (inr n, b)

      from : In s (r ∷ rules) × IsActive s → In s (r ∷ found)
      from (inl e, b) = inl e
      from (inr m, b) = inr ((x s).1 (m, b))

  Exactly-skip :
      (r : Rule) (rules found : List Rule)
      → (IsActive r → ⊥)
      → Exactly rules found
      → Exactly (r ∷ rules) found
  Exactly-skip r rules found a x s = (to, from)
    where
      to : In s found → In s (r ∷ rules) × IsActive s
      to m = let (n, b) = (x s).0 m in (inr n, b)

      from : In s (r ∷ rules) × IsActive s → In s found
      from (inl e, b) = absurd (a (subst IsActive (sym e) b))
      from (inr m, b) = (x s).1 (m, b)

  collect_active-Exactly :
      (rules : List Rule)
      → All (λ (r : Rule). IsValid zones r.fields) rules
      → (found : List Rule) × (collect_active zones when rules ≡ ok found) × Exactly rules found
  unfolding collect_active append_active
  collect_active-Exactly [] v = ([], refl, (λ r. ((λ m. absurd m), (λ m. m.0))))
  collect_active-Exactly (r ∷ rules) v =
      let (found, e, x) = collect_active-Exactly rules v.1 in
      let (b, f) = IsValid-active zones r.fields when v.0 in
      elim (Bool-cases r.fields.enabled) [
        | inr off ↦ (found, rw off e, Exactly-skip r rules found (λ a. cc) x)
        | inl on ↦ elim (Bool-cases b) [
          | inl hit ↦
              (r ∷ found, rw (on, f, hit, e) refl, Exactly-take r rules found (on, f ∙ ap ok hit) x)
          | inr miss ↦ (
            found,
            rw (on, f, miss) e,
            Exactly-skip r rules found (λ a. let g = ok_injective (sym f ∙ a.1) in cc) x,
          )
        ]
      ]

  -- Where the stored columns are valid, the query for the active rules of all devices returns,
  -- leaves the tables alone, and gives exactly the stored rules that are enabled and active at the
  -- moment, those of higher priority first and among equal ones by id.
  pub active_rules-Exactly :
      (db : Database)
      → IsStored zones db
      → (found : List Rule) × (active_rules zones when none db ≡ ok (found, db))
        × IsSorted device_rule_before found
        × ((r : Rule) → In r found ↔ (In r db.rules × IsActive r))
  unfolding active_rules list_rules
  active_rules-Exactly db k =
      let v = All-sort _ (λ (r : Rule). IsValid zones r.fields) db.rules k.rules in
      let (found, e, x) = collect_active-Exactly (by_id db.rules) v in
      (
        sort device_rule_before found,
        rw e refl,
        sort-IsSorted device_rule_before (λ a b. rule_before-asym (of_device a) (of_device b))
            (λ a b c. rule_before-skip (of_device a) (of_device b) (of_device c)) found,
        λ r. (
          (λ m.
              let (n, a) = (x r).0 (In-sort device_rule_before r found m) in
              (In-sort _ r db.rules n, a)),
          (λ (m, a). sort-In device_rule_before r found ((x r).1 (sort-In _ r db.rules m, a))),
        ),
      )
