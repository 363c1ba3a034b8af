-- ===== src/Policy/Engine/Blocked.antt =====
-- Which addresses `blocked_ips` hands to the firewall.
use net_father.Prelude.{
  ℕ, ◌≡◌, refl, sym, ap, ◌∙◌, subst, true, false, Option, none, some, List, [], ◌∷◌, ◌++◌, In,
  In-append_left, In-append_right, In-dedupe, ltb, text_eq_instance, if◌then◌else◌, Text, ok,
  >>=-eq-ok, ok_injective, Bool-cases, inl, inr, arith, ◌⊎◌, ◌↔◌,
}
use net_father.Prelude.Sorting.{sort, In-sort, sort-In}
use net_father.Prelude.Strings.{is_empty, text_before}
use net_father.Models.{Device}
use net_father.Models.Policies.{AnyRule, Mode}
use net_father.Database.{Database}
use net_father.Net.Addresses.{IpLibrary}
use net_father.Schedules.Zones.{Zones}
use net_father.Schedules.Active.{aware}
use net_father.Policy.Decision.{decision}
use net_father.Policy.Engine.{
  DevicePolicy, given, present, is_blocked, blocked_list, policy_inputs, duplicate_ip,
  check_address, is_usable, no_texts, policy_of, evaluate, evaluate_list, evaluate_all, blocked_ips,
}

module _ {A : Type 0} where
  append-In : (a : A) (xs ys : List A) → In a (xs ++ ys) → In a xs ⊎ In a ys
  append-In a [] ys m = inr m
  append-In a (x ∷ xs) ys (inl e) = inl (inl e)
  append-In a (x ∷ xs) ys (inr m) = elim (append-In a xs ys m) [
    | inl l ↦ inl (inr l)
    | inr r ↦ inr r
  ]

-- `p` is a policy of the list that puts the address `t` on the block list.
abbrev Blocks : Text → DevicePolicy → Type 0
Blocks t p = (is_blocked p ≡ true) × (p.ip ≡ some t)

chosen : DevicePolicy → List Text
chosen p = if is_blocked p then present p.ip else []

In-chosen : (t : Text) (p : DevicePolicy) → In t (chosen p) → Blocks t p
unfolding chosen
In-chosen t p m = elim (Bool-cases (is_blocked p)) [
  | inr e ↦ absurd (rw e at m)
  | inl e ↦ (e, from_present p.ip (rw e at m))
]
  where
    from_present : (o : Option Text) → In t (present o) → o ≡ some t
    from_present none m = absurd m
    from_present (some u) (inl h) = ap some h
    from_present (some u) (inr x) = absurd x

chosen-In : (t : Text) (p : DevicePolicy) → Blocks t p → In t (chosen p)
unfolding chosen
chosen-In t p (b, i) = rw (b, i) (inl refl)

listed :
    (t : Text) (ps : List DevicePolicy)
    → In t (blocked_list ps)
    → (p : DevicePolicy) × In p ps × Blocks t p
unfolding blocked_list chosen
listed t [] m = absurd m
listed t (p ∷ ps) m = elim (append-In t (chosen p) (blocked_list ps) m) [
  | inl c ↦ (p, inl refl, In-chosen t p c)
  | inr r ↦ let (q, i, b) = listed t ps r in (q, inr i, b)
]

unlisted :
    (t : Text) (ps : List DevicePolicy) (p : DevicePolicy)
    → In p ps
    → Blocks t p
    → In t (blocked_list ps)
unfolding blocked_list chosen
unlisted t [] p m b = absurd m
unlisted t (q ∷ ps) p (inl e) b =
    In-append_left t (chosen q) (blocked_list ps) (chosen-In t q (subst (Blocks t) (sym e) b))
unlisted t (q ∷ ps) p (inr m) b =
    In-append_right t (chosen q) (blocked_list ps) (unlisted t ps p m b)

module _ {Zone : Type 0} (zones : Zones Zone) (lib : IpLibrary) (db : Database) (when : ℕ) where
  abbrev Evaluated : List Device → DevicePolicy → Type 0
  Evaluated ds p = (d : Device) × In d ds × (evaluate zones lib db d when ≡ ok p)

  In-evaluate_list :
      (ds : List Device) {ps : List DevicePolicy}
      → evaluate_list zones lib db when ds ≡ ok ps
      → (p : DevicePolicy) → In p ps ↔ Evaluated ds p
  unfolding evaluate_list
  In-evaluate_list [] h p =
      subst (λ ps. In p ps ↔ Evaluated [] p) (ok_injective h)
        ((λ m. absurd m), λ (d, m, e). absurd m)
  In-evaluate_list (d ∷ ds) {ps} h p =
      let (q, e, h₁) = >>=-eq-ok (evaluate zones lib db d when) _ h in
      let (qs, f, h₂) = >>=-eq-ok (evaluate_list zones lib db when ds) _ h₁ in
      subst (λ xs. In p xs ↔ Evaluated (d ∷ ds) p) (ok_injective h₂)
        (
          (λ m. elim m [
            | inl i ↦ (d, inl refl, e ∙ ap ok i)
            | inr r ↦ let (c, i, k) = (In-evaluate_list ds f p).0 r in (c, inr i, k)
          ]),
          λ (c, m, k). elim m [
            | inl i ↦ inl (ok_injective (sym e ∙ ap (λ x. evaluate zones lib db x when) i ∙ k))
            | inr r ↦ inr ((In-evaluate_list ds f p).1 (c, r, k))
          ],
        )

  -- What has to hold of a device for its address to be blocked.
  pub record MustBlock (d : Device) (t : Text) : Type 0 where
    pub address : d.ip ≡ some t
    pub nonempty : is_empty t ≡ false
    pub no_conflict : d.identity_conflict ≡ false
    pub alone : duplicate_ip db d ≡ false
    pub readable : is_usable (check_address lib d.ip) ≡ true
    pub profiles : List Mode
    pub rules : List AnyRule
    pub inputs : policy_inputs db d ≡ ok (profiles, rules)
    pub readable_rules : no_texts (decision zones profiles rules (aware when)).invalid ≡ true
    pub denied : (decision zones profiles rules (aware when)).allowed ≡ false

  policy_of-MustBlock :
      (d : Device) (t : Text) {ms : List Mode} {rs : List AnyRule}
      → policy_inputs db d ≡ ok (ms, rs)
      → Blocks t (policy_of zones lib db d when ms rs)
      → MustBlock d t
  unfolding policy_of
  policy_of-MustBlock d t {ms} {rs} inputs (b, i) = record {
    address = i;
    nonempty = given_some (ground arith);
    no_conflict = ground arith;
    alone = ground arith;
    readable = ground arith;
    profiles = ms;
    rules = rs;
    inputs = inputs;
    readable_rules = ground arith;
    denied = ground arith;
  }
    where
      given_some : given d.ip ≡ true → is_empty t ≡ false
      given_some g = let g' : given (some t) ≡ true = rw i at g in ground arith

  MustBlock-policy_of :
      (d : Device) (t : Text) (w : MustBlock d t)
      → Blocks t (policy_of zones lib db d when w.profiles w.rules)
  unfolding policy_of
  MustBlock-policy_of d t w = (
    simp (w.denied, given_address, w.no_conflict, w.readable_rules, w.alone, w.readable),
    w.address,
  )
    where
      given_address : given d.ip ≡ true
      given_address = rw w.address (rw w.nonempty refl)

  evaluate-MustBlock :
      (d : Device) (t : Text)
      → ((p : DevicePolicy) × (evaluate zones lib db d when ≡ ok p) × Blocks t p) ↔ MustBlock d t
  unfolding evaluate
  evaluate-MustBlock d t = (
    (λ (p, h, b).
        let ((ms, rs), inputs, k) = >>=-eq-ok (policy_inputs db d) _ h in
        policy_of-MustBlock d t inputs (subst (Blocks t) (sym (ok_injective k)) b)),
    λ w. (
      policy_of zones lib db d when w.profiles w.rules,
      rw (w.inputs) refl,
      MustBlock-policy_of d t w,
    ),
  )

  -- Where the policies can be evaluated, an address is on the block list exactly if it is the
  -- non-empty address of a device that no identity conflict excludes, whose address no other device
  -- claims and the backend can enforce, whose rules can all be read, and to which the decision on
  -- its profiles and rules denies access.
  pub blocked_ips-MustBlock :
      (t : Text) {ips : List Text}
      → blocked_ips zones lib db when ≡ ok ips
      → In t ips ↔ ((d : Device) × In d db.devices × MustBlock d t)
  unfolding blocked_ips evaluate_all
  blocked_ips-MustBlock t {ips} h =
      let rows = sort (λ (d e : Device). ltb d.id e.id) db.devices in
      let (ps, e, k) = >>=-eq-ok (evaluate_list zones lib db when rows) _ h in
      subst (λ xs. In t xs ↔ ((d : Device) × In d db.devices × MustBlock d t)) (ok_injective k)
        (
          (λ m.
              let m' = (In-dedupe t (blocked_list ps)).0 (In-sort text_before t _ m) in
              let (p, i, b) = listed t ps m' in
              let (d, j, v) = (In-evaluate_list rows e p).0 i in
              (d, In-sort _ d db.devices j, (evaluate-MustBlock d t).0 (p, v, b))),
          λ (d, j, w).
              let (p, v, b) = (evaluate-MustBlock d t).1 w in
              let i = (In-evaluate_list rows e p).1 (d, sort-In _ d db.devices j, v) in
              sort-In text_before t _ ((In-dedupe t (blocked_list ps)).1 (unlisted t ps p i b)),
        )
