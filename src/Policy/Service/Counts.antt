-- ===== src/Policy/Service/Counts.antt =====
-- The numbers of a snapshot.
use net_father.Prelude.{
  ℕ, suc, ◌+◌, ◌≤◌, ◌≡◌, refl, sym, ap, ◌∙◌, subst, Bool, not, Option, none, some, List, [], ◌∷◌,
  ◌++◌, count, length, length-dedupe-le, dedupe, ltb, text_eq_instance, if◌then◌else◌, Text, ok,
  >>=-eq-ok, ok_injective, arith,
}
use net_father.Prelude.Sorting.{sort, length-sort}
use net_father.Prelude.Strings.{text_before}
use net_father.Models.{Device}
use net_father.Database.{Database}
use net_father.Net.Addresses.{IpLibrary}
use net_father.Schedules.Zones.{Zones}
use net_father.Policy.Engine.{
  DevicePolicy, present, is_blocked, blocked_list, evaluate, evaluate_list, evaluate_all,
  blocked_ips,
}
use net_father.Policy.Service.{PolicySnapshot, snapshot_of, refresh}

module _ {A : Type 0} (p : A → Bool) where
  count-not : (xs : List A) → count p xs + count (λ x. not (p x)) xs ≡ length xs
  unfolding count
  count-not [] = refl
  count-not (x ∷ xs) = ground (arith, count-not xs)

  count-length : (xs : List A) → count p xs ≤ length xs
  unfolding count
  count-length [] = omega arith
  count-length (x ∷ xs) = ground (arith, count-length xs)

length-append : (xs ys : List Text) → length (xs ++ ys) ≡ length xs + length ys
length-append [] ys = omega arith
length-append (x ∷ xs) ys = omega (arith, length-append xs ys)

length-present : (o : Option Text) → length (present o) ≤ 1
length-present none = omega arith
length-present (some t) = omega arith

length-blocked_list :
    (ps : List DevicePolicy)
    → length (blocked_list ps) ≤ count (λ (p : DevicePolicy). not p.allowed) ps
unfolding blocked_list count
length-blocked_list [] = omega arith
length-blocked_list (p ∷ ps) =
    let here = length-present p.ip in
    let there = length-blocked_list ps in
    let whole = length-append (if is_blocked p then present p.ip else []) (blocked_list ps) in
    ground arith

module _ {Zone : Type 0} (zones : Zones Zone) (lib : IpLibrary) (when : ℕ) where
  length-evaluate_list :
      (db : Database) (ds : List Device) {ps : List DevicePolicy}
      → evaluate_list zones lib db when ds ≡ ok ps
      → length ps ≡ length ds
  unfolding evaluate_list
  length-evaluate_list db [] h = sym (ap length (ok_injective h))
  length-evaluate_list db (d ∷ ds) h =
      let (q, e, h₁) = >>=-eq-ok (evaluate zones lib db d when) _ h in
      let (qs, f, h₂) = >>=-eq-ok (evaluate_list zones lib db when ds) _ h₁ in
      sym (ap length (ok_injective h₂)) ∙ ap suc (length-evaluate_list db ds f)

  -- A snapshot counts every device of the table once, as allowed or as blocked, at most all of them
  -- as online, and its block list is the policy engine's and no longer than the blocked devices.
  pub refresh_lem :
      (db : Database) {s : PolicySnapshot}
      → refresh zones lib db when ≡ ok s
      → (s.allowed + s.blocked ≡ length db.devices)
        × (s.online ≤ length db.devices)
        × (blocked_ips zones lib db when ≡ ok s.blocked_ips)
        × (length s.blocked_ips ≤ s.blocked)
  unfolding refresh snapshot_of evaluate_all blocked_ips
  refresh_lem db {s} h =
      let rows = sort (λ (d e : Device). ltb d.id e.id) db.devices in
      let (ps, e, k) = >>=-eq-ok (evaluate_list zones lib db when rows) _ h in
      let n : length ps ≡ length db.devices =
        length-evaluate_list db rows e ∙ length-sort (λ (d e : Device). ltb d.id e.id) db.devices in
      subst
        (λ (s : PolicySnapshot).
          (s.allowed + s.blocked ≡ length db.devices)
          × (s.online ≤ length db.devices)
          × (blocked_ips zones lib db when ≡ ok s.blocked_ips)
          × (length s.blocked_ips ≤ s.blocked))
        (ok_injective k)
        (
          count-not (λ (p : DevicePolicy). p.allowed) ps ∙ n,
          subst (λ m. count (λ (p : DevicePolicy). p.online) ps ≤ m) n (count-length _ ps),
          rw e refl,
          blocked_le ps,
        )
    where
      blocked_le :
          (ps : List DevicePolicy)
          → length (sort text_before (dedupe (blocked_list ps)))
            ≤ count (λ (p : DevicePolicy). not p.allowed) ps
      blocked_le ps = omega (
        arith,
        length-sort text_before (dedupe (blocked_list ps)),
        length-dedupe-le (blocked_list ps),
        length-blocked_list ps,
      )
