-- ===== src/Managers/Groups/Calls.antt =====
-- Sequences of calls of `GroupManager`, and what the policy engine may rely on after them.
use net_father.Prelude.{
  ℕ, ◌≡◌, refl, sym, ap, ◌∙◌, subst, true, false, Option, List, [], ◌∷◌, all, In, find-In, is_some,
  is_some-find, ltb, nat_eq, dedupe, text_eq_instance, Text, ok, err, Error, err_not_ok,
  Result-cases, Option-cases, inl, inr, arith,
}
use net_father.Prelude.Sorting.{sort}
use net_father.Prelude.Strings.{text_before}
use net_father.Models.{Device}
use net_father.Models.Policies.{PolicyGroup, ProfileAssignment, AnyRule, Mode}
use net_father.Database.{Database, get_assignment, get_group}
use net_father.Database.Session.{session}
use net_father.Database.Keeps.{session-Keeps}
use net_father.Net.Addresses.{IpLibrary}
use net_father.Schedules.Zones.{Zones}
use net_father.Policy.Engine.{
  DevicePolicy, policy_inputs, policy_of, evaluate, evaluate_list, evaluate_all, blocked_list,
  blocked_ips,
}
use net_father.Managers.Groups.{save, assign, unassign, delete}
use net_father.Managers.Groups.Known.{
  IsKnown, has_group, known, save-KeepsKnown, assign-KeepsKnown, unassign-KeepsKnown,
  delete-KeepsKnown,
}

-- A call of a method that changes the tables.
pub data GroupCall : Type 0 where
  saving : Text → Text → Option ℕ → GroupCall
  assigning unassigning : ℕ → ℕ → GroupCall
  deleting : ℕ → GroupCall

-- The tables after a call, whether it returned or raised.
unfoldable pub call : GroupCall → Database → Database
call (saving name mode profile_id) db = (session (save name mode profile_id) db).1
call (assigning profile_id device_id) db = (session (assign profile_id device_id) db).1
call (unassigning profile_id device_id) db = (session (unassign profile_id device_id) db).1
call (deleting profile_id) db = (session (delete profile_id) db).1

unfoldable pub calls : List GroupCall → Database → Database
calls [] db = db
calls (c ∷ cs) db = calls cs (call c db)

call-IsKnown : (c : GroupCall) (db : Database) → IsKnown db → IsKnown (call c db)
unfolding call
call-IsKnown (saving name mode profile_id) db k =
    session-Keeps IsKnown (save name mode profile_id) (save-KeepsKnown name mode profile_id) db k
call-IsKnown (assigning profile_id device_id) db k =
    session-Keeps IsKnown (assign profile_id device_id) (assign-KeepsKnown profile_id device_id) db
      k
call-IsKnown (unassigning profile_id device_id) db k =
    session-Keeps IsKnown (unassign profile_id device_id) (unassign-KeepsKnown profile_id device_id)
      db k
call-IsKnown (deleting profile_id) db k =
    session-Keeps IsKnown (delete profile_id) (delete-KeepsKnown profile_id) db k

-- Whatever calls are made, in whatever order and whether they return or raise, every assignment
-- still refers to a reusable profile that is there.
pub calls-IsKnown : (cs : List GroupCall) (db : Database) → IsKnown db → IsKnown (calls cs db)
unfolding calls
calls-IsKnown [] db k = k
calls-IsKnown (c ∷ cs) db k = calls-IsKnown cs (call c db) (call-IsKnown c db k)

known-In :
    (groups : List PolicyGroup) (assignments : List ProfileAssignment) (a : ProfileAssignment)
    → known groups assignments ≡ true
    → In a assignments
    → has_group groups a.profile_id ≡ true
unfolding known all
known-In groups [] a k m = absurd m
known-In groups (b ∷ rest) a k (inl e) =
    let here : has_group groups b.profile_id ≡ true = ground arith in
    subst (λ (x : ProfileAssignment). has_group groups x.profile_id ≡ true) e here
known-In groups (b ∷ rest) a k (inr m) = known-In groups rest a (ground arith) m

policy_inputs-err :
    (db : Database) (d : Device) {x : Error} → IsKnown db → policy_inputs db d ≡ err x → ⊥
unfolding policy_inputs
policy_inputs-err db d {x} k h = elim (Option-cases (get_assignment d.id db)) [
  | inl e ↦ err_not_ok (sym (rw (policy_inputs, e) at h))
  | inr (a, e) ↦
      let there = known-In db.groups db.assignments a k (find-In _ db.assignments e) in
      elim (Option-cases (get_group a.profile_id db)) [
        | inr (g, f) ↦ err_not_ok (sym (rw (policy_inputs, e, f) at h))
        | inl f ↦ missing (sym there ∙ sym (is_some-find _ db.groups) ∙ ap is_some f)
      ]
]
  where
    missing : true ≡ false → ⊥
    missing h = cc

policy_inputs-total :
    (db : Database) (d : Device)
    → IsKnown db
    → (inputs : List Mode × List AnyRule) × (policy_inputs db d ≡ ok inputs)
policy_inputs-total db d k = elim (Result-cases (policy_inputs db d)) [
  | inl found ↦ found
  | inr (x, e) ↦ absurd (policy_inputs-err db d k e)
]

module _ {Zone : Type 0} (zones : Zones Zone) (lib : IpLibrary) (when : ℕ) where
  evaluate_list-total :
      (db : Database)
      → IsKnown db
      → (ds : List Device) → (ps : List DevicePolicy) × (evaluate_list zones lib db when ds ≡ ok ps)
  unfolding evaluate_list evaluate
  evaluate_list-total db k [] = ([], refl)
  evaluate_list-total db k (d ∷ ds) =
      let ((modes, rules), e) = policy_inputs-total db d k in
      let (ps, f) = evaluate_list-total db k ds in
      (policy_of zones lib db d when modes rules ∷ ps, rw (e, f) refl)

  -- From tables whose assignments are known, after any calls, the block list can be computed.
  pub blocked_ips-calls :
      (cs : List GroupCall) (db : Database)
      → IsKnown db
      → (ips : List Text) × (blocked_ips zones lib (calls cs db) when ≡ ok ips)
  unfolding blocked_ips evaluate_all
  blocked_ips-calls cs db k =
      let (ps, e) =
        evaluate_list-total (calls cs db) (calls-IsKnown cs db k)
          (sort (λ (d e : Device). ltb d.id e.id) (calls cs db).devices) in
      (sort text_before (dedupe (blocked_list ps)), rw e refl)
