-- ===== src/Managers/Rules/Stored.antt =====
-- The columns of the stored rules stay valid through every method of `RuleManager`.
use net_father.Prelude.{
  ℕ, ◌≡◌, refl, sym, ap, subst, Bool, true, false, Option, none, some, List, [], ◌∷◌, ◌++◌, map,
  All, All-keep, In_of_All, find-In, nat_eq, ◌==◌, some_injective, if◌then◌else◌, Bool-cases,
  Option-cases, inl, inr, Text, is_some, validation_error, rule_not_found, attribute_error,
}
use net_father.Prelude.Strings.{is_empty}
use net_father.Models.{Device}
use net_father.Models.Policies.{
  RuleFields, Rule, GroupRule, AnyRule, of_device, of_group, rule_fields,
}
use net_father.Database.{Database, get_rule, get_group_rule}
use net_father.Database.Session.{proceed-ok, note, raise_when, require, lift, pure}
use net_father.Database.Keeps.{
  returned, same_state, require-ok, Keeps, require-Keeps, raise_when-Keeps, lift-ok,
}
use net_father.Schedules.Zones.{Zones}
use net_father.Managers.Devices.Find.{require_by_name}
use net_father.Managers.RuleFields.{RuleArguments, created_fields, updated_fields}
use net_father.Managers.RuleFields.Valid.{IsValid, created_fields-IsValid, updated_fields-IsValid}
use net_father.Managers.Rules.{
  with_fields, add_rule, write_rule, remove_rule, find_rule, require_rule, note_rule, named_device,
  new_rule, create_session, delete_rule, set_enabled, update_session, create_rule, update_rule,
  agree, named, missing_group,
}

pub All-append :
    {A : Type 0} (P : A → Type 0) (xs ys : List A) → All P xs → All P ys → All P (xs ++ ys)
All-append P [] ys h k = k
All-append P (x ∷ xs) ys h k = (h.0, All-append P xs ys h.1 k)

-- Some rows are replaced by one that has the property.
All-replace :
    {A : Type 0} (P : A → Type 0) (test : A → Bool) (y : A) (xs : List A)
    → P y
    → All P xs
    → All P (map (λ x. if test x then y else x) xs)
All-replace P test y [] p h = tt
All-replace P test y (x ∷ xs) p h = elim (Bool-cases (test x)) [
  | inl e ↦ rw e (p, All-replace P test y xs p h.1)
  | inr e ↦ rw e (h.0, All-replace P test y xs p h.1)
]

module _ {Zone : Type 0} (zones : Zones Zone) where
  -- Every stored rule has valid columns.
  pub record IsStored (db : Database) : Type 0 where
    pub rules : All (λ (r : Rule). IsValid zones r.fields) db.rules
    pub group_rules : All (λ (r : GroupRule). IsValid zones r.fields) db.group_rules

  note-Keeps :
      (event_type description : Text) (mac metadata : Option Text)
      → Keeps IsStored (note event_type description mac metadata)
  unfolding note
  note-Keeps event_type description mac metadata db a db' h k =
      subst IsStored (same_state h) (record { rules = k.rules; group_rules = k.group_rules })

  note_rule-Keeps :
      (event_type description : Text) (rule : AnyRule)
      → Keeps IsStored (note_rule event_type description rule)
  unfolding note_rule
  note_rule-Keeps event_type description rule db a db' h k =
      note-Keeps event_type description _ _ db a db' h k

  add_rule-IsStored :
      (rule : AnyRule) (db : Database)
      → IsValid zones (rule_fields rule)
      → IsStored db
      → IsStored (add_rule rule db)
  unfolding add_rule
  add_rule-IsStored (of_device r) db v k = record {
    rules = All-append (λ (r : Rule). IsValid zones r.fields) db.rules _ k.rules (v, tt);
    group_rules = k.group_rules;
  }
  add_rule-IsStored (of_group r) db v k = record {
    rules = k.rules;
    group_rules =
        All-append (λ (r : GroupRule). IsValid zones r.fields) db.group_rules _ k.group_rules
          (v, tt);
  }

  write_rule-IsStored :
      (rule : AnyRule) (db : Database)
      → IsValid zones (rule_fields rule)
      → IsStored db
      → IsStored (write_rule rule db)
  unfolding write_rule
  write_rule-IsStored (of_device r) db v k = record {
    rules =
        All-replace (λ (r : Rule). IsValid zones r.fields) (λ x. x.id == r.id) r db.rules v k.rules;
    group_rules = k.group_rules;
  }
  write_rule-IsStored (of_group r) db v k = record {
    rules = k.rules;
    group_rules =
        All-replace (λ (r : GroupRule). IsValid zones r.fields) (λ x. x.id == r.id) r db.group_rules
          v k.group_rules;
  }

  remove_rule-IsStored :
      (rule : AnyRule) (db : Database) → IsStored db → IsStored (remove_rule rule db)
  unfolding remove_rule
  remove_rule-IsStored (of_device r) db k = record {
    rules = All-keep (λ (r : Rule). IsValid zones r.fields) _ db.rules k.rules;
    group_rules = k.group_rules;
  }
  remove_rule-IsStored (of_group r) db k = record {
    rules = k.rules;
    group_rules =
        All-keep (λ (r : GroupRule). IsValid zones r.fields) _ db.group_rules k.group_rules;
  }

  -- A rule that is found is one of the stored ones.
  find_rule-IsValid :
      (group : Bool) (id : ℕ) (db : Database) (rule : AnyRule)
      → find_rule group id db ≡ some rule
      → IsStored db
      → IsValid zones (rule_fields rule)
  unfolding find_rule
  find_rule-IsValid true id db rule h k = elim (Option-cases (get_group_rule id db)) [
    | inl e ↦ absurd (cc (rw e at h))
    | inr (r, e) ↦
        subst (λ x. IsValid zones (rule_fields x)) (some_injective (rw e at h))
          (In_of_All (λ (r : GroupRule). IsValid zones r.fields) db.group_rules k.group_rules r
            (find-In _ db.group_rules e))
  ]
  find_rule-IsValid false id db rule h k = elim (Option-cases (get_rule id db)) [
    | inl e ↦ absurd (cc (rw e at h))
    | inr (r, e) ↦
        subst (λ x. IsValid zones (rule_fields x)) (some_injective (rw e at h))
          (In_of_All (λ (r : Rule). IsValid zones r.fields) db.rules k.rules r
            (find-In _ db.rules e))
  ]

  require_rule-Keeps :
      (group : Bool) (id : ℕ) (db : Database) (rule : AnyRule) (db' : Database)
      → require_rule group id db ≡ returned rule db'
      → IsStored db
      → IsStored db' × IsValid zones (rule_fields rule)
  unfolding require_rule
  require_rule-Keeps group id db rule db' h k =
      let (e, same) = require-ok (find_rule group id db) rule_not_found h in
      (subst IsStored same k, find_rule-IsValid group id db rule e k)

  pub delete_rule-Keeps : (group : Bool) (id : ℕ) → Keeps IsStored (delete_rule group id)
  unfolding delete_rule
  delete_rule-Keeps group id db a db' h k =
      let (rule, db₁, e₁, h₁) = proceed-ok _ (require_rule group id db) h in
      let (u, db₂, e₂, h₂) = proceed-ok _ (note_rule _ _ rule db₁) h₁ in
      let (k₁, _) = require_rule-Keeps group id db rule db₁ e₁ k in
      subst IsStored (same_state h₂)
        (remove_rule-IsStored rule db₂ (note_rule-Keeps _ _ rule db₁ u db₂ e₂ k₁))

  with_fields-lem : (rule : AnyRule) (f : RuleFields) → rule_fields (with_fields rule f) ≡ f
  unfolding with_fields
  with_fields-lem (of_device r) f = refl
  with_fields-lem (of_group r) f = refl

  -- The rest of `set_enabled` and of `update_rule` from the changed row on.
  changed-IsStored :
      (rule : AnyRule) (f : RuleFields) (db db₁ : Database) (event_type description : Text)
      (u : Unit {0})
      → note_rule event_type description (with_fields rule f) (write_rule (with_fields rule f) db)
        ≡ returned u db₁
      → IsValid zones f
      → IsStored db
      → IsStored db₁
  changed-IsStored rule f db db₁ event_type description u h v k =
      note_rule-Keeps event_type description (with_fields rule f) _ u db₁ h (
        write_rule-IsStored (with_fields rule f) db
          (subst (IsValid zones) (sym (with_fields-lem rule f)) v) k)

  pub set_enabled-Keeps :
      (group : Bool) (id : ℕ) (enabled : Bool) → Keeps IsStored (set_enabled group id enabled)
  unfolding set_enabled
  set_enabled-Keeps group id enabled db a db' h k =
      let (rule, db₁, e₁, h₁) = proceed-ok _ (require_rule group id db) h in
      let (k₁, v) = require_rule-Keeps group id db rule db₁ e₁ k in
      let f : RuleFields = record (rule_fields rule) { enabled = enabled } in
      let (u, db₂, e₂, h₂) =
        proceed-ok _ (note_rule _ _ (with_fields rule f) (write_rule (with_fields rule f) db₁))
          h₁ in
      let v' : IsValid zones f = record {
        action = v.action;
        schedule = v.schedule;
        weekdays = v.weekdays;
        found = v.found;
        timezone = v.timezone;
        priority = v.priority;
        description = v.description;
      } in
      subst IsStored (same_state h₂) (changed-IsStored rule f db₁ db₂ _ _ u e₂ v' k₁)

  update_session-Keeps :
      (group : Bool) (id : ℕ) (f : RuleFields)
      → IsValid zones f
      → Keeps IsStored (update_session group id f)
  unfolding update_session
  update_session-Keeps group id f v db a db' h k =
      let (rule, db₁, e₁, h₁) = proceed-ok _ (require_rule group id db) h in
      let (k₁, _) = require_rule-Keeps group id db rule db₁ e₁ k in
      let (u, db₂, e₂, h₂) =
        proceed-ok _ (note_rule _ _ (with_fields rule f) (write_rule (with_fields rule f) db₁))
          h₁ in
      subst IsStored (same_state h₂) (changed-IsStored rule f db₁ db₂ _ _ u e₂ v k₁)

  pub update_rule-Keeps :
      (group : Bool) (id : ℕ) (a : RuleArguments) → Keeps IsStored (update_rule zones group id a)
  unfolding update_rule
  update_rule-Keeps group id a db rule db' h k =
      let (f, db₁, e₁, h₁) = proceed-ok _ (lift (updated_fields zones a) db) h in
      let (v, same) = lift-ok (updated_fields zones a) e₁ in
      update_session-Keeps group id f (updated_fields-IsValid zones a f v) db₁ rule db' h₁
        (subst IsStored same k)

  new_rule-fields :
      (device : Option Device) (profile_id : Option ℕ) (f : RuleFields) (db : Database)
      (rule : AnyRule)
      → new_rule device profile_id f db ≡ some rule
      → f ≡ rule_fields rule
  unfolding new_rule
  new_rule-fields device (some p) f db rule h = ap rule_fields (some_injective h)
  new_rule-fields (some d) none f db rule h = ap rule_fields (some_injective h)
  new_rule-fields none none f db rule h = absurd (cc h)

  require_by_name-Keeps : (name : Text) → Keeps IsStored (require_by_name name)
  unfolding require_by_name
  require_by_name-Keeps name db a db' h k = require-Keeps IsStored _ _ db a db' h k

  named_device-Keeps : (name : Option Text) → Keeps IsStored (named_device name)
  unfolding named_device
  named_device-Keeps none db a db' h k = subst IsStored (same_state h) k
  named_device-Keeps (some name) db a db' h k = elim (Bool-cases (is_empty name)) [
    | inl e ↦ subst IsStored (same_state (rw e at h)) k
    | inr e ↦
        let (d, db₁, e₁, h₁) =
          proceed-ok (λ d. pure (some d)) (require_by_name name db) (rw e at h) in
        subst IsStored (same_state h₁) (require_by_name-Keeps name db d db₁ e₁ k)
  ]

  create_session-Keeps :
      (name : Option Text) (profile_id : Option ℕ) (f : RuleFields)
      → IsValid zones f
      → Keeps IsStored (create_session name profile_id f)
  unfolding create_session
  create_session-Keeps name profile_id f v db a db' h k =
      let (device, db₁, e₁, h₁) = proceed-ok _ (named_device name db) h in
      let (u, db₂, e₂, h₂) =
        proceed-ok _ (raise_when (missing_group profile_id db₁) validation_error db₁) h₁ in
      let (rule, db₃, e₃, h₃) =
        proceed-ok _ (require (new_rule device profile_id f db₂) attribute_error db₂) h₂ in
      let (w, db₄, e₄, h₄) = proceed-ok _ (note _ _ _ _ (add_rule rule db₃)) h₃ in
      let k₁ = named_device-Keeps name db device db₁ e₁ k in
      let k₂ = raise_when-Keeps IsStored _ _ db₁ u db₂ e₂ k₁ in
      let (made, same) = require-ok (new_rule device profile_id f db₂) attribute_error e₃ in
      let v' = subst (IsValid zones) (new_rule-fields device profile_id f db₂ rule made) v in
      let k₃ = add_rule-IsStored rule db₃ v' (subst IsStored same k₂) in
      subst IsStored (same_state h₄) (note-Keeps _ _ _ _ (add_rule rule db₃) w db₄ e₄ k₃)

  pub create_rule-Keeps :
      (name : Option Text) (profile_id : Option ℕ) (a : RuleArguments)
      → Keeps IsStored (create_rule zones name profile_id a)
  unfolding create_rule
  create_rule-Keeps name profile_id a db rule db' h k =
      let (u, db₁, e₁, h₁) =
        proceed-ok _ (raise_when (agree (named name) (is_some profile_id)) validation_error db) h in
      let (f, db₂, e₂, h₂) = proceed-ok _ (lift (created_fields zones a) db₁) h₁ in
      let (v, same) = lift-ok (created_fields zones a) e₂ in
      create_session-Keeps name profile_id f (created_fields-IsValid zones a f v) db₂ rule db' h₂
        (subst IsStored same (raise_when-Keeps IsStored _ _ db u db₁ e₁ k))
