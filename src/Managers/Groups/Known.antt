-- ===== src/Managers/Groups/Known.antt =====
-- Every assignment refers to a reusable profile that is there, whatever calls are made.
use net_father.Prelude.{
  ℕ, zero, suc, ◌≡◌, refl, sym, ap, ◌∙◌, subst, Bool, true, false, not, Option, none, some, List,
  [], ◌∷◌, ◌++◌, any, any-append, text_eq_instance, all, keep, find, is_some, is_some-find, ◌==◌,
  eq_iff, nat_eq, Text, ok, validation_error, profile_not_found, attribute_error, find-test,
  ok_injective, err_not_ok, Bool-cases, Option-cases, inl, inr, arith,
}
use net_father.Models.{Device}
use net_father.Models.Policies.{PolicyGroup, ProfileAssignment}
use net_father.Database.{Database, get_group, get_device, get_assignment}
use net_father.Database.Session.{Session, ◌>>=◌, proceed-ok, note, raise_when, require, gets, lift}
use net_father.Database.Keeps.{
  returned, same_state, require-ok, raise_when-ok, Keeps, read-Keeps, require-Keeps,
  raise_when-Keeps, lift-Keeps,
}
use net_father.Managers.Profiles.{validate_name, validate_mode}
use net_father.Managers.Groups.{
  set_group, require_group, store_group, save_session, save, add_new, assign, remove_assignment,
  unassign, remove_group, is_assigned, delete, write_group, add_group, differs_from,
}

abbrev pub has_group : List PolicyGroup → ℕ → Bool
has_group groups id = any (λ (g : PolicyGroup). g.id == id) groups

unfoldable pub known : List PolicyGroup → List ProfileAssignment → Bool
known groups assignments =
    all (λ (a : ProfileAssignment). has_group groups a.profile_id) assignments

-- Every assignment's profile is there.
abbrev pub IsKnown : Database → Type 0
IsKnown db = known db.groups db.assignments ≡ true

known-more :
    (groups groups' : List PolicyGroup) (assignments : List ProfileAssignment)
    → ((id : ℕ) → has_group groups id ≡ true → has_group groups' id ≡ true)
    → known groups assignments ≡ true
    → known groups' assignments ≡ true
unfolding known all
known-more groups groups' [] more h = refl
known-more groups groups' (a ∷ rest) more h =
    let here = more a.profile_id (ground arith) in
    let there = known-more groups groups' rest more (ground arith) in ground arith

known-append :
    (groups : List PolicyGroup) (assignments : List ProfileAssignment) (a : ProfileAssignment)
    → has_group groups a.profile_id ≡ true
    → known groups assignments ≡ true
    → known groups (assignments ++ (a ∷ [])) ≡ true
unfolding known all
known-append groups [] a h k = rw h refl
known-append groups (b ∷ rest) a h k =
    let there = known-append groups rest a h (ground arith) in ground arith

known-keep :
    (groups : List PolicyGroup) (p : ProfileAssignment → Bool)
    (assignments : List ProfileAssignment)
    → known groups assignments ≡ true
    → known groups (keep p assignments) ≡ true
unfolding known all keep
known-keep groups p [] k = refl
known-keep groups p (a ∷ rest) k = ground (arith, known-keep groups p rest)

has_group-set_group :
    (group : PolicyGroup) (groups : List PolicyGroup) (id : ℕ)
    → has_group (set_group group groups) id ≡ has_group groups id
unfolding any set_group
has_group-set_group group [] id = refl
has_group-set_group group (g ∷ gs) id = ground (arith, has_group-set_group group gs id)

has_group-append :
    (group : PolicyGroup) (groups : List PolicyGroup) (id : ℕ)
    → has_group groups id ≡ true
    → has_group (groups ++ (group ∷ [])) id ≡ true
has_group-append group groups id h =
    any-append (λ (g : PolicyGroup). g.id == id) groups (group ∷ []) ∙ rw h refl

has_group-keep :
    (id : ℕ) (groups : List PolicyGroup) (other : ℕ)
    → (other == id) ≡ false
    → has_group (keep (λ (g : PolicyGroup). not (g.id == id)) groups) other ≡ has_group groups other
unfolding any keep
has_group-keep id [] other n = refl
has_group-keep id (g ∷ gs) other n = ground (arith, has_group-keep id gs other n)

-- A profile that no assignment names can go.
known-remove :
    (id : ℕ) (groups : List PolicyGroup) (assignments : List ProfileAssignment)
    → any (λ (a : ProfileAssignment). a.profile_id == id) assignments ≡ false
    → known groups assignments ≡ true
    → known (keep (λ (g : PolicyGroup). not (g.id == id)) groups) assignments ≡ true
unfolding known all any
known-remove id groups [] h k = refl
known-remove id groups (a ∷ rest) h k =
    let there = known-remove id groups rest (ground arith) (ground arith) in
    let other : (a.profile_id == id) ≡ false = ground arith in
    let here = has_group-keep id groups a.profile_id other in ground arith

-- A session that returns keeps the property.
abbrev pub KeepsKnown : {A : Type 0} → Session A → Type 0
KeepsKnown m = Keeps IsKnown m

module _ {A B : Type 0} where
  >>=-KeepsKnown :
      (m : Session A) (f : A → Session B)
      → KeepsKnown m
      → ((a : A) → KeepsKnown (f a))
      → KeepsKnown (m >>= f)
  >>=-KeepsKnown m f k l db b db' h known_before =
      let (a, db₁, e, h₁) = proceed-ok f (m db) h in l a db₁ b db' h₁ (k db a db₁ e known_before)

note-KeepsKnown :
    (event_type description : Text) (mac metadata : Option Text)
    → KeepsKnown (note event_type description mac metadata)
unfolding note
note-KeepsKnown event_type description mac metadata db a db' h k = subst IsKnown (same_state h) k

require_group-KeepsKnown : (id : ℕ) → KeepsKnown (require_group id)
unfolding require_group
require_group-KeepsKnown id =
    >>=-KeepsKnown (gets (get_group id)) _ (read-Keeps IsKnown (get_group id))
      (λ o. require-Keeps IsKnown o profile_not_found)

write_group-IsKnown : (g : PolicyGroup) (db : Database) → IsKnown db → IsKnown (write_group g db)
write_group-IsKnown g db k =
    known-more db.groups (set_group g db.groups) db.assignments
      (λ id h. has_group-set_group g db.groups id ∙ h) k

add_group-IsKnown : (g : PolicyGroup) (db : Database) → IsKnown db → IsKnown (add_group g db)
add_group-IsKnown g db k =
    known-more db.groups (db.groups ++ (g ∷ [])) db.assignments (has_group-append g db.groups) k

created-KeepsKnown : (name mode : Text) → KeepsKnown (store_group name mode none)
unfolding store_group
created-KeepsKnown name mode db a db' h k = subst IsKnown (same_state h) (add_group-IsKnown _ db k)

changed-KeepsKnown : (name mode : Text) (n : ℕ) → KeepsKnown (store_group name mode (some (suc n)))
unfolding store_group
changed-KeepsKnown name mode n =
    >>=-KeepsKnown (require_group (suc n)) _ (require_group-KeepsKnown (suc n))
      (λ profile db a db' h k. subst IsKnown (same_state h) (write_group-IsKnown _ db k))

store_group-KeepsKnown :
    (name mode : Text) (profile_id : Option ℕ) → KeepsKnown (store_group name mode profile_id)
unfolding store_group
store_group-KeepsKnown name mode none = created-KeepsKnown name mode
store_group-KeepsKnown name mode (some zero) = created-KeepsKnown name mode
store_group-KeepsKnown name mode (some (suc n)) = changed-KeepsKnown name mode n

save_session-KeepsKnown :
    (name mode : Text) (profile_id : Option ℕ) → KeepsKnown (save_session name mode profile_id)
unfolding save_session
save_session-KeepsKnown name mode profile_id db a db' h k =
    let existing = find (λ (g : PolicyGroup). g.name == name) db.groups in
    let (u, db₂, e₂, h₂) =
      proceed-ok _ (raise_when (differs_from profile_id existing) validation_error db) h in
    let (profile, db₃, e₃, h₃) = proceed-ok _ (store_group name mode profile_id db₂) h₂ in
    let (v, db₄, e₄, h₄) = proceed-ok _ (note _ _ _ _ db₃) h₃ in
    let k₂ = raise_when-Keeps IsKnown _ _ db u db₂ e₂ k in
    let k₃ = store_group-KeepsKnown name mode profile_id db₂ profile db₃ e₃ k₂ in
    let k₄ = note-KeepsKnown _ _ _ _ db₃ v db₄ e₄ k₃ in subst IsKnown (same_state h₄) k₄

pub save-KeepsKnown :
    (name internet_mode : Text) (profile_id : Option ℕ)
    → KeepsKnown (save name internet_mode profile_id)
unfolding save
save-KeepsKnown name internet_mode profile_id db a db' h k =
    let (cleaned, db₁, e₁, h₁) = proceed-ok _ (lift (validate_name name) db) h in
    let (mode, db₂, e₂, h₂) = proceed-ok _ (lift (validate_mode internet_mode) db₁) h₁ in
    let k₁ = lift-Keeps IsKnown (validate_name name) db cleaned db₁ e₁ k in
    let k₂ = lift-Keeps IsKnown (validate_mode internet_mode) db₁ mode db₂ e₂ k₁ in
    save_session-KeepsKnown cleaned mode profile_id db₂ a db' h₂ k₂

pub unassign-KeepsKnown : (profile_id device_id : ℕ) → KeepsKnown (unassign profile_id device_id)
unfolding unassign remove_assignment
unassign-KeepsKnown profile_id device_id db a db' h k =
    let (assignment, db₂, e₂, h₂) =
      proceed-ok _ (require (get_assignment device_id db) validation_error db) h in
    let (u, db₃, e₃, h₃) =
      proceed-ok _ (raise_when (not (assignment.profile_id == profile_id)) validation_error db₂)
        h₂ in
    let (device, db₅, e₅, h₅) =
      proceed-ok _ (require (get_device device_id db₃) attribute_error db₃) h₃ in
    let k₂ = require-Keeps IsKnown _ _ db assignment db₂ e₂ k in
    let k₃ = raise_when-Keeps IsKnown _ _ db₂ u db₃ e₃ k₂ in
    let k₅ = require-Keeps IsKnown _ _ db₃ device db₅ e₅ k₃ in
    note-KeepsKnown _ _ _ _ (remove_assignment device_id db₅) a db' h₅
      (known-keep db₅.groups _ db₅.assignments k₅)

-- The profile that `require_group` returns is there, and nothing has changed.
require_group-has_group :
    (id : ℕ) (db : Database) (profile : PolicyGroup) (db₁ : Database)
    → require_group id db ≡ ok (profile, db₁)
    → (db ≡ db₁) × (has_group db.groups profile.id ≡ true) × (profile.id ≡ id)
unfolding require_group
require_group-has_group id db profile db₁ h = elim (Option-cases (get_group id db)) [
  | inl e ↦ absurd (err_not_ok (rw e at h))
  | inr (g, e) ↦
      let h' : returned g db ≡ returned profile db₁ = rw e at h in
      let same = ap (λ p. p.0) (ok_injective h') in
      let test = find-test (λ (g : PolicyGroup). g.id == id) db.groups e in
      let here : g.id ≡ id = (eq_iff g.id id).0 test in
      (
        same_state h',
        subst (λ (p : PolicyGroup). has_group db.groups p.id ≡ true) same
            (rw here
              (sym (is_some-find (λ (g : PolicyGroup). g.id == id) db.groups) ∙ ap is_some e)),
        sym (ap (λ (p : PolicyGroup). p.id) same) ∙ here,
      )
]

-- An event does not matter to what is known after a removal.
note_removed-IsKnown :
    (id : ℕ) (event_type description : Text) (mac metadata : Option Text) (db db' : Database)
    (u : Unit {0})
    → note event_type description mac metadata db ≡ ok (u, db')
    → IsKnown (remove_group id db)
    → IsKnown (remove_group id db')
unfolding note remove_group
note_removed-IsKnown id event_type description mac metadata db db' u h k =
    subst (λ d. IsKnown (remove_group id d)) (same_state h) k

pub delete-KeepsKnown : (profile_id : ℕ) → KeepsKnown (delete profile_id)
unfolding delete remove_group
delete-KeepsKnown profile_id db a db' h k =
    let (profile, db₁, e₁, h₁) = proceed-ok _ (require_group profile_id db) h in
    let (u, db₃, e₃, h₃) =
      proceed-ok _ (raise_when (is_assigned profile_id db₁) validation_error db₁) h₁ in
    let (v, db₄, e₄, h₄) = proceed-ok _ (note _ _ _ _ db₃) h₃ in
    let k₁ = require_group-KeepsKnown profile_id db profile db₁ e₁ k in
    let (free, same) = raise_when-ok (is_assigned profile_id db₁) validation_error e₃ in
    let k₃ = known-remove profile_id db₁.groups db₁.assignments free k₁ in
    let k₄ : IsKnown (remove_group profile_id db₃) =
      subst (λ d. IsKnown (remove_group profile_id d)) same k₃ in
    let k₅ = note_removed-IsKnown profile_id _ _ _ _ db₃ db₄ v e₄ k₄ in
    subst IsKnown (same_state h₄) k₅

add_new-KeepsKnown :
    (profile : PolicyGroup) (device : Device) (db : Database) (db' : Database) (u : Unit {0})
    → add_new profile device db ≡ ok (u, db')
    → has_group db.groups profile.id ≡ true
    → IsKnown db
    → IsKnown db'
unfolding add_new
add_new-KeepsKnown profile device db db' u h there k =
    note-KeepsKnown _ _ _ _
      (record db {
        assignments =
            db.assignments ++ (record { device_id = device.id; profile_id = profile.id } ∷ []);
      })
      u db' h (known-append db.groups db.assignments _ there k)

pub assign-KeepsKnown : (profile_id device_id : ℕ) → KeepsKnown (assign profile_id device_id)
unfolding assign
assign-KeepsKnown profile_id device_id db a db' h k =
    let (profile, db₁, e₁, h₁) = proceed-ok _ (require_group profile_id db) h in
    let (same, there, _) = require_group-has_group profile_id db profile db₁ e₁ in
    let k₁ = require_group-KeepsKnown profile_id db profile db₁ e₁ k in
    let there₁ : has_group db₁.groups profile.id ≡ true =
      subst (λ d. has_group d.groups profile.id ≡ true) same there in
    let (device, db₂, e₂, h₂) =
      proceed-ok _ (require (get_device device_id db₁) validation_error db₁) h₁ in
    let k₂ = require-Keeps IsKnown _ _ db₁ device db₂ e₂ k₁ in
    let there₂ : has_group db₂.groups profile.id ≡ true =
      subst (λ d. has_group d.groups profile.id ≡ true) ((require-ok _ _ e₂).1) there₁ in
    elim (Option-cases (get_assignment device_id db₂)) [
      | inl e ↦ add_new-KeepsKnown profile device db₂ db' a (rw e at h₂) there₂ k₂
      | inr (old, e) ↦ elim (Bool-cases (old.profile_id == profile_id)) [
        | inl t ↦ subst IsKnown (same_state (rw (e, t) at h₂)) k₂
        | inr t ↦ absurd (err_not_ok (rw (e, t) at h₂))
      ]
    ]
