-- ===== src/Managers/Identities/Linked.antt =====
-- What a merge leaves: the address of the candidate leads to the retained device.
use net_father.Prelude.{
  ℕ, ◌≡◌, refl, sym, ap, ◌∙◌, subst, Bool, false, not, ◌&&◌, ◌||◌, ◌==◌, eq_iff, eq_refl, nat_eq,
  text_eq_instance, Option, none, some, is_some, List, [], ◌∷◌, ◌++◌, any, is_some-find, keep, find,
  find-none, find-test, find-In, subst₂, validation_error, take, Text, ok, database_error, In,
  arith,
}
use net_father.Prelude.Strings.{codes, decimal, is_empty, strip}
use net_father.Models.{Device, Event}
use net_father.Models.Policies.{Profile, Rule, ProfileAssignment}
use net_father.Models.Evidence.{IdentityAlias}
use net_father.Managers.Devices.Distinct.{Distinct}
use net_father.Database.{Database, get_device, get_alias}
use net_father.Database.Session.{require, lift, raise_when, note, add_event, proceed-ok}
use net_father.Database.Keeps.{same_state, raise_when-ok, require-ok, lift-ok}
use net_father.Net.Mac.{normalize_identity}
use net_father.Managers.Devices.Find.{device_of_mac, remove_device}
use net_father.Managers.Identities.Merge.{
  move_rows, move_addresses, insert_alias, add_alias, merge_rows, merge_session, merge,
  expected_macs, has_policy,
}
use net_father.Managers.Identities.Searches.{keep-none, find-keep, find-last, mac-gone}

-- Nothing is left of the candidate, and its address leads to the retained device; profiles, rules
-- and assignments are as they were.
pub record IsMerged (retained_id : ℕ) (retained candidate : Device) (db db' : Database)
    : Type 0 where
  pub target : device_of_mac candidate.mac db' ≡ some retained
  pub gone : get_device candidate.id db' ≡ none
  pub before : get_device retained_id db ≡ some retained
  pub kept : get_device retained_id db' ≡ some retained
  pub profiles : db'.profiles ≡ db.profiles
  pub rules : db'.rules ≡ db.rules
  pub assignments : db'.assignments ≡ db.assignments

get_device-gone :
    (id : ℕ) (ds : List Device)
    → find (λ (d : Device). d.id == id) (keep (λ (d : Device). not (d.id == id)) ds) ≡ none
unfolding find keep
get_device-gone id [] = refl
get_device-gone id (x ∷ ds) = ground (arith, get_device-gone id ds)

none_of : {A : Type 0} (o : Option A) → is_some o ≡ false → o ≡ none
none_of none h = refl
none_of (some x) h = absurd (cc h)

insert_alias-ok :
    (a : IdentityAlias) (db : Database) (u : Unit {0}) (db' : Database)
    → insert_alias a db ≡ ok (u, db')
    → (is_some (get_alias a.mac db) ≡ false) × (add_alias a db ≡ db')
unfolding insert_alias
insert_alias-ok a db u db' h =
    let (v, db₁, e, h₁) =
      proceed-ok _ (raise_when (is_some (get_alias a.mac db)) database_error db) h in
    let (t, same) = raise_when-ok (is_some (get_alias a.mac db)) database_error e in
    (t, ap (add_alias a) same ∙ same_state h₁)

no_policy :
    (id : ℕ) (db : Database)
    → has_policy id db ≡ false
    → (any (λ (a : ProfileAssignment). a.device_id == id) db.assignments ≡ false)
      × (any (λ (p : Profile). p.device_id == id) db.profiles ≡ false)
      × (any (λ (r : Rule). r.device_id == id) db.rules ≡ false)
unfolding has_policy
no_policy id db h =
    let e = is_some-find (λ (a : ProfileAssignment). a.device_id == id) db.assignments in
    (ground arith, ground arith, ground arith)

-- The tables that a merge writes, for any events.
abbrev absorbed : Device → Device → IdentityAlias → List Event → Database → Database
absorbed retained candidate a events db =
    remove_device candidate.id
      (record (add_alias a
        (move_addresses candidate.id retained.id (move_rows candidate.id retained.id db))) {
          events = events;
        })

absorbed-IsMerged :
    (retained candidate : Device) (a : IdentityAlias) (events : List Event) (db : Database)
    → Distinct db
    → In candidate db.devices
    → get_device retained.id db ≡ some retained
    → (retained.id == candidate.id) ≡ false
    → has_policy candidate.id db ≡ false
    → a.mac ≡ candidate.mac
    → a.device_id ≡ retained.id
    → is_some (
        get_alias a.mac
          (move_addresses candidate.id retained.id (move_rows candidate.id retained.id db)))
      ≡ false
    → IsMerged retained.id retained candidate db (absorbed retained candidate a events db)
unfolding move_rows remove_device device_of_mac
absorbed-IsMerged retained candidate a events db distinct m r other free am ad taken =
    let (na, np, nr) = no_policy candidate.id db free in
    let kept : get_device retained.id (absorbed retained candidate a events db) ≡ some retained =
      find-keep (λ (d : Device). d.id == retained.id) (λ (d : Device). not (d.id == candidate.id))
        db.devices (λ x e. ground arith)
      ∙ r in
    let no_device =
      find-none (λ (d : Device). d.mac == candidate.mac) _
        (mac-gone candidate db.devices m distinct.macs) in
    let alias : get_alias candidate.mac (absorbed retained candidate a events db) ≡ some a =
      find-last (λ (x : IdentityAlias). x.mac == candidate.mac)
        (λ (x : IdentityAlias). not (x.device_id == candidate.id)) _ a
        (none_of _ (
          subst
            (λ t.
              is_some (
                get_alias t
                  (move_addresses candidate.id retained.id (move_rows candidate.id retained.id db)))
              ≡ false)
            am taken))
        (rw am (eq_refl candidate.mac)) (rw (ad, other) refl) in
    record {
      target = rw (device_of_mac, no_device, alias, ad) kept;
      gone = get_device-gone candidate.id db.devices;
      before = r;
      kept = kept;
      profiles = keep-none (λ (p : Profile). p.device_id == candidate.id) db.profiles np;
      rules = keep-none (λ (r : Rule). r.device_id == candidate.id) db.rules nr;
      assignments =
          keep-none (λ (a : ProfileAssignment). a.device_id == candidate.id) db.assignments na;
    }

merge_rows-IsMerged :
    (retained candidate : Device) (reason : Text) (db : Database) (u : Unit {0}) (db' : Database)
    → merge_rows retained candidate reason db ≡ ok (u, db')
    → Distinct db
    → In candidate db.devices
    → get_device retained.id db ≡ some retained
    → (retained.id == candidate.id) ≡ false
    → has_policy candidate.id db ≡ false
    → IsMerged retained.id retained candidate db db'
unfolding merge_rows note
merge_rows-IsMerged retained candidate reason db u db' h distinct m r other free =
    let db₂ = move_addresses candidate.id retained.id (move_rows candidate.id retained.id db) in
    let a : IdentityAlias = record {
      mac = candidate.mac;
      device_id = retained.id;
      reason = take 512 (strip reason);
    } in
    let (v, db₃, e₃, h₃) = proceed-ok _ (insert_alias a db₂) h in
    let (t, same) = insert_alias-ok a db₂ v db₃ e₃ in
    let noted : Database → Database =
      add_event (codes "identity_merged")
        (take 512 (
          codes "Manually linked "
          ++ (candidate.mac
              ++ (codes " to device " ++ (decimal retained.id ++ (codes ": " ++ reason))))))
        (some retained.mac) (codes "info") none in
    subst (IsMerged retained.id retained candidate db)
      (ap (λ (x : Database). remove_device candidate.id (noted x)) same ∙ same_state h₃)
      (absorbed-IsMerged retained candidate a (noted (add_alias a db₂)).events db distinct m r other
        free refl refl t)

expected_macs-same :
    (retained candidate : Device) (expected : Text × Text) (db : Database) (b : Bool)
    (db' : Database)
    → expected_macs retained candidate expected db ≡ ok (b, db')
    → db ≡ db'
unfolding expected_macs
expected_macs-same retained candidate (first, second) db b db' h =
    let (x, db₁, e₁, h₁) = proceed-ok _ (lift (normalize_identity first) db) h in
    let (y, db₂, e₂, h₂) = proceed-ok _ (lift (normalize_identity second) db₁) h₁ in
    (lift-ok (normalize_identity first) e₁).1
    ∙ (lift-ok (normalize_identity second) e₂).1
    ∙ same_state h₂

-- The rows of a merge, by the numbers of the devices.
found-IsMerged :
    (retained_id candidate_id : ℕ) (retained candidate : Device) (reason : Text) (db : Database)
    (u : Unit {0}) (db' : Database)
    → merge_rows retained candidate reason db ≡ ok (u, db')
    → Distinct db
    → get_device retained_id db ≡ some retained
    → get_device candidate_id db ≡ some candidate
    → (retained_id == candidate_id) ≡ false
    → has_policy candidate.id db ≡ false
    → IsMerged retained_id retained candidate db db'
found-IsMerged retained_id candidate_id retained candidate reason db u db' h distinct r c other
      free =
    let i : retained.id ≡ retained_id =
      (eq_iff retained.id retained_id).0
        (find-test (λ (d : Device). d.id == retained_id) db.devices r) in
    let j : candidate.id ≡ candidate_id =
      (eq_iff candidate.id candidate_id).0
        (find-test (λ (d : Device). d.id == candidate_id) db.devices c) in
    subst (λ n. IsMerged n retained candidate db db') i
      (merge_rows-IsMerged retained candidate reason db u db' h distinct
        (find-In (λ (d : Device). d.id == candidate_id) db.devices c)
        (subst (λ n. get_device n db ≡ some retained) (sym i) r)
        (subst₂ (λ m n. (m == n) ≡ false) (sym i) (sym j) other) free)

merge_session-IsMerged :
    (retained_id candidate_id : ℕ) (expected : Text × Text) (reason : Text) (db : Database)
    (u : Unit {0}) (db' : Database)
    → merge_session retained_id candidate_id expected reason db ≡ ok (u, db')
    → Distinct db
    → (retained_id == candidate_id) ≡ false
    → (retained : Device) × (candidate : Device) × (get_device candidate_id db ≡ some candidate)
      × IsMerged retained_id retained candidate db db'
unfolding merge_session
merge_session-IsMerged retained_id candidate_id expected reason db u db' h distinct other =
    let (retained, db₁, e₁, h₁) =
      proceed-ok _ (require (get_device retained_id db) validation_error db) h in
    let (r, s₁) = require-ok (get_device retained_id db) validation_error e₁ in
    let (candidate, db₂, e₂, h₂) =
      proceed-ok _ (require (get_device candidate_id db) validation_error db₁) h₁ in
    let (c, s₂) = require-ok (get_device candidate_id db) validation_error e₂ in
    let (b, db₃, e₃, h₃) = proceed-ok _ (expected_macs retained candidate expected db₂) h₂ in
    let s₃ = expected_macs-same retained candidate expected db₂ b db₃ e₃ in
    let (v₄, db₄, e₄, h₄) = proceed-ok _ (raise_when (not b) validation_error db₃) h₃ in
    let (_, s₄) = raise_when-ok (not b) validation_error e₄ in
    let (v₅, db₅, e₅, h₅) =
      proceed-ok _ (raise_when (retained.online && candidate.online) validation_error db₄) h₄ in
    let (_, s₅) = raise_when-ok (retained.online && candidate.online) validation_error e₅ in
    let (v₆, db₆, e₆, h₆) =
      proceed-ok _
        (raise_when (retained.identity_conflict || candidate.identity_conflict) validation_error
          db₅)
        h₅ in
    let (_, s₆) =
      raise_when-ok (retained.identity_conflict || candidate.identity_conflict) validation_error
        e₆ in
    let (v₇, db₇, e₇, h₇) =
      proceed-ok _ (raise_when (has_policy candidate.id db₆) validation_error db₆) h₆ in
    let (free, s₇) = raise_when-ok (has_policy candidate.id db₆) validation_error e₇ in
    let s = s₁ ∙ s₂ ∙ s₃ ∙ s₄ ∙ s₅ ∙ s₆ ∙ s₇ in
    (
      retained,
      candidate,
      c,
      found-IsMerged retained_id candidate_id retained candidate reason db u db'
          (subst (λ x. merge_rows retained candidate reason x ≡ ok (u, db')) (sym s) h₇) distinct r
          c other
          (subst (λ x. has_policy candidate.id x ≡ false) (sym (s₁ ∙ s₂ ∙ s₃ ∙ s₄ ∙ s₅ ∙ s₆)) free),
    )

-- Where a merge returns, from devices with distinct numbers, names and addresses, both devices
-- were there, the candidate is gone, its address leads to the retained device, whose row is as it
-- was, and profiles, rules and assignments are as they were.
pub merge-IsMerged :
    (retained_id candidate_id : ℕ) (expected : Text × Text) (reason : Text) (confirmed : Bool)
    (db : Database) (u : Unit {0}) (db' : Database)
    → merge retained_id candidate_id expected reason confirmed db ≡ ok (u, db')
    → Distinct db
    → (retained : Device) × (candidate : Device) × (get_device candidate_id db ≡ some candidate)
      × IsMerged retained_id retained candidate db db'
unfolding merge
merge-IsMerged retained_id candidate_id expected reason confirmed db u db' h distinct =
    let refused = not confirmed || retained_id == candidate_id || is_empty (strip reason) in
    let (v, db₁, e₁, h₁) = proceed-ok _ (raise_when refused validation_error db) h in
    let (t, same) = raise_when-ok refused validation_error e₁ in
    let other : (retained_id == candidate_id) ≡ false = ground arith in
    let (retained, candidate, found, linked) =
      merge_session-IsMerged retained_id candidate_id expected reason db₁ u db' h₁
        (subst Distinct same distinct) other in
    (
      retained,
      candidate,
      subst (λ x. get_device candidate_id x ≡ some candidate) (sym same) found,
      subst (λ x. IsMerged retained_id retained candidate x db') (sym same) linked,
    )
