-- ===== src/Managers/Identities/Merge.antt =====
-- `merge` of manager/identity_manager.py: one device takes over the evidence of another one.
use net_father.Prelude.{
  ℕ, Bool, not, ◌&&◌, ◌||◌, none, some, List, [], ◌∷◌, ◌++◌, map, any, keep, find, take, ltb,
  is_some, ◌==◌, nat_eq, text_eq_instance, if◌then◌else◌, Text, validation_error, database_error,
}
use net_father.Prelude.Strings.{codes, decimal, is_empty, strip}
use net_father.Models.{Device}
use net_father.Models.Policies.{Profile, Rule}
use net_father.Models.Evidence.{
  DeviceObservationRecord, IdentityAlias, AddressEvidence, ServiceEvidence,
}
use net_father.Database.{Database, get_device, get_alias, get_assignment}
use net_father.Database.Session.{
  Session, pure, gets, require, lift, modify, raise_when, ◌>>=◌, ◌>>◌, note,
}
use net_father.Net.Mac.{normalize_identity}
use net_father.Managers.Devices.Find.{remove_device}

-- Both addresses are the expected ones, in their normal form.
unfoldable pub expected_macs : Device → Device → Text × Text → Session Bool
expected_macs retained candidate (first, second) = do
  a ← lift (normalize_identity first)
  b ← lift (normalize_identity second)
  pure (retained.mac == a && candidate.mac == b)

-- The device has a profile, a rule or an assignment.
unfoldable pub has_policy : ℕ → Database → Bool
has_policy id db =
    is_some (get_assignment id db)
    || (any (λ (p : Profile). p.device_id == id) db.profiles
        || any (λ (r : Rule). r.device_id == id) db.rules)

-- The bulk updates of `device_id`.
unfoldable pub move_rows : ℕ → ℕ → Database → Database
move_rows candidate_id retained_id db = record db {
  observations =
      map
        (λ (o : DeviceObservationRecord).
          if o.device_id == candidate_id then record o { device_id = retained_id } else o)
        db.observations;
  services =
      map
        (λ (s : ServiceEvidence).
          if s.device_id == candidate_id then record s { device_id = retained_id } else s)
        db.services;
  aliases =
      map
        (λ (a : IdentityAlias).
          if a.device_id == candidate_id then record a { device_id = retained_id } else a)
        db.aliases;
}

abbrev is_same_path : ℕ → AddressEvidence → AddressEvidence → Bool
is_same_path device_id path e =
    e.device_id == device_id && (e.ip == path.ip && e.interface == path.interface)

abbrev earlier : ℕ → ℕ → ℕ
earlier a b = if ltb b a then b else a

abbrev later : ℕ → ℕ → ℕ
later a b = if ltb a b then b else a

-- The rows of a path that both devices have become one, which covers the times of both.
unfoldable pub absorb_path :
    AddressEvidence → AddressEvidence → List AddressEvidence → List AddressEvidence
absorb_path existing path addresses =
    map
      (λ (e : AddressEvidence).
        if e.id == existing.id
        then record existing {
          first_seen = earlier existing.first_seen path.first_seen;
          last_seen = later existing.last_seen path.last_seen;
        }
        else e)
      (keep (λ (e : AddressEvidence). not (e.id == path.id)) addresses)

unfoldable pub give_path : ℕ → AddressEvidence → List AddressEvidence → List AddressEvidence
give_path retained_id path addresses =
    map
      (λ (e : AddressEvidence). if e.id == path.id then record e { device_id = retained_id } else e)
      addresses

unfoldable pub move_path : ℕ → AddressEvidence → List AddressEvidence → List AddressEvidence
move_path retained_id path addresses = elim (find (is_same_path retained_id path) addresses) [
  | none ↦ give_path retained_id path addresses
  | some existing ↦ absorb_path existing path addresses
]

-- The loop over the candidate's paths.
unfoldable pub move_paths : ℕ → List AddressEvidence → List AddressEvidence → List AddressEvidence
move_paths retained_id [] addresses = addresses
move_paths retained_id (path ∷ paths) addresses =
    move_paths retained_id paths (move_path retained_id path addresses)

abbrev pub move_addresses : ℕ → ℕ → Database → Database
move_addresses candidate_id retained_id db = record db {
  addresses =
      move_paths retained_id
        (keep (λ (e : AddressEvidence). e.device_id == candidate_id) db.addresses) db.addresses;
}

abbrev pub add_alias : IdentityAlias → Database → Database
add_alias a db = record db { aliases = db.aliases ++ (a ∷ []) }

-- `session.add(alias)`: an alias of this address that is there violates the primary key.
unfoldable pub insert_alias : IdentityAlias → Session (Unit {0})
insert_alias a = do
  taken ← gets (λ db. is_some (get_alias a.mac db))
  raise_when taken database_error
  modify (add_alias a)

-- The rows move, and the candidate goes.
unfoldable pub merge_rows : Device → Device → Text → Session (Unit {0})
merge_rows retained candidate reason = do
  modify (move_rows candidate.id retained.id)
  modify (move_addresses candidate.id retained.id)
  insert_alias
      (record { mac = candidate.mac; device_id = retained.id; reason = take 512 (strip reason) })
  note (codes "identity_merged")
      (take 512 (
        codes "Manually linked "
        ++ (candidate.mac
            ++ (codes " to device " ++ (decimal retained.id ++ (codes ": " ++ reason))))))
      (some retained.mac) none
  modify (remove_device candidate.id)

unfoldable pub merge_session : ℕ → ℕ → Text × Text → Text → Session (Unit {0})
merge_session retained_id candidate_id expected reason = do
  first ← gets (get_device retained_id)
  second ← gets (get_device candidate_id)
  retained ← require first validation_error
  candidate ← require second validation_error
  same ← expected_macs retained candidate expected
  raise_when (not same) validation_error
  raise_when (retained.online && candidate.online) validation_error
  raise_when (retained.identity_conflict || candidate.identity_conflict) validation_error
  managed ← gets (has_policy candidate.id)
  raise_when managed validation_error
  merge_rows retained candidate reason

unfoldable pub merge : ℕ → ℕ → Text × Text → Text → Bool → Session (Unit {0})
merge retained_id candidate_id expected reason confirmed = do
  raise_when (not confirmed || retained_id == candidate_id || is_empty (strip reason))
      validation_error
  merge_session retained_id candidate_id expected reason
