-- ===== src/Managers/Devices/Conflicts.antt =====
-- `_check_address_conflicts` of manager/device_manager.py.
use net_father.Prelude.{
  ℕ, true, ◌&&◌, Option, none, some, List, [], ◌∷◌, ◌++◌, length, leb, contains, ◌==◌, nat_eq,
  text_eq_instance, if◌then◌else◌, Text,
}
use net_father.Prelude.Strings.{codes}
use net_father.Models.{Device}
use net_father.Database.{get_device}
use net_father.Database.Session.{Session, pure, gets, modify, ◌>>=◌, ◌>>◌, add_event}
use net_father.Managers.Devices.Find.{has_text, find_by_mac, write_device, each_do}

-- An entry of `claims`: an address, and the ids of the devices that claim it.
pub record Claim : Type 0 where
  pub address : Text
  pub holders : List ℕ

-- `claims.setdefault(address, {})[id] = device`
unfoldable pub add_claim : Text → ℕ → List Claim → List Claim
add_claim address id [] = record { address = address; holders = id ∷ [] } ∷ []
add_claim address id (c ∷ claims) =
    let rest = add_claim address id claims in
    if c.address == address
    then (if contains id c.holders then c else record c { holders = c.holders ++ (id ∷ []) })
      ∷ claims
    else c ∷ rest

abbrev claim_of : Device → List Claim → List Claim
claim_of device claims =
    if device.online && has_text device.ip then claim_text device.ip claims else claims
  where
    claim_text : Option Text → List Claim → List Claim
    claim_text none claims = claims
    claim_text (some ip) claims = add_claim ip device.id claims

-- The claims of the devices that are online.
unfoldable pub online_claims : List Device → List Claim → List Claim
online_claims [] claims = claims
online_claims (d ∷ devices) claims = online_claims devices (claim_of d claims)

-- The claims that the caller adds.
unfoldable pub extra_claims : List (Text × Text) → List Claim → Session (List Claim)
extra_claims [] claims = pure claims
extra_claims ((ip, mac) ∷ others) claims = do
  found ← find_by_mac mac
  elim found [
    | none ↦ extra_claims others claims
    | some device ↦ extra_claims others (add_claim ip device.id claims)
  ]

abbrev conflict_text : Text → Text → Text
conflict_text address rest = codes "Multiple online identities claim " ++ (address ++ rest)

-- One device of a conflict: the first time there is an event too.
unfoldable pub flag_device : Text → Device → Session (Unit {0})
flag_device address device = do
  let flagged : Device = record device {
    identity_conflict = true;
    identity_note = some (conflict_text address (codes "; review required."));
  }
  let event : Session (Unit {0}) = modify (
      add_event (codes "identity_conflict")
        (conflict_text address (codes "; enforcement excluded.")) (some device.mac)
        (codes "warning") none)
  if device.identity_conflict then pure tt else event
  modify (write_device flagged)

unfoldable pub flag_id : Text → ℕ → Session (Unit {0})
flag_id address id = do
  found ← gets (get_device id)
  elim found [ none ↦ pure tt | some device ↦ flag_device address device ]

unfoldable pub flag_claim : Claim → Session (Unit {0})
flag_claim c = if leb 2 (length c.holders) then each_do (flag_id c.address) c.holders else pure tt

unfoldable pub check_address_conflicts : List (Text × Text) → Session (Unit {0})
check_address_conflicts extra = do
  own ← gets (λ db. online_claims db.devices [])
  claims ← extra_claims extra own
  each_do flag_claim claims
