-- ===== src/Managers/Identities.antt =====
-- manager/identity_manager.py: the review of device identities.
pub mod Merge
pub mod Split
pub mod Searches
pub mod Linked
use net_father.Prelude.{
  ℕ, ◌/◌, ◌%◌, Bool, true, false, not, ◌&&◌, ◌||◌, Option, none, some, List, [], ◌∷◌, ltb, eqb,
  ◌==◌, nat_eq, text_eq_instance, option_eq_instance, if◌then◌else◌, Text, Result, ok, err,
  value_error, ◌>>=◌, ◌++◌,
}
use net_father.Prelude.Int.{ℤ, pos, negsuc}
use net_father.Prelude.Sorting.{sort}
use net_father.Prelude.Strings.{codes, split, text_before}
use net_father.Models.{Device}
use net_father.Database.{Database}
use net_father.Net.Mac.{normalize_identity, hex_int}
use net_father.Managers.Devices.Find.{has_text, list_devices}

-- `value & 2`
abbrev second_bit : ℤ → Bool
second_bit (pos n) = eqb (n / 2 % 2) 1
second_bit (negsuc n) = eqb (n / 2 % 2) 0

abbrev first_part : List Text → Text
first_part [] = []
first_part (part ∷ parts) = part

unfoldable pub randomized_mac : Text → Result Bool
randomized_mac mac = do
  normalized ← normalize_identity mac
  elim (hex_int (first_part (split b':' normalized))) [
    | none ↦ err value_error
    | some value ↦ ok (second_bit value)
  ]

pub record IdentityCandidate : Type 0 where
  pub retained_id : ℕ
  pub candidate_id : ℕ
  pub reason : Text
  pub confidence : ℕ

abbrev left_before : Option ℕ → ℕ → Bool
left_before none created_at = false
left_before (some t) created_at = ltb t created_at

-- The tests of the loop body after the first `continue`.
unfoldable pub looks_same : Device → Device → Bool
looks_same old new =
    (old.hostname == new.hostname && old.vendor == new.vendor && has_text old.vendor)
    && (left_before old.last_seen new.created_at && not old.online)

unfoldable pub candidate_of : Device → Device → Result (List IdentityCandidate)
candidate_of old new =
    if old.id == new.id
    then ok []
    else randomized_mac new.mac >>= λ randomized.
        if randomized && has_text old.hostname && looks_same old new
        then ok (
            record {
              retained_id = old.id;
              candidate_id = new.id;
              reason =
                  codes
                    "Same hostname/vendor after a locally administered MAC change; manual verification required.";
              confidence = 50;
            }
            ∷ [])
        else ok []

unfoldable pub candidates_of : Device → List Device → Result (List IdentityCandidate)
candidates_of old [] = ok []
candidates_of old (new ∷ others) = do
  here ← candidate_of old new
  rest ← candidates_of old others
  ok (here ++ rest)

unfoldable pub all_candidates : List Device → List Device → Result (List IdentityCandidate)
all_candidates [] devices = ok []
all_candidates (old ∷ others) devices = do
  here ← candidates_of old devices
  rest ← all_candidates others devices
  ok (here ++ rest)

unfoldable pub candidates : Database → Result (List IdentityCandidate)
candidates db = let devices = list_devices db in all_candidates devices devices
