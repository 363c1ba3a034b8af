-- ===== src/Policy/Service.antt =====
-- manager/policy_service.py: the snapshot that the pages show.
pub mod Counts
use net_father.Prelude.{
  ℕ, Bool, true, false, not, List, [], ◌∷◌, count, dedupe, text_eq_instance, Text, Result, ok, err,
  ◌>>=◌,
}
use net_father.Prelude.Sorting.{sort}
use net_father.Prelude.Strings.{text_before}
use net_father.Database.{Database}
use net_father.Net.Addresses.{IpLibrary}
use net_father.Schedules.Zones.{Zones}
use net_father.Policy.Engine.{DevicePolicy, blocked_list, evaluate_all}

pub record PolicySnapshot : Type 0 where
  pub devices : List DevicePolicy
  pub allowed : ℕ
  pub blocked : ℕ
  pub online : ℕ
  pub blocked_ips : List Text

unfoldable pub snapshot_of : List DevicePolicy → PolicySnapshot
snapshot_of policies = record {
  devices = policies;
  allowed = count (λ (p : DevicePolicy). p.allowed) policies;
  blocked = count (λ (p : DevicePolicy). not p.allowed) policies;
  online = count (λ (p : DevicePolicy). p.online) policies;
  blocked_ips = sort text_before (dedupe (blocked_list policies));
}

module _ {Zone : Type 0} (zones : Zones Zone) (lib : IpLibrary) where
  unfoldable pub refresh : Database → ℕ → Result PolicySnapshot
  refresh db when = do policies ← evaluate_all zones lib db when; ok (snapshot_of policies)
