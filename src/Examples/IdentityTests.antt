-- ===== src/Examples/IdentityTests.antt =====
-- The theorem on merging identities at a small input.
use net_father.Prelude.{◌≡◌, refl, true, false, none, some, [], ◌∷◌, ok, Text}
use net_father.Prelude.Strings.{codes}
use net_father.Models.{Device}
use net_father.Database.{Database, get_device}
use net_father.Database.Session.{session}
use net_father.Managers.Devices.Distinct.{Distinct}
use net_father.Managers.Identities.Merge.{merge}
use net_father.Managers.Identities.Linked.{IsMerged, merge-IsMerged}
use net_father.Examples.{tablet, home}

-- The tablet under an address that it had before.
abbrev old_tablet : Device
old_tablet = record tablet {
  id = 2;
  name = codes "old tablet";
  mac = codes "02:00:00:00:00:02";
  ip = none;
  online = false;
}

abbrev two : Database
two = record home { devices = tablet ∷ old_tablet ∷ [] }

abbrev macs : Text × Text
macs = (codes "02:00:00:00:00:01", codes "02-00-00-00-00-02")

abbrev two_merged : Database
two_merged = (session (merge 1 2 macs (codes "same tablet") true) two).1

two-merged : merge 1 2 macs (codes "same tablet") true two ≡ ok (tt, two_merged)
unfolding merge net_father.Prelude.Strings.strip net_father.Managers.Identities.Merge.merge_session
    net_father.Prelude.find net_father.Managers.Identities.Merge.expected_macs
    net_father.Net.Mac.normalize_identity net_father.Prelude.Strings.split
    net_father.Prelude.Strings.replace net_father.Prelude.Strings.upper net_father.Prelude.all
    net_father.Net.Mac.hex_int net_father.Net.Mac.hex_digits net_father.Prelude.text_eq
    net_father.Prelude.Strings.join net_father.Managers.Identities.Merge.has_policy
    net_father.Prelude.any net_father.Managers.Identities.Merge.merge_rows
    net_father.Database.Session.note net_father.Database.fresh_id net_father.Database.greatest
    net_father.Managers.Devices.Find.remove_device net_father.Managers.Identities.Merge.absorb_path
    net_father.Managers.Identities.Merge.give_path net_father.Managers.Identities.Merge.insert_alias
    net_father.Managers.Identities.Merge.move_path net_father.Managers.Identities.Merge.move_paths
    net_father.Managers.Identities.Merge.move_rows session net_father.Net.Mac.hex_body
    net_father.Prelude.keep net_father.Prelude.Strings.is_space net_father.Prelude.Strings.lstrip
    net_father.Prelude.Strings.rstrip net_father.Prelude.Strings.to_upper
    net_father.Prelude.Strings.decimal net_father.Prelude.Strings.decimal_from
two-merged = refl

two-Distinct : Distinct two
unfolding net_father.Prelude.text_eq
two-Distinct = record {
  ids = ((refl, tt), (tt, tt));
  names = ((refl, tt), (tt, tt));
  macs = ((refl, tt), (tt, tt));
}

merge-IsMerged_example :
    (retained : Device) × (candidate : Device) × (get_device 2 two ≡ some candidate)
    × IsMerged 1 retained candidate two two_merged
merge-IsMerged_example =
    merge-IsMerged 1 2 macs (codes "same tablet") true two tt two_merged two-merged two-Distinct
