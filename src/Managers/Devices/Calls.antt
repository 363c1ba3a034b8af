-- ===== src/Managers/Devices/Calls.antt =====
-- Sequences of calls of `DeviceManager`.
use net_father.Prelude.{
  ℕ, refl, Bool, not, text_eq_instance, nat_eq, Option, is_some, List, [], ◌∷◌, if◌then◌else◌, Text,
  validation_error, duplicate_device,
}
use net_father.Database.{Database}
use net_father.Database.Session.{pure, lift, raise_when, note, session}
use net_father.Database.Keeps.{
  Keeps, bind-Keeps, pure-Keeps, if-Keeps, lift-Keeps, read-Keeps, raise_when-Keeps, session-Keeps,
  modify-Keeps,
}
use net_father.Prelude.Int.{ℤ}
use net_father.Net.Addresses.{IpLibrary}
use net_father.Net.Hosts.{DiscoveredHost}
use net_father.Managers.Devices.Find.{
  has_text, find_by_name, require_by_name, find_by_mac, checked_mac, checked_name, remove_device,
}
use net_father.Managers.Devices.Seen.{
  update_last_seen-Keeps, update_presence-Keeps, sync_loop-Keeps,
}
use net_father.Managers.Devices.Sync.{sync_discovered_hosts}
use net_father.Managers.Devices.Reconcile.{reconcile_discovery}
use net_father.Managers.Devices.Scanned.{reconcile_discovery-Keeps}
use net_father.Managers.Devices.Edited.{update_device-Keeps}
use net_father.Managers.Devices.Observations.{JsonTexts, or_empty, record_manual_observation}
use net_father.Managers.Devices.Keys.{require_by_name-Ensures, note-HasKeys}
use net_father.Managers.Devices.Stable.{record_manual_observation-Keeps}
use net_father.Managers.Devices.Distinct.{
  Distinct, stable-Keeps, create-Keeps, find_by_mac-Distinct, remove_device-Distinct,
}
use net_father.Managers.Devices.Edit.{
  added_device, add_session, add_device, DeviceChanges, update_device, update_last_seen,
  update_presence, delete_device, is_expected,
}

add_session-Keeps :
    (vendors : Option (Text → Option Text)) (now : ℕ) (name mac : Text) (ip vendor : Option Text)
    (t : Text)
    → Keeps Distinct (add_session vendors now name mac ip vendor t)
unfolding add_session
add_session-Keeps vendors now name mac ip vendor t =
    bind-Keeps Distinct (find_by_name name) _ (read-Keeps Distinct _) (λ same.
      bind-Keeps Distinct (raise_when (is_some same) duplicate_device) _
        (raise_when-Keeps Distinct _ _)
        (λ _. bind-Keeps Distinct (find_by_mac mac) _ (find_by_mac-Distinct mac) (λ known.
          bind-Keeps Distinct (raise_when (is_some known) duplicate_device) _
            (raise_when-Keeps Distinct _ _)
            (λ _.
              bind-Keeps Distinct (lift (checked_name name)) _
                (lift-Keeps Distinct (checked_name name))
                (λ cleaned.
                  create-Keeps (added_device vendors now cleaned mac ip vendor t) duplicate_device _
                    (λ n. refl)
                    (λ id.
                      bind-Keeps Distinct
                        (if has_text ip
                          then record_manual_observation id (or_empty ip) now
                          else pure tt)
                        _
                        (if-Keeps Distinct (has_text ip) _ _
                          (stable-Keeps _
                            (λ ks u. record_manual_observation-Keeps ks id (or_empty ip) now))
                          (pure-Keeps Distinct tt))
                        (λ _.
                          pure-Keeps Distinct
                            (added_device vendors now cleaned mac ip vendor t id))))))))

add_device-Keeps :
    (vendors : Option (Text → Option Text)) (now : ℕ) (name mac : Text) (ip vendor : Option Text)
    (t : Text)
    → Keeps Distinct (add_device vendors now name mac ip vendor t)
unfolding add_device
add_device-Keeps vendors now name mac ip vendor t =
    bind-Keeps Distinct (lift (checked_mac mac)) _ (lift-Keeps Distinct (checked_mac mac))
      (λ normalized. add_session-Keeps vendors now name normalized ip vendor t)

delete_device-Keeps :
    (name : Text) (expected : Option ℕ) → Keeps Distinct (delete_device name expected)
unfolding delete_device
delete_device-Keeps name expected =
    bind-Keeps Distinct (require_by_name name) _
      (stable-Keeps (require_by_name name)
        (λ ks u db d db' h k. (require_by_name-Ensures ks name u db d db' h k).0))
      (λ d.
        bind-Keeps Distinct (raise_when (not (is_expected expected d)) validation_error) _
          (raise_when-Keeps Distinct _ _)
          (λ _.
            bind-Keeps Distinct (note _ _ _ _) _ (stable-Keeps _ (λ ks u. note-HasKeys ks _ _ _ _))
              (λ _. modify-Keeps Distinct (remove_device d.id) (remove_device-Distinct d.id))))

-- A call of a method that changes the tables.
pub data DeviceCall : Type 0 where
  adding : Text → Text → Option Text → Option Text → Text → DeviceCall
  seeing : Text → Option Text → DeviceCall
  updating : Text → DeviceChanges → DeviceCall
  presenting : Text → Bool → Option Text → DeviceCall
  syncing : List DiscoveredHost → DeviceCall
  reconciling : Bool → ℤ → Bool → List DiscoveredHost → DeviceCall
  deleting : Text → Option ℕ → DeviceCall

module _ (vendors : Option (Text → Option Text)) (lib : IpLibrary) (json : JsonTexts) where
  -- The tables after a call at a moment, whether it returned or raised.
  unfoldable pub call : ℕ × DeviceCall → Database → Database
  call (now, adding name mac ip vendor t) db =
      (session (add_device vendors now name mac ip vendor t) db).1
  call (now, seeing mac ip) db = (session (update_last_seen now mac ip) db).1
  call (now, updating name c) db = (session (update_device now name c) db).1
  call (now, presenting mac online ip) db = (session (update_presence now mac online ip) db).1
  call (now, syncing hosts) db = (session (sync_discovered_hosts json now hosts) db).1
  call (now, reconciling register offline_after mark hosts) db =
      (session (reconcile_discovery vendors lib json now register offline_after mark hosts) db).1
  call (now, deleting name expected) db = (session (delete_device name expected) db).1

  unfoldable pub calls : List (ℕ × DeviceCall) → Database → Database
  calls [] db = db
  calls (c ∷ cs) db = calls cs (call c db)

  call-Distinct : (c : ℕ × DeviceCall) (db : Database) → Distinct db → Distinct (call c db)
  unfolding call sync_discovered_hosts
  call-Distinct (now, adding name mac ip vendor t) =
      session-Keeps Distinct _ (add_device-Keeps vendors now name mac ip vendor t)
  call-Distinct (now, seeing mac ip) =
      session-Keeps Distinct _ (stable-Keeps _ (λ ks. update_last_seen-Keeps ks now mac ip))
  call-Distinct (now, updating name c) = session-Keeps Distinct _ (update_device-Keeps now name c)
  call-Distinct (now, presenting mac online ip) =
      session-Keeps Distinct _ (stable-Keeps _ (λ ks. update_presence-Keeps ks now mac online ip))
  call-Distinct (now, syncing hosts) =
      session-Keeps Distinct _ (stable-Keeps _ (λ ks. sync_loop-Keeps ks json now hosts []))
  call-Distinct (now, reconciling register offline_after mark hosts) =
      session-Keeps Distinct _
        (reconcile_discovery-Keeps vendors lib json now register offline_after mark hosts)
  call-Distinct (now, deleting name expected) =
      session-Keeps Distinct _ (delete_device-Keeps name expected)

  -- From tables in which the devices have distinct numbers, names and hardware addresses, they
  -- have them after any calls of the inventory at any moments, whether these return or raise.
  pub calls-Distinct :
      (cs : List (ℕ × DeviceCall)) (db : Database) → Distinct db → Distinct (calls cs db)
  unfolding calls
  calls-Distinct [] db u = u
  calls-Distinct (c ∷ cs) db u = calls-Distinct cs (call c db) (call-Distinct c db u)
