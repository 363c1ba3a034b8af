-- ===== src/Managers/Devices/Scanned.antt =====
-- `reconcile_discovery` keeps names, addresses and numbers distinct.
use net_father.Prelude.{
  ℕ, ◌+◌, ◌≡◌, refl, sym, subst, Bool, true, false, Option, none, some, List, [], ◌∷◌, ◌++◌, map,
  All, Text, ok, database_error, Option-cases, inl, inr,
}
use net_father.Prelude.Int.{ℤ}
use net_father.Prelude.Strings.{codes}
use net_father.Models.{Device}
use net_father.Database.{Database}
use net_father.Database.Session.{pure, gets, lift, modify, note, proceed-ok}
use net_father.Database.Keeps.{Keeps, bind-Keeps, pure-Keeps, if-Keeps, lift-Keeps, read-Keeps}
use net_father.Net.Addresses.{IpLibrary}
use net_father.Net.Hosts.{DiscoveredHost}
use net_father.Managers.Devices.Find.{column_name, find_by_mac, write_device}
use net_father.Managers.Devices.Conflicts.{check_address_conflicts}
use net_father.Managers.Devices.Observations.{JsonTexts}
use net_father.Managers.Devices.Names.{auto_name}
use net_father.Managers.Devices.Keys.{
  Key, key, keys, HasKeys, HasRow, IsRow, IsDistinct, find_by_mac-Ensures, write-Keeps,
  note-HasKeys, rows,
}
use net_father.Managers.Devices.Stable.{
  each_do-Keeps, check_address_conflicts-Keeps, record_observation-Keeps,
}
use net_father.Managers.Devices.Seen.{then-Keeps, when-Keeps, unless-Keeps, ip_changed-Keeps}
use net_father.Managers.Devices.Distinct.{
  Distinct, stable-Keeps, create-Keeps, find_by_mac-Distinct,
}
use net_father.Managers.Devices.Edit.{ip_changed}
use net_father.Managers.Devices.Sync.{confirmed_mac, is_moved}
use net_father.Managers.Devices.Reconcile.{
  Group, paths, add_path, known_mac, group_hosts, refreshed, refresh_device, found_device,
  register_device, Progress, observe_paths, chosen, reconcile_new, reconcile_known, reconcile_found,
  reconcile_group, reconcile_groups, grace, is_gone, mark_gone, mark_missing, path_claims,
  reconcile_discovery,
}

group_hosts-Keeps :
    (hosts : List DiscoveredHost) (groups : List Group) → Keeps Distinct (group_hosts hosts groups)
unfolding group_hosts
group_hosts-Keeps [] groups = pure-Keeps Distinct groups
group_hosts-Keeps (host ∷ hosts) groups = elim (Option-cases (confirmed_mac host)) [
  | inl e ↦ rw (group_hosts, e) (group_hosts-Keeps hosts groups)
  | inr (mac, e) ↦
      rw (group_hosts, e)
        (bind-Keeps Distinct (find_by_mac mac)
          (λ known. group_hosts hosts (add_path (known_mac known mac) host groups))
          (find_by_mac-Distinct mac) (λ known. group_hosts-Keeps hosts _))
]

refresh_device-Keeps :
    (ks : List Key) (now : ℕ) (d : Device) (host : DiscoveredHost)
    → IsRow ks (key d)
    → Keeps (HasKeys ks) (refresh_device now d host)
unfolding refresh_device refreshed
refresh_device-Keeps ks now d host r =
    then-Keeps ks (modify (write_device (refreshed now d host))) _
      (write-Keeps ks (refreshed now d host) r)
      (then-Keeps ks _ _
        (when-Keeps ks (is_moved d.ip host.ip) (ip_changed d d.ip host.ip)
          (ip_changed-Keeps ks d d.ip host.ip))
        (unless-Keeps ks d.online (note _ _ _ _) (note-HasKeys ks _ _ _ _)))

note-Distinct :
    (event_type description : Text) (mac metadata : Option Text)
    → Keeps Distinct (note event_type description mac metadata)
note-Distinct event_type description mac metadata =
    stable-Keeps _ (λ ks u. note-HasKeys ks event_type description mac metadata)

register_device-Keeps :
    (vendors : Option (Text → Option Text)) (now : ℕ) (mac : Text) (host : DiscoveredHost)
    (name : Text)
    → Keeps Distinct (register_device vendors now mac host name)
unfolding register_device
register_device-Keeps vendors now mac host name =
    bind-Keeps Distinct (lift (column_name name)) _ (lift-Keeps Distinct (column_name name))
      (λ cleaned.
        create-Keeps (found_device vendors now mac host cleaned) database_error _ (λ n. refl)
          (λ id.
            bind-Keeps Distinct
              (note (codes "device_discovered") (codes "New device: " ++ cleaned) (some mac) none)
              (λ _. pure (found_device vendors now mac host cleaned id)) (note-Distinct _ _ _ _)
              (λ _. pure-Keeps Distinct (found_device vendors now mac host cleaned id))))

module _ (vendors : Option (Text → Option Text)) (lib : IpLibrary) (json : JsonTexts) (now : ℕ)
    (auto_register : Bool) where
  observe_paths-Keeps :
      (ks : List Key) (d : Device) (g : Group)
      → Keeps (HasKeys ks) (observe_paths vendors lib json now auto_register d g)
  observe_paths-Keeps ks d g =
      each_do-Keeps ks _ (λ path. record_observation-Keeps ks json d path now) (paths g)

  reconcile_new-Keeps :
      (g : Group) (p : Progress)
      → Keeps Distinct (reconcile_new vendors lib json now auto_register g p)
  unfolding reconcile_new
  reconcile_new-Keeps g p =
      let host = chosen vendors lib json now auto_register g none in
      let name = auto_name host p.names in
      let next : Progress = record p { names = name ∷ p.names; created = p.created + 1 } in
      bind-Keeps Distinct (register_device vendors now g.mac host name) _
        (register_device-Keeps vendors now g.mac host name)
        (λ d.
          bind-Keeps Distinct (observe_paths vendors lib json now auto_register d g)
            (λ _. pure next) (stable-Keeps _ (λ ks u. observe_paths-Keeps ks d g))
            (λ _. pure-Keeps Distinct next))

  reconcile_known-Keeps :
      (ks : List Key) (g : Group) (p : Progress) (d : Device)
      → IsRow ks (key d)
      → Keeps (HasKeys ks) (reconcile_known vendors lib json now auto_register g p d)
  unfolding reconcile_known
  reconcile_known-Keeps ks g p d r =
      let host = chosen vendors lib json now auto_register g (some d) in
      then-Keeps ks (refresh_device now d host) _ (refresh_device-Keeps ks now d host r) (
        then-Keeps ks (observe_paths vendors lib json now auto_register d g) _
          (observe_paths-Keeps ks d g)
          (pure-Keeps (HasKeys ks) (record p { updated = p.updated + 1 })))

  reconcile_found-Distinct :
      (g : Group) (p : Progress) (found : Option Device) (db : Database) (a : Progress)
      (db' : Database)
      → reconcile_found vendors lib json now auto_register g p found db ≡ ok (a, db')
      → HasRow (keys db) found
      → Distinct db
      → Distinct db'
  unfolding reconcile_found
  reconcile_found-Distinct g p none db a db' h r u =
      if-Keeps Distinct auto_register (reconcile_new vendors lib json now auto_register g p)
        (pure p) (reconcile_new-Keeps g p) (pure-Keeps Distinct p) db a db' h u
  reconcile_found-Distinct g p (some d) db a db' h r u =
      subst IsDistinct (sym (reconcile_known-Keeps (keys db) g p d r db a db' h refl)) u

  reconcile_group-Keeps :
      (g : Group) (p : Progress)
      → Keeps Distinct (reconcile_group vendors lib json now auto_register g p)
  unfolding reconcile_group
  reconcile_group-Keeps g p db a db' h u =
      let (found, db₁, e₁, h₁) =
        proceed-ok (reconcile_found vendors lib json now auto_register g p) (find_by_mac g.mac db)
          h in
      let (k₁, r) = find_by_mac-Ensures (keys db) g.mac u db found db₁ e₁ refl in
      reconcile_found-Distinct g p found db₁ a db' h₁ (subst (λ ks. HasRow ks found) (sym k₁) r)
        (subst IsDistinct (sym k₁) u)

  reconcile_groups-Keeps :
      (groups : List Group) (p : Progress)
      → Keeps Distinct (reconcile_groups vendors lib json now auto_register groups p)
  unfolding reconcile_groups
  reconcile_groups-Keeps [] p = pure-Keeps Distinct p
  reconcile_groups-Keeps (g ∷ groups) p =
      bind-Keeps Distinct (reconcile_group vendors lib json now auto_register g p) _
        (reconcile_group-Keeps g p) (λ next. reconcile_groups-Keeps groups next)

mark_gone-Keeps :
    (ks : List Key) (now period : ℕ) (seen : List Text) (devices : List Device)
    → All (λ (d : Device). IsRow ks (key d)) devices
    → Keeps (HasKeys ks) (mark_gone now period seen devices)
unfolding mark_gone
mark_gone-Keeps ks now period seen [] r = pure-Keeps (HasKeys ks) 0
mark_gone-Keeps ks now period seen (d ∷ devices) r =
    let rest = mark_gone-Keeps ks now period seen devices r.1 in
    if-Keeps (HasKeys ks) (is_gone now period seen d) _ _
      (then-Keeps ks (modify (write_device (record d { online = false }))) _
        (write-Keeps ks (record d { online = false }) r.0)
        (then-Keeps ks (note _ _ _ _) _ (note-HasKeys ks _ _ _ _) (
          bind-Keeps (HasKeys ks) (mark_gone now period seen devices) (λ count. pure (count + 1))
            rest (λ count. pure-Keeps (HasKeys ks) (count + 1)))))
      rest

mark_missing-Keeps :
    (b : Bool) (now period : ℕ) (seen : List Text) → Keeps Distinct (mark_missing b now period seen)
unfolding mark_missing
mark_missing-Keeps false now period seen db a db' h u = pure-Keeps Distinct 0 db a db' h u
mark_missing-Keeps true now period seen db a db' h u =
    subst IsDistinct
      (sym (
        mark_gone-Keeps (keys db) now period seen db.devices (rows (keys db) db u refl) db a db' h
          refl))
      u

pub reconcile_discovery-Keeps :
    (vendors : Option (Text → Option Text)) (lib : IpLibrary) (json : JsonTexts) (now : ℕ)
    (auto_register : Bool) (offline_after : ℤ) (mark : Bool) (hosts : List DiscoveredHost)
    → Keeps Distinct
        (reconcile_discovery vendors lib json now auto_register offline_after mark hosts)
unfolding reconcile_discovery
reconcile_discovery-Keeps vendors lib json now auto_register offline_after mark hosts =
    bind-Keeps Distinct (gets (λ db. map (λ (d : Device). d.name) db.devices)) _
      (read-Keeps Distinct _)
      (λ names. bind-Keeps Distinct (group_hosts hosts []) _ (group_hosts-Keeps hosts []) (λ groups.
        bind-Keeps Distinct
          (reconcile_groups vendors lib json now auto_register groups
            (record { names = names; created = 0; updated = 0 }))
          _ (reconcile_groups-Keeps vendors lib json now auto_register groups _)
          (λ progress.
            bind-Keeps Distinct
              (mark_missing mark now (grace offline_after) (map (λ (g : Group). g.mac) groups)) _
              (mark_missing-Keeps mark now (grace offline_after) _)
              (λ offline.
                bind-Keeps Distinct (check_address_conflicts (path_claims groups)) _
                  (stable-Keeps _ (λ ks. check_address_conflicts-Keeps ks (path_claims groups)))
                  (λ _. pure-Keeps Distinct (progress.created, progress.updated, offline))))))
