-- ===== src/Managers/Devices/Stable.antt =====
-- The helpers of manager/device_manager.py leave the unique columns as they are.
use net_father.Prelude.{
  ℕ, ◌≡◌, refl, subst, Bool, not, ◌&&◌, ◌==◌, text_eq_instance, option_eq_instance, Option, none,
  some, List, [], ◌∷◌, map, find, is_some, if◌then◌else◌, Text, err_not_ok,
}
use net_father.Prelude.Strings.{codes, is_empty}
use net_father.Models.{Device}
use net_father.Models.Evidence.{AddressEvidence, ServiceEvidence}
use net_father.Database.{Database, get_device, fresh_id}
use net_father.Database.Session.{Session, pure, gets, modify, ◌>>=◌, add_event}
use net_father.Database.Keeps.{
  same_state, same_value, Keeps, Ensures, bind-Keeps, bind-Ensures, pure-Keeps, if-Keeps,
  lift-Keeps, modify-Keeps, read-Keeps,
}
use net_father.Net.Mac.{normalize_mac}
use net_father.Net.Hosts.{DiscoveredHost, presence_confirmed}
use net_father.Managers.Devices.Find.{find_by_mac, each_do}
use net_father.Managers.Devices.Conflicts.{
  Claim, online_claims, extra_claims, add_claim, flag_device, flag_id, flag_claim,
  check_address_conflicts,
}
use net_father.Managers.Devices.Observations.{
  is_path, JsonTexts, mac_text, store_path, latest_service, latest_observation, source_of,
  fresh_observation, observation_row, service_row, add_service, add_observation, plain_observation,
  same_service, same_metadata, record_address, record_services, record_metadata, record_observation,
  record_manual_observation, write_address, add_address,
}
use net_father.Managers.Devices.Keys.{
  Key, key, IsDistinct, IsRow, HasKeys, HasRow, write-Keeps, get_device-HasRow, find_by_mac-Ensures,
}

module _ (ks : List Key) where
  pub each_do-Keeps :
      {A : Type 0} (f : A → Session (Unit {0}))
      → ((a : A) → Keeps (HasKeys ks) (f a))
      → (xs : List A) → Keeps (HasKeys ks) (each_do f xs)
  unfolding each_do
  each_do-Keeps f k [] = pure-Keeps (HasKeys ks) tt
  each_do-Keeps f k (x ∷ xs) =
      bind-Keeps (HasKeys ks) (f x) (λ _. each_do f xs) (k x) (λ _. each_do-Keeps f k xs)

  -- A change of other tables.
  pub other-Keeps :
      (f : Database → Database)
      → ((db : Database) → (f db).devices ≡ db.devices)
      → Keeps (HasKeys ks) (modify f)
  other-Keeps f e = modify-Keeps (HasKeys ks) f (λ db h. rw (e db) h)

  flag_device-Keeps :
      (address : Text) (d : Device) → IsRow ks (key d) → Keeps (HasKeys ks) (flag_device address d)
  unfolding flag_device
  flag_device-Keeps address d r =
      bind-Keeps (HasKeys ks) _ _
        (if-Keeps (HasKeys ks) d.identity_conflict _ _ (pure-Keeps (HasKeys ks) tt)
          (other-Keeps (add_event _ _ _ _ _) (λ db. refl)))
        (λ _. write-Keeps ks _ r)

  -- The two cases of a lookup.
  found-Keeps :
      {B : Type 0} (x : Session B) (f : Device → Session B)
      → Keeps (HasKeys ks) x
      → ((d : Device) → IsRow ks (key d) → Keeps (HasKeys ks) (f d))
      → (o : Option Device) → HasRow ks o
      → Keeps (HasKeys ks) (elim o [ none ↦ x | some d ↦ f d ])
  found-Keeps x f k l none r = k
  found-Keeps x f k l (some d) r = l d r

  pub by_mac-Keeps :
      {B : Type 0} (mac : Text) (x : Session B) (f : Device → Session B)
      → IsDistinct ks
      → Keeps (HasKeys ks) x
      → ((d : Device) → IsRow ks (key d) → Keeps (HasKeys ks) (f d))
      → Keeps (HasKeys ks) (find_by_mac mac >>= λ o. elim o [ none ↦ x | some d ↦ f d ])
  by_mac-Keeps mac x f u k l =
      bind-Ensures (HasKeys ks) (HasRow ks) (find_by_mac mac)
        (λ o. elim o [ none ↦ x | some d ↦ f d ]) (find_by_mac-Ensures ks mac u)
        (found-Keeps x f k l)

  get_device-Ensures :
      (id : ℕ) → IsDistinct ks → Ensures (HasKeys ks) (HasRow ks) (gets (get_device id))
  get_device-Ensures id u db o db' h k = (
    subst (HasKeys ks) (same_state h) k,
    subst (HasRow ks) (same_value h) (get_device-HasRow ks id db u k),
  )

  flag_id-Keeps :
      (address : Text) → IsDistinct ks → (id : ℕ) → Keeps (HasKeys ks) (flag_id address id)
  unfolding flag_id
  flag_id-Keeps address u id =
      bind-Ensures (HasKeys ks) (HasRow ks) (gets (get_device id))
        (λ o. elim o [ none ↦ pure tt | some d ↦ flag_device address d ]) (get_device-Ensures id u)
        (found-Keeps (pure tt) (flag_device address) (pure-Keeps (HasKeys ks) tt)
          (flag_device-Keeps address))

  flag_claim-Keeps : IsDistinct ks → (c : Claim) → Keeps (HasKeys ks) (flag_claim c)
  unfolding flag_claim
  flag_claim-Keeps u c =
      if-Keeps (HasKeys ks) _ _ _ (each_do-Keeps _ (flag_id-Keeps c.address u) c.holders)
        (pure-Keeps (HasKeys ks) tt)

  extra_claims-Keeps :
      (extra : List (Text × Text)) (claims : List Claim)
      → IsDistinct ks
      → Keeps (HasKeys ks) (extra_claims extra claims)
  unfolding extra_claims
  extra_claims-Keeps [] claims u = pure-Keeps (HasKeys ks) claims
  extra_claims-Keeps ((ip, mac) ∷ others) claims u =
      by_mac-Keeps mac (extra_claims others claims)
        (λ d. extra_claims others (add_claim ip d.id claims)) u (extra_claims-Keeps others claims u)
        (λ d r. extra_claims-Keeps others _ u)

  pub check_address_conflicts-Keeps :
      (extra : List (Text × Text))
      → IsDistinct ks
      → Keeps (HasKeys ks) (check_address_conflicts extra)
  unfolding check_address_conflicts
  check_address_conflicts-Keeps extra u =
      bind-Keeps (HasKeys ks) (gets (λ db. online_claims db.devices [])) _
        (read-Keeps (HasKeys ks) _)
        (λ own.
          bind-Keeps (HasKeys ks) (extra_claims extra own) _ (extra_claims-Keeps extra own u)
            (λ claims. each_do-Keeps flag_claim (flag_claim-Keeps u) claims))

  write_address-Keeps : (e : AddressEvidence) → Keeps (HasKeys ks) (modify (write_address e))
  unfolding write_address
  write_address-Keeps e = other-Keeps _ (λ db. refl)

  add_address-Keeps : (e : AddressEvidence) → Keeps (HasKeys ks) (modify (add_address e))
  unfolding add_address
  add_address-Keeps e = other-Keeps _ (λ db. refl)

  mac_text-Keeps : (mac : Option Text) → Keeps (HasKeys ks) (mac_text mac)
  unfolding mac_text
  mac_text-Keeps none db a db' h k = absurd (err_not_ok h)
  mac_text-Keeps (some mac) db a db' h k = lift-Keeps (HasKeys ks) (normalize_mac mac) db a db' h k

  store_path-Keeps :
      (d : Device) (host : DiscoveredHost) (now id : ℕ) (mac : Text) (path : Option AddressEvidence)
      → Keeps (HasKeys ks) (store_path d host now id mac path)
  unfolding store_path
  store_path-Keeps d host now id mac none = add_address-Keeps _
  store_path-Keeps d host now id mac (some e) = write_address-Keeps _

  -- Reading the tables, and then a step that leaves the keys.
  pub gets-Keeps :
      {A B : Type 0} (f : Database → A) (g : A → Session B)
      → ((a : A) → Keeps (HasKeys ks) (g a))
      → Keeps (HasKeys ks) (gets f >>= g)
  gets-Keeps f g = bind-Keeps (HasKeys ks) (gets f) g (read-Keeps (HasKeys ks) f)

  record_address-Keeps :
      (d : Device) (host : DiscoveredHost) (now : ℕ)
      → Keeps (HasKeys ks) (record_address d host now)
  unfolding record_address
  record_address-Keeps d host now =
      gets-Keeps (λ db. find (is_path d host) db.addresses) _
        (λ path.
          gets-Keeps (λ db. fresh_id (map (λ (e : AddressEvidence). e.id) db.addresses)) _
            (λ id.
              bind-Keeps (HasKeys ks) (mac_text host.mac) _ (mac_text-Keeps host.mac)
                (λ mac. store_path-Keeps d host now id mac path)))

  -- The last step of a record: nothing, or a change of another table.
  unless-Keeps :
      (b : Bool) (f : Database → Database)
      → ((db : Database) → (f db).devices ≡ db.devices)
      → Keeps (HasKeys ks) (if b then pure tt else modify f)
  unless-Keeps b f e =
      if-Keeps (HasKeys ks) b (pure tt) (modify f) (pure-Keeps (HasKeys ks) tt) (other-Keeps f e)

  record_services-Keeps :
      (json : JsonTexts) (d : Device) (host : DiscoveredHost) (now : ℕ)
      → Keeps (HasKeys ks) (record_services json d host now)
  unfolding record_services
  record_services-Keeps json d host now db =
      let id = fresh_id (map (λ (s : ServiceEvidence). s.id) db.services) in
      let row = service_row json d host now id in
      unless-Keeps (same_service (latest_service d host.ip db.services) row) (add_service row)
        (λ db. refl) db

  record_metadata-Keeps :
      (d : Device) (host : DiscoveredHost) (now : ℕ)
      → Keeps (HasKeys ks) (record_metadata d host now)
  unfolding record_metadata
  record_metadata-Keeps d host now db =
      unless-Keeps
        (same_metadata (latest_observation d.id host.ip (source_of host.source) db.observations)
          host)
        (add_observation (observation_row d host now (fresh_observation db))) (λ db. refl) db

  pub record_observation-Keeps :
      (json : JsonTexts) (d : Device) (host : DiscoveredHost) (now : ℕ)
      → Keeps (HasKeys ks) (record_observation json d host now)
  unfolding record_observation
  record_observation-Keeps json d host now =
      bind-Keeps (HasKeys ks) _ _
        (if-Keeps (HasKeys ks) (not (is_empty host.ip) && presence_confirmed host) _ _
          (record_address-Keeps d host now) (pure-Keeps (HasKeys ks) tt))
        (λ _.
          bind-Keeps (HasKeys ks) _ _
            (if-Keeps (HasKeys ks) (host.scan_method == some (codes "nmap")) _ _
              (record_services-Keeps json d host now) (pure-Keeps (HasKeys ks) tt))
            (λ _. record_metadata-Keeps d host now))

  pub record_manual_observation-Keeps :
      (id : ℕ) (ip : Text) (now : ℕ) → Keeps (HasKeys ks) (record_manual_observation id ip now)
  unfolding record_manual_observation
  record_manual_observation-Keeps id ip now db =
      unless-Keeps (is_some (latest_observation id ip (codes "manual") db.observations))
        (add_observation (plain_observation (fresh_observation db) id ip (codes "manual") 100 now))
        (λ db. refl) db
