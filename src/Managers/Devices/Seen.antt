-- ===== src/Managers/Devices/Seen.antt =====
-- What is learned of known devices leaves names, addresses and numbers as they are.
use net_father.Prelude.{
  ℕ, ◌+◌, refl, subst, Bool, true, false, not, ◌&&◌, ◌==◌, nat_eq, text_eq_instance,
  option_eq_instance, Option, some, List, [], ◌∷◌, contains, inl, inr, if◌then◌else◌, Text,
  device_not_found, Result-cases, Option-cases,
}
use net_father.Prelude.Strings.{codes}
use net_father.Models.{Device}
use net_father.Database.Session.{Session, pure, lift, require, modify, ◌>>=◌, ◌>>◌, note}
use net_father.Database.Keeps.{
  Keeps, Ensures, bind-Keeps, bind-Ensures, pure-Keeps, if-Keeps, lift-Keeps, require-ok,
}
use net_father.Net.Mac.{normalize_mac}
use net_father.Net.Hosts.{DiscoveredHost}
use net_father.Managers.Devices.Find.{has_text, find_by_mac, checked_mac, write_device}
use net_father.Managers.Devices.Observations.{
  JsonTexts, or_empty, record_observation, record_manual_observation, add_observation,
  fresh_observation, plain_observation,
}
use net_father.Managers.Devices.Keys.{
  Key, key, IsDistinct, IsRow, HasKeys, HasRow, write-Keeps, note-HasKeys, find_by_mac-Ensures,
}
use net_father.Managers.Devices.Stable.{
  other-Keeps, by_mac-Keeps, gets-Keeps, check_address_conflicts-Keeps, record_observation-Keeps,
  record_manual_observation-Keeps,
}
use net_father.Managers.Devices.Edit.{
  ip_changed, move_ip, update_last_seen, neighbor_ip, come_online, go_offline, change_presence,
  presence_session, update_presence,
}
use net_father.Managers.Devices.Sync.{
  confirmed_mac, observed, is_moved, sync_device, sync_host, sync_loop,
}

module _ (ks : List Key) where
  -- One step, and then another one.
  pub then-Keeps :
      {B : Type 0} (m : Session (Unit {0})) (k : Session B)
      → Keeps (HasKeys ks) m
      → Keeps (HasKeys ks) k
      → Keeps (HasKeys ks) (m >> k)
  then-Keeps m k h l = bind-Keeps (HasKeys ks) m (λ _. k) h (λ _. l)

  -- A step that is taken on a condition.
  pub when-Keeps :
      (b : Bool) (m : Session (Unit {0}))
      → Keeps (HasKeys ks) m
      → Keeps (HasKeys ks) (if b then m else pure tt)
  when-Keeps b m h = if-Keeps (HasKeys ks) b m (pure tt) h (pure-Keeps (HasKeys ks) tt)

  pub unless-Keeps :
      (b : Bool) (m : Session (Unit {0}))
      → Keeps (HasKeys ks) m
      → Keeps (HasKeys ks) (if b then pure tt else m)
  unless-Keeps b m h = if-Keeps (HasKeys ks) b (pure tt) m (pure-Keeps (HasKeys ks) tt) h

  pub ip_changed-Keeps :
      (d : Device) (previous : Option Text) (ip : Text)
      → Keeps (HasKeys ks) (ip_changed d previous ip)
  unfolding ip_changed
  ip_changed-Keeps d previous ip = note-HasKeys ks _ _ _ _

  move_ip-Keeps :
      (now : ℕ) (d : Device) (ip : Text) → IsRow ks (key d) → Keeps (HasKeys ks) (move_ip now d ip)
  unfolding move_ip
  move_ip-Keeps now d ip r =
      then-Keeps (modify (write_device (record d { ip = some ip }))) _
        (write-Keeps ks (record d { ip = some ip }) r)
        (then-Keeps (record_manual_observation d.id ip now) _
          (record_manual_observation-Keeps ks d.id ip now)
          (when-Keeps (has_text d.ip) _ (ip_changed-Keeps d d.ip ip)))

  require_device-Ensures :
      (o : Option Device)
      → HasRow ks o
      → Ensures (HasKeys ks) (λ d. IsRow ks (key d)) (require o device_not_found)
  require_device-Ensures o r db d db' h k =
      let (e, same) = require-ok o device_not_found h in
      (subst (HasKeys ks) same k, subst (HasRow ks) e r)

  pub update_last_seen-Keeps :
      (now : ℕ) (mac : Text) (ip : Option Text)
      → IsDistinct ks
      → Keeps (HasKeys ks) (update_last_seen now mac ip)
  unfolding update_last_seen
  update_last_seen-Keeps now mac ip u =
      bind-Keeps (HasKeys ks) (lift (checked_mac mac)) _ (lift-Keeps (HasKeys ks) (checked_mac mac))
        (λ t.
          bind-Ensures (HasKeys ks) (HasRow ks) (find_by_mac t) _ (find_by_mac-Ensures ks t u)
            (λ o r.
              bind-Ensures (HasKeys ks) (λ d. IsRow ks (key d)) (require o device_not_found) _
                (require_device-Ensures o r)
                (λ d q.
                  let seen : Device = record d { last_seen = some now } in
                  then-Keeps (modify (write_device seen)) _ (write-Keeps ks seen q) (
                    when-Keeps (has_text ip && not (d.ip == ip)) _
                      (move_ip-Keeps now seen (or_empty ip) q)))))

  neighbor_ip-Keeps :
      (now : ℕ) (d : Device) (previous : Option Text) (ip : Text)
      → IsRow ks (key d)
      → Keeps (HasKeys ks) (neighbor_ip now d previous ip)
  unfolding neighbor_ip
  neighbor_ip-Keeps now d previous ip r =
      then-Keeps (modify (write_device (record d { ip = some ip }))) _
        (write-Keeps ks (record d { ip = some ip }) r)
        (then-Keeps (ip_changed d previous ip) _ (ip_changed-Keeps d previous ip) (
          gets-Keeps ks fresh_observation _ (λ id.
            other-Keeps ks
              (add_observation (plain_observation id d.id ip (codes "neighbor") 90 now))
              (λ db. refl))))

  come_online-Keeps :
      (now : ℕ) (d : Device) (ip : Option Text)
      → IsDistinct ks
      → IsRow ks (key d)
      → Keeps (HasKeys ks) (come_online now d ip)
  unfolding come_online
  come_online-Keeps now d ip u r =
      let present : Device = record d { online = true; last_seen = some now } in
      then-Keeps (modify (write_device present)) _ (write-Keeps ks present r) (
        then-Keeps _ _
          (when-Keeps (has_text ip && not (d.ip == ip)) (neighbor_ip now present d.ip (or_empty ip))
            (neighbor_ip-Keeps now present d.ip (or_empty ip) r))
          (then-Keeps _ _ (unless-Keeps d.online (note _ _ _ _) (note-HasKeys ks _ _ _ _))
            (check_address_conflicts-Keeps ks [] u)))

  go_offline-Keeps : (d : Device) → IsRow ks (key d) → Keeps (HasKeys ks) (go_offline d)
  unfolding go_offline
  go_offline-Keeps d r =
      then-Keeps (modify (write_device (record d { online = false }))) _
        (write-Keeps ks (record d { online = false }) r) (note-HasKeys ks _ _ _ _)

  change_presence-Keeps :
      (now : ℕ) (d : Device) (online : Bool) (ip : Option Text)
      → IsDistinct ks
      → IsRow ks (key d)
      → Keeps (HasKeys ks) (change_presence now d online ip)
  unfolding change_presence
  change_presence-Keeps now d true ip u r = come_online-Keeps now d ip u r
  change_presence-Keeps now d false ip u r =
      when-Keeps d.online (go_offline d) (go_offline-Keeps d r)

  presence_session-Keeps :
      (now : ℕ) (t : Text) (online : Bool) (ip : Option Text)
      → IsDistinct ks
      → Keeps (HasKeys ks) (presence_session now t online ip)
  unfolding presence_session
  presence_session-Keeps now t online ip u =
      by_mac-Keeps ks t (pure false) (λ d. change_presence now d online ip >> pure true) u
        (pure-Keeps (HasKeys ks) false)
        (λ d r.
          then-Keeps (change_presence now d online ip) (pure true)
            (change_presence-Keeps now d online ip u r) (pure-Keeps (HasKeys ks) true))

  pub update_presence-Keeps :
      (now : ℕ) (mac : Text) (online : Bool) (ip : Option Text)
      → IsDistinct ks
      → Keeps (HasKeys ks) (update_presence now mac online ip)
  unfolding update_presence
  update_presence-Keeps now mac online ip u = elim (Result-cases (normalize_mac mac)) [
    | inl (t, e) ↦ rw (update_presence, e) (presence_session-Keeps now t online ip u)
    | inr (x, e) ↦ rw (update_presence, e) (pure-Keeps (HasKeys ks) false)
  ]

  sync_device-Keeps :
      (json : JsonTexts) (now : ℕ) (d : Device) (host : DiscoveredHost)
      → IsRow ks (key d)
      → Keeps (HasKeys ks) (sync_device json now d host)
  unfolding sync_device observed
  sync_device-Keeps json now d host r =
      then-Keeps (modify (write_device (observed now d host))) _
        (write-Keeps ks (observed now d host) r)
        (then-Keeps (record_observation json d host now) _
          (record_observation-Keeps ks json d host now)
          (then-Keeps _ _
            (when-Keeps (is_moved d.ip host.ip) (ip_changed d d.ip host.ip)
              (ip_changed-Keeps d d.ip host.ip))
            (unless-Keeps d.online (note _ _ _ _) (note-HasKeys ks _ _ _ _))))

  sync_host-Keeps :
      (json : JsonTexts) (now : ℕ) (mac : Text) (host : DiscoveredHost) (rest : Session ℕ)
      → IsDistinct ks
      → Keeps (HasKeys ks) rest
      → Keeps (HasKeys ks) (sync_host json now mac host rest)
  unfolding sync_host
  sync_host-Keeps json now mac host rest u k =
      by_mac-Keeps ks mac rest
        (λ d. sync_device json now d host >> (rest >>= λ updated. pure (updated + 1))) u k
        (λ d r. then-Keeps (sync_device json now d host) _ (sync_device-Keeps json now d host r) (
          bind-Keeps (HasKeys ks) rest (λ updated. pure (updated + 1)) k
            (λ n. pure-Keeps (HasKeys ks) (n + 1))))

  pub sync_loop-Keeps :
      (json : JsonTexts) (now : ℕ) (hosts : List DiscoveredHost) (seen : List Text)
      → IsDistinct ks
      → Keeps (HasKeys ks) (sync_loop json now hosts seen)
  unfolding sync_loop
  sync_loop-Keeps json now [] seen u = pure-Keeps (HasKeys ks) 0
  sync_loop-Keeps json now (host ∷ hosts) seen u = elim (Option-cases (confirmed_mac host)) [
    | inl e ↦ rw (sync_loop, e) (sync_loop-Keeps json now hosts seen u)
    | inr (mac, e) ↦
        rw (sync_loop, e)
          (if-Keeps (HasKeys ks) (contains mac seen) _ _ (sync_loop-Keeps json now hosts seen u)
            (sync_host-Keeps json now mac host _ u (sync_loop-Keeps json now hosts (mac ∷ seen) u)))
  ]
