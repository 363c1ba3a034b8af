-- ===== src/Managers/Devices/Edited.antt =====
-- `update_device` keeps names, addresses and numbers distinct.
use net_father.Prelude.{
  ℕ, ◌≡◌, refl, sym, ap, subst, false, not, ◌&&◌, ◌==◌, text_eq_instance, nat_eq,
  option_eq_instance, Option, none, some, is_some, List, [], ◌∷◌, map, find, Text, ok,
  validation_error, duplicate_device, Option-cases, Bool-cases, Result-cases, ok_injective,
  err_not_ok, ◌∙◌, inl, inr,
}
use net_father.Prelude.Strings.{is_empty, strip, strip_idem, lower}
use net_father.Models.{Device}
use net_father.Database.{Database}
use net_father.Database.Session.{Session, pure, lift, modify, raise_when, ◌>>◌, note, proceed-ok}
use net_father.Database.Keeps.{returned, same_state, same_value, Keeps, lift-ok, raise_when-ok}
use net_father.Net.Mac.{normalize_mac}
use net_father.Net.Mac.Normal.{normalize_mac_idem}
use net_father.Managers.Devices.Find.{
  has_text, or_none, require_by_name, find_by_mac, device_of_mac, checked_mac, set_device,
  write_device,
}
use net_father.Managers.Devices.Observations.{or_empty, record_manual_observation}
use net_father.Managers.Devices.Keys.{
  Key, key, keys, HasKeys, IsRow, IsDistinct, require_by_name-Ensures, write-Keeps, note-HasKeys,
}
use net_father.Managers.Devices.Stable.{record_manual_observation-Keeps}
use net_father.Managers.Devices.Seen.{when-Keeps, then-Keeps, ip_changed-Keeps}
use net_father.Managers.Devices.Distinct.{Distinct}
use net_father.Managers.Devices.Changed.{find-IsFree, renamed-Distinct, moved-Distinct}
use net_father.Managers.Devices.Edit.{
  is_other, ip_changed, rename, change_mac, note_ip, change_ip, change_vendor, change_type,
  DeviceChanges, update_device,
}

-- The tables are distinct, and the device has its row.
record HasDevice (d : Device) (db : Database) : Type 0 where
  distinct : Distinct db
  row : IsRow (keys db) (key d)

-- A change that ends with the changed device.
abbrev Changes : (Device → Session Device) → Type 0
Changes f =
    (d : Device) (db : Database) (d' : Device) (db' : Database)
    → f d db ≡ ok (d', db')
    → HasDevice d db
    → HasDevice d' db'

set_device-IsRow : (d : Device) (ds : List Device) → IsRow (map key (set_device d ds)) (key d)
unfolding set_device
set_device-IsRow d [] = tt
set_device-IsRow d (x ∷ ds) = elim (Bool-cases (x.id == d.id)) [
  | inl e ↦ rw e (inr refl, set_device-IsRow d ds)
  | inr n ↦ rw n (inl n, set_device-IsRow d ds)
]

-- The end of each change: the row is written, and the device is the result.
written-HasDevice :
    (d : Device) (db : Database) (d' : Device) (db' : Database)
    → (modify (write_device d) >> pure d) db ≡ ok (d', db')
    → Distinct (write_device d db)
    → HasDevice d' db'
written-HasDevice d db d' db' h u =
    subst (λ x. HasDevice x db') (same_value h)
      (subst (HasDevice d) (same_state h)
        (record { distinct = u; row = set_device-IsRow d db.devices }))

-- Other columns of the device.
same_key-Distinct :
    (d d' : Device) (db : Database)
    → HasDevice d db
    → key d ≡ key d'
    → Distinct (write_device d' db)
same_key-Distinct d d' db k e =
    subst IsDistinct
      (sym (
        write-Keeps (keys db) d' (subst (IsRow (keys db)) e k.row) db tt (write_device d' db) refl
          refl))
      k.distinct

-- What leaves the keys keeps the device.
same_keys-HasDevice :
    {A : Type 0} (m : Session A) (d : Device) (db : Database) (a : A) (db' : Database)
    → Keeps (HasKeys (keys db)) m
    → m db ≡ ok (a, db')
    → HasDevice d db
    → HasDevice d db'
same_keys-HasDevice m d db a db' k h p =
    let e = sym (k db a db' h refl) in
    record {
      distinct = subst IsDistinct e p.distinct;
      row = subst (λ ks. IsRow ks (key d)) e p.row;
    }

-- An argument that is left out changes nothing.
unchanged-HasDevice :
    (d : Device) (db : Database) (d' : Device) (db' : Database)
    → returned d db ≡ returned d' db'
    → HasDevice d db
    → HasDevice d' db'
unchanged-HasDevice d db d' db' h k =
    subst (λ x. HasDevice x db') (same_value h) (subst (HasDevice d) (same_state h) k)

rename-Changes : (new_name : Option Text) → Changes (rename new_name)
unfolding rename
rename-Changes none d db d' db' h k = unchanged-HasDevice d db d' db' h k
rename-Changes (some new_name) d db d' db' h k =
    let cleaned = strip new_name in
    let changed : Device = record d { name = cleaned } in
    let (u, db₁, e₁, h₁) = proceed-ok _ (raise_when (is_empty cleaned) validation_error db) h in
    let (_, same₁) = raise_when-ok (is_empty cleaned) validation_error e₁ in
    let k₁ = subst (HasDevice d) same₁ k in
    let existing = find (λ (x : Device). x.name == strip cleaned) db₁.devices in
    let (v, db₂, e₂, h₂) =
      proceed-ok _ (raise_when (is_other d existing) duplicate_device db₁) h₁ in
    let (other, same₂) = raise_when-ok (is_other d existing) duplicate_device e₂ in
    let free =
      find-IsFree (λ (k : Key). k.1.0) changed (λ x. x.name == strip cleaned) db₁.devices
        (λ x. ap (λ t. x.name == t) (strip_idem new_name)) k₁.distinct.names other in
    written-HasDevice changed db₂ d' db' h₂ (
      subst (λ x. Distinct (write_device changed x)) same₂
        (renamed-Distinct changed (key d) db₁ k₁.row refl refl free k₁.distinct))

-- The lookup by an address sees the column first.
device_of_mac-other :
    (d : Device) (mac : Text) (db : Database)
    → is_other d (device_of_mac mac db) ≡ false
    → is_other d (find (λ (x : Device). x.mac == mac) db.devices) ≡ false
unfolding device_of_mac
device_of_mac-other d mac db h =
    elim (Option-cases (find (λ (x : Device). x.mac == mac) db.devices)) [
      | inl e ↦ rw e refl
      | inr (x, e) ↦ rw e (rw (device_of_mac, e) at h)
    ]

-- An address that passed the check is in normal form.
checked_mac-normal : (mac t : Text) → checked_mac mac ≡ ok t → normalize_mac t ≡ ok t
unfolding checked_mac
checked_mac-normal mac t h = elim (Result-cases (normalize_mac mac)) [
  | inl (u, e) ↦
      subst (λ x. normalize_mac x ≡ ok x) (ok_injective (rw (checked_mac, e) at h))
        (normalize_mac_idem mac u e)
  | inr (x, e) ↦ absurd (err_not_ok (rw (checked_mac, e) at h))
]

find_by_mac-normal :
    (t : Text) (db : Database)
    → normalize_mac t ≡ ok t
    → find_by_mac t db ≡ returned (device_of_mac t db) db
unfolding find_by_mac
find_by_mac-normal t db e = rw e refl

change_mac-Changes : (mac : Option Text) → Changes (change_mac mac)
unfolding change_mac
change_mac-Changes none d db d' db' h k = unchanged-HasDevice d db d' db' h k
change_mac-Changes (some mac) d db d' db' h k =
    let (normalized, db₁, e₁, h₁) = proceed-ok _ (lift (checked_mac mac) db) h in
    let (e₁', same₁) = lift-ok (checked_mac mac) e₁ in
    let k₁ = subst (HasDevice d) same₁ k in
    let changed : Device = record d { mac = normalized } in
    let (existing, db₂, e₂, h₂) = proceed-ok _ (find_by_mac normalized db₁) h₁ in
    let found =
      sym (find_by_mac-normal normalized db₁ (checked_mac-normal mac normalized e₁')) ∙ e₂ in
    let k₂ = subst (HasDevice d) (same_state found) k₁ in
    let (v, db₃, e₃, h₃) =
      proceed-ok _ (raise_when (is_other d existing) duplicate_device db₂) h₂ in
    let (other, same₃) = raise_when-ok (is_other d existing) duplicate_device e₃ in
    let other' : is_other d (device_of_mac normalized db₂) ≡ false =
      subst (λ x. is_other d (device_of_mac normalized x) ≡ false) (same_state found)
        (subst (λ o. is_other d o ≡ false) (sym (same_value found)) other) in
    let free =
      find-IsFree (λ (k : Key). k.1.1) changed (λ x. x.mac == normalized) db₂.devices (λ x. refl)
        k₂.distinct.macs (device_of_mac-other d normalized db₂ other') in
    written-HasDevice changed db₃ d' db' h₃ (
      subst (λ x. Distinct (write_device changed x)) same₃
        (moved-Distinct changed (key d) db₂ k₂.row refl refl free k₂.distinct))

note_ip-Keeps :
    (ks : List Key) (now : ℕ) (d : Device) (ip : Text) → Keeps (HasKeys ks) (note_ip now d ip)
unfolding note_ip
note_ip-Keeps ks now d ip =
    then-Keeps ks (record_manual_observation d.id ip now) _
      (record_manual_observation-Keeps ks d.id ip now)
      (when-Keeps ks (has_text d.ip) (ip_changed d d.ip ip) (ip_changed-Keeps ks d d.ip ip))

change_ip-Changes : (now : ℕ) (ip : Option Text) → Changes (change_ip now ip)
unfolding change_ip
change_ip-Changes now none d db d' db' h k = unchanged-HasDevice d db d' db' h k
change_ip-Changes now (some ip) d db d' db' h k =
    let new_ip = or_none (strip ip) in
    let noted =
      when-Keeps (keys db) (not (new_ip == d.ip) && is_some new_ip)
        (note_ip now d (or_empty new_ip)) (note_ip-Keeps (keys db) now d (or_empty new_ip)) in
    let (u, db₁, e₁, h₁) = proceed-ok _ _ h in
    let k₁ = same_keys-HasDevice _ d db u db₁ noted e₁ k in
    let changed : Device = record d { ip = new_ip } in
    written-HasDevice changed db₁ d' db' h₁ (same_key-Distinct d changed db₁ k₁ refl)

change_vendor-Changes : (vendor : Option Text) → Changes (change_vendor vendor)
unfolding change_vendor
change_vendor-Changes none d db d' db' h k = unchanged-HasDevice d db d' db' h k
change_vendor-Changes (some vendor) d db d' db' h k =
    let changed : Device = record d { vendor = or_none (strip vendor) } in
    written-HasDevice changed db d' db' h (same_key-Distinct d changed db k refl)

change_type-Changes : (t : Option Text) → Changes (change_type t)
unfolding change_type
change_type-Changes none d db d' db' h k = unchanged-HasDevice d db d' db' h k
change_type-Changes (some t) d db d' db' h k =
    let cleaned = lower (strip t) in
    let (u, db₁, e₁, h₁) = proceed-ok _ (raise_when (is_empty cleaned) validation_error db) h in
    let k₁ = subst (HasDevice d) (raise_when-ok (is_empty cleaned) validation_error e₁).1 k in
    let changed : Device = record d { device_type = cleaned } in
    written-HasDevice changed db₁ d' db' h₁ (same_key-Distinct d changed db₁ k₁ refl)

pub update_device-Keeps :
    (now : ℕ) (name : Text) (c : DeviceChanges) → Keeps Distinct (update_device now name c)
unfolding update_device
update_device-Keeps now name c db a db' h u =
    let (d, db₁, e₁, h₁) = proceed-ok _ (require_by_name name db) h in
    let (same, row) = require_by_name-Ensures (keys db) name u db d db₁ e₁ refl in
    let k₁ : HasDevice d db₁ = record {
      distinct = subst IsDistinct (sym same) u;
      row = subst (λ ks. IsRow ks (key d)) (sym same) row;
    } in
    let (d₂, db₂, e₂, h₂) = proceed-ok _ (rename c.new_name d db₁) h₁ in
    let (d₃, db₃, e₃, h₃) = proceed-ok _ (change_mac c.mac d₂ db₂) h₂ in
    let (d₄, db₄, e₄, h₄) = proceed-ok _ (change_ip now c.ip d₃ db₃) h₃ in
    let (d₅, db₅, e₅, h₅) = proceed-ok _ (change_vendor c.vendor d₄ db₄) h₄ in
    let (d₆, db₆, e₆, h₆) = proceed-ok _ (change_type c.device_type d₅ db₅) h₅ in
    let (v, db₇, e₇, h₇) = proceed-ok _ (note _ _ _ _ db₆) h₆ in
    let k₂ = rename-Changes c.new_name d db₁ d₂ db₂ e₂ k₁ in
    let k₃ = change_mac-Changes c.mac d₂ db₂ d₃ db₃ e₃ k₂ in
    let k₄ = change_ip-Changes now c.ip d₃ db₃ d₄ db₄ e₄ k₃ in
    let k₅ = change_vendor-Changes c.vendor d₄ db₄ d₅ db₅ e₅ k₄ in
    let k₆ = change_type-Changes c.device_type d₅ db₅ d₆ db₆ e₆ k₅ in
    let k₇ =
      same_keys-HasDevice (note _ _ _ _) d₆ db₆ v db₇ (note-HasKeys (keys db₆) _ _ _ _) e₇ k₆ in
    subst Distinct (same_state h₇) k₇.distinct
