-- ===== src/Managers/Devices/Keys.antt =====
-- The unique columns of the devices, and which steps leave them as they are.
use net_father.Prelude.{
  ℕ, ◌≡◌, refl, sym, ap, ◌∙◌, subst, ◌⊎◌, inl, inr, Bool, true, false, not, ◌==◌, nat_eq,
  text_eq_instance, Option, none, some, List, [], ◌∷◌, map, find, find-In, In, All, All-of_In,
  In_of_All, IsUnique, Bool-cases, Option-cases, Text, arith, device_not_found,
}
use net_father.Prelude.Strings.{strip}
use net_father.Models.{Device}
use net_father.Database.{Database, get_device, get_alias}
use net_father.Database.Session.{lift, note, modify, proceed-ok}
use net_father.Database.Keeps.{same_state, same_value, Keeps, Ensures, lift-ok, require-ok}
use net_father.Net.Mac.{normalize_mac}
use net_father.Managers.Devices.Find.{
  set_device, write_device, find_by_mac, device_of_mac, require_by_name,
}

abbrev pub Key : Type 0
Key = ℕ × (Text × Text)

abbrev pub key : Device → Key
key d = (d.id, (d.name, d.mac))

abbrev pub keys : Database → List Key
keys db = map key db.devices

-- The number, the name and the address of a device belong to no other one.
pub record IsDistinct (ks : List Key) : Type 0 where
  pub ids : IsUnique (map (λ (k : Key). k.0) ks)
  pub names : IsUnique (map (λ (k : Key). k.1.0) ks)
  pub macs : IsUnique (map (λ (k : Key). k.1.1) ks)

-- The keys with this number are this key.
abbrev pub IsRow : List Key → Key → Type 0
IsRow ks k = All (λ (x : Key). ((x.0 == k.0) ≡ false) ⊎ (x ≡ k)) ks

abbrev pub HasKeys : List Key → Database → Type 0
HasKeys ks db = keys db ≡ ks

pub In-map : {A B : Type 0} (f : A → B) (a : A) (xs : List A) → In a xs → In (f a) (map f xs)
In-map f a [] m = absurd m
In-map f a (x ∷ xs) (inl e) = inl (ap f e)
In-map f a (x ∷ xs) (inr m) = inr (In-map f a xs m)

All-not_id :
    (k : Key) (ks : List Key)
    → All (λ y. not (y == k.0) ≡ true) (map (λ (x : Key). x.0) ks)
    → IsRow ks k
All-not_id k [] h = tt
All-not_id k (x ∷ ks) h = (inl (ground arith), All-not_id k ks h.1)

IsRow-of_In :
    (ks : List Key) (k : Key) → IsUnique (map (λ (x : Key). x.0) ks) → In k ks → IsRow ks k
IsRow-of_In [] k u m = absurd m
IsRow-of_In (x ∷ ks) k u (inl e) = (
  inr e,
  All-not_id k ks
      (subst (λ (z : Key). All (λ y. not (y == z.0) ≡ true) (map (λ (x : Key). x.0) ks)) e u.0),
)
IsRow-of_In (x ∷ ks) k u (inr m) = (
  let n = In_of_All (λ y. not (y == x.0) ≡ true) _ u.0 k.0 (In-map (λ (z : Key). z.0) k ks m) in
      inl (ground arith),
  IsRow-of_In ks k u.1 m,
)

-- Setting the columns of a row but not its key leaves the keys.
set_device-keys :
    (d : Device) (devices : List Device)
    → IsRow (map key devices) (key d)
    → map key (set_device d devices) ≡ map key devices
unfolding set_device
set_device-keys d [] h = refl
set_device-keys d (x ∷ xs) h = elim (Bool-cases (x.id == d.id)) [
  | inr e ↦ rw e (ap (◌∷◌ (key x)) (set_device-keys d xs h.1))
  | inl e ↦ elim h.0 [
    | inl n ↦ absurd (cc (e, n))
    | inr s ↦ rw e (ap (◌∷◌ (key d)) (set_device-keys d xs h.1) ∙ ap (λ k. k ∷ map key xs) (sym s))
  ]
]

module _ (ks : List Key) where
  -- What is found has a row of the keys.
  abbrev pub HasRow : Option Device → Type 0
  HasRow none = Unit
  HasRow (some d) = IsRow ks (key d)

  write_device-Keeps :
      (d : Device)
      → IsRow ks (key d)
      → (db : Database) → HasKeys ks db
      → HasKeys ks (write_device d db)
  write_device-Keeps d r db h =
      set_device-keys d db.devices (subst (λ z. IsRow z (key d)) (sym h) r) ∙ h

  pub write-Keeps : (d : Device) → IsRow ks (key d) → Keeps (HasKeys ks) (modify (write_device d))
  write-Keeps d r db u db' e h = subst (HasKeys ks) (same_state e) (write_device-Keeps d r db h)

  pub note-HasKeys :
      (event_type description : Text) (mac metadata : Option Text)
      → Keeps (HasKeys ks) (note event_type description mac metadata)
  unfolding note
  note-HasKeys event_type description mac metadata db u db' e h =
      subst (HasKeys ks) (same_state e) h

  found-HasRow :
      (p : Device → Bool) (db : Database) (d : Device)
      → IsDistinct ks
      → HasKeys ks db
      → find p db.devices ≡ some d
      → IsRow ks (key d)
  found-HasRow p db d u h e =
      IsRow-of_In ks (key d) u.ids
        (subst (In (key d)) h (In-map key d db.devices (find-In p db.devices e)))

  pub get_device-HasRow :
      (id : ℕ) (db : Database) → IsDistinct ks → HasKeys ks db → HasRow (get_device id db)
  get_device-HasRow id db u h = elim (Option-cases (get_device id db)) [
    | inl e ↦ subst HasRow (sym e) tt
    | inr (d, e) ↦ subst HasRow (sym e) (found-HasRow _ db d u h e)
  ]

  device_of_mac-HasRow :
      (mac : Text) (db : Database) → IsDistinct ks → HasKeys ks db → HasRow (device_of_mac mac db)
  unfolding device_of_mac
  device_of_mac-HasRow mac db u h =
      elim (Option-cases (find (λ (d : Device). d.mac == mac) db.devices)) [
        | inr (d, e) ↦ rw (device_of_mac, e) (found-HasRow _ db d u h e)
        | inl e ↦ elim (Option-cases (get_alias mac db)) [
          | inl f ↦ rw (device_of_mac, e, f) tt
          | inr (a, f) ↦ rw (device_of_mac, e, f) (get_device-HasRow a.device_id db u h)
        ]
      ]

  pub find_by_mac-Ensures :
      (mac : Text) → IsDistinct ks → Ensures (HasKeys ks) HasRow (find_by_mac mac)
  unfolding find_by_mac
  find_by_mac-Ensures mac u db a db' h k =
      let (t, db₁, e, h₁) = proceed-ok _ (lift (normalize_mac mac) db) h in
      let (_, same) = lift-ok (normalize_mac mac) e in
      let k₁ = subst (HasKeys ks) same k in
      (
        subst (HasKeys ks) (same_state h₁) k₁,
        subst HasRow (same_value h₁) (device_of_mac-HasRow t db₁ u k₁),
      )

  pub require_by_name-Ensures :
      (name : Text)
      → IsDistinct ks
      → Ensures (HasKeys ks) (λ d. IsRow ks (key d)) (require_by_name name)
  unfolding require_by_name
  require_by_name-Ensures name u db a db' h k =
      let (e, same) =
        require-ok (find (λ (d : Device). d.name == strip name) db.devices) device_not_found h in
      (subst (HasKeys ks) same k, found-HasRow _ db a u k e)

  -- Every device of the table has a row of the keys.
  pub rows :
      (db : Database)
      → IsDistinct ks
      → HasKeys ks db
      → All (λ (d : Device). IsRow ks (key d)) db.devices
  rows db u h =
      All-of_In (λ (d : Device). IsRow ks (key d)) db.devices
        (λ d m. IsRow-of_In ks (key d) u.ids (subst (In (key d)) h (In-map key d db.devices m)))
