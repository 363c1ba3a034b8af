-- ===== src/Managers/Devices/Distinct.antt =====
-- The methods on one device keep names, addresses and numbers distinct.
use net_father.Prelude.{
  ℕ, ◌+◌, ◌<◌, ◌≡◌, refl, sym, ap, ◌∙◌, subst, inl, inr, Bool, true, false, not, ◌==◌, eq_iff,
  nat_eq, text_eq_instance, option_eq_instance, List, [], ◌∷◌, ◌++◌, map, keep, any, All, IsUnique,
  Bool-cases, Text, ok, Error, arith, Eq,
}
use net_father.Models.{Device}
use net_father.Database.{Database, fresh_id, greatest}
use net_father.Database.Session.{Session, gets, raise_when, ◌>>=◌, ◌>>◌, proceed-ok}
use net_father.Database.Keeps.{same_state, Keeps, raise_when-ok}
use net_father.Managers.Devices.Find.{find_by_mac, is_taken, insert_device, remove_device}
use net_father.Managers.Devices.Keys.{Key, key, keys, IsDistinct, HasKeys, find_by_mac-Ensures}
use net_father.Managers.Devices.Edit.{fresh_device}

-- The devices of the tables are distinct.
abbrev pub Distinct : Database → Type 0
Distinct db = IsDistinct (keys db)

-- What leaves the keys leaves them distinct.
pub stable-Keeps :
    {A : Type 0} (m : Session A)
    → ((ks : List Key) → IsDistinct ks → Keeps (HasKeys ks) m)
    → Keeps Distinct m
stable-Keeps m k db a db' h u = subst IsDistinct (sym (k (keys db) u db a db' h refl)) u

module _ {A : Type 0} ⦃e : Eq A⦄ where
  All-snoc : (P : A → Type 0) (xs : List A) (y : A) → All P xs → P y → All P (xs ++ (y ∷ []))
  All-snoc P [] y h p = (p, tt)
  All-snoc P (x ∷ xs) y h p = (h.0, All-snoc P xs y h.1 p)

  -- A value that is not there can be added.
  IsUnique-snoc :
      (xs : List A) (y : A) → IsUnique xs → any (λ x. x == y) xs ≡ false → IsUnique (xs ++ (y ∷ []))
  unfolding any
  IsUnique-snoc [] y u n = (tt, tt)
  IsUnique-snoc (x ∷ xs) y u n = (
    All-snoc (λ z. not (z == x) ≡ true) xs y u.0 (ground (arith, eq_iff x y, eq_iff y x)),
    IsUnique-snoc xs y u.1 (ground arith),
  )

absent : (k : ℕ) (ns : List ℕ) → greatest ns < k → any (λ m. m == k) ns ≡ false
unfolding any greatest
absent k [] h = refl
absent k (n ∷ ns) h = let later = absent k ns (ground arith) in ground arith

fresh_id-absent : (ns : List ℕ) → any (λ m. m == fresh_id ns) ns ≡ false
unfolding fresh_id
fresh_id-absent ns = absent (greatest ns + 1) ns (omega arith)

map-append : {A B : Type 0} (f : A → B) (xs ys : List A) → map f (xs ++ ys) ≡ map f xs ++ map f ys
map-append f [] ys = refl
map-append f (x ∷ xs) ys = ap (◌∷◌ (f x)) (map-append f xs ys)

map-map :
    {A B C : Type 0} (g : B → C) (f : A → B) (xs : List A)
    → map g (map f xs) ≡ map (λ x. g (f x)) xs
map-map g f [] = refl
map-map g f (x ∷ xs) = ap (◌∷◌ (g (f x))) (map-map g f xs)

free_name :
    (d : Device) (ds : List Device)
    → is_taken d ds ≡ false
    → any (λ n. n == d.name) (map (λ (k : Key). k.1.0) (map key ds)) ≡ false
unfolding is_taken any
free_name d [] h = refl
free_name d (x ∷ ds) h = ground (arith, free_name d ds)

free_mac :
    (d : Device) (ds : List Device)
    → is_taken d ds ≡ false
    → any (λ n. n == d.mac) (map (λ (k : Key). k.1.1) (map key ds)) ≡ false
unfolding is_taken any
free_mac d [] h = refl
free_mac d (x ∷ ds) h = ground (arith, free_mac d ds)

-- One more column value.
column-snoc :
    {A : Type 0} ⦃e : Eq A⦄ (f : Key → A) (ds : List Device) (d : Device)
    → IsUnique (map f (map key ds))
    → any (λ x. x == f (key d)) (map f (map key ds)) ≡ false
    → IsUnique (map f (map key (ds ++ (d ∷ []))))
column-snoc f ds d u n =
    subst IsUnique
      (sym (ap (map f) (map-append key ds (d ∷ [])) ∙ map-append f (map key ds) (key d ∷ [])))
      (IsUnique-snoc (map f (map key ds)) (f (key d)) u n)

-- A device with a fresh number, whose name and address are free.
add_device_row-Distinct :
    (d : Device) (db : Database)
    → d.id ≡ fresh_device db
    → is_taken d db.devices ≡ false
    → Distinct db
    → Distinct (record db { devices = db.devices ++ (d ∷ []) })
add_device_row-Distinct d db i t u = record {
  ids =
      column-snoc (λ (k : Key). k.0) db.devices d u.ids
        (rw (i, map-map (λ (k : Key). k.0) key db.devices)
          (fresh_id-absent (map (λ (d : Device). d.id) db.devices)));
  names = column-snoc (λ (k : Key). k.1.0) db.devices d u.names (free_name d db.devices t);
  macs = column-snoc (λ (k : Key). k.1.1) db.devices d u.macs (free_mac d db.devices t);
}

-- `insert_device` of a device whose number is fresh.
pub insert_device-Distinct :
    (d : Device) (e : Error) (db : Database) (a : Unit {0}) (db' : Database)
    → insert_device d e db ≡ ok (a, db')
    → d.id ≡ fresh_device db
    → Distinct db
    → Distinct db'
unfolding insert_device
insert_device-Distinct d e db a db' h i u =
    let (v, db₁, e₁, h₁) = proceed-ok _ (raise_when (is_taken d db.devices) e db) h in
    let (t, same) = raise_when-ok (is_taken d db.devices) e e₁ in
    subst Distinct (same_state h₁) (
      add_device_row-Distinct d db₁ (subst (λ x. d.id ≡ fresh_device x) same i)
        (subst (λ (x : Database). is_taken d x.devices ≡ false) same t) (subst Distinct same u))

All-column-keep :
    {A : Type 0} (P : A → Type 0) (f : Key → A) (p : Device → Bool) (ds : List Device)
    → All P (map f (map key ds))
    → All P (map f (map key (keep p ds)))
unfolding keep
All-column-keep P f p [] h = tt
All-column-keep P f p (x ∷ ds) h = elim (Bool-cases (p x)) [
  | inl e ↦ rw e (h.0, All-column-keep P f p ds h.1)
  | inr e ↦ rw e (All-column-keep P f p ds h.1)
]

column-keep :
    {A : Type 0} ⦃e : Eq A⦄ (f : Key → A) (p : Device → Bool) (ds : List Device)
    → IsUnique (map f (map key ds))
    → IsUnique (map f (map key (keep p ds)))
unfolding keep
column-keep f p [] u = tt
column-keep f p (x ∷ ds) u = elim (Bool-cases (p x)) [
  | inl e ↦
      rw e (All-column-keep (λ y. not (y == f (key x)) ≡ true) f p ds u.0, column-keep f p ds u.1)
  | inr e ↦ rw e (column-keep f p ds u.1)
]

pub remove_device-Distinct : (id : ℕ) (db : Database) → Distinct db → Distinct (remove_device id db)
unfolding remove_device
remove_device-Distinct id db u = record {
  ids = column-keep (λ (k : Key). k.0) _ db.devices u.ids;
  names = column-keep (λ (k : Key). k.1.0) _ db.devices u.names;
  macs = column-keep (λ (k : Key). k.1.1) _ db.devices u.macs;
}

-- A device with a fresh number is stored, and then something else happens.
pub create-Keeps :
    {B : Type 0} (row : ℕ → Device) (e : Error) (k : ℕ → Session B)
    → ((n : ℕ) → (row n).id ≡ n)
    → ((n : ℕ) → Keeps Distinct (k n))
    → Keeps Distinct (gets fresh_device >>= λ id. insert_device (row id) e >> k id)
create-Keeps row e k i l db b db' h u =
    let id = fresh_device db in
    let (v, db₁, e₁, h₁) = proceed-ok (λ _. k id) (insert_device (row id) e db) h in
    l id db₁ b db' h₁ (insert_device-Distinct (row id) e db v db₁ e₁ (i id) u)

pub find_by_mac-Distinct : (mac : Text) → Keeps Distinct (find_by_mac mac)
find_by_mac-Distinct mac =
    stable-Keeps (find_by_mac mac)
      (λ ks u db a db' h k. (find_by_mac-Ensures ks mac u db a db' h k).0)
