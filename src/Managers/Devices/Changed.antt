-- ===== src/Managers/Devices/Changed.antt =====
-- A change of a name or an address that nobody else has keeps the devices distinct.
use net_father.Prelude.{
  ◌≡◌, refl, sym, ap, ◌∙◌, subst, ◌⊎◌, inl, inr, Bool, true, false, not, ◌==◌, eq_iff, nat_eq,
  text_eq_instance, List, [], ◌∷◌, map, find, All, IsUnique, Bool-cases, arith, Eq,
}
use net_father.Models.{Device}
use net_father.Database.{Database}
use net_father.Managers.Devices.Find.{set_device, write_device}
use net_father.Managers.Devices.Keys.{Key, key, keys, IsRow}
use net_father.Managers.Devices.Edit.{is_other}
use net_father.Managers.Devices.Distinct.{Distinct}

module _ {A : Type 0} ⦃e : Eq A⦄ (f : Key → A) (d : Device) where
  abbrev column : List Device → List A
  column ds = map f (map key ds)

  -- No other device has this column value.
  abbrev pub IsFree : List Device → Type 0
  IsFree ds = All (λ (x : Device). ((x.id == d.id) ≡ true) ⊎ ((f (key x) == f (key d)) ≡ false)) ds

  All-set_device :
      (a : A) (ds : List Device)
      → All (λ y. not (y == a) ≡ true) (column ds)
      → (f (key d) == a) ≡ false
      → All (λ y. not (y == a) ≡ true) (column (set_device d ds))
  unfolding set_device
  All-set_device a [] h n = tt
  All-set_device a (x ∷ ds) h n = elim (Bool-cases (x.id == d.id)) [
    | inl e ↦ rw e (rw n refl, All-set_device a ds h.1 n)
    | inr e ↦ rw e (h.0, All-set_device a ds h.1 n)
  ]

  -- A row that no number of the list names.
  set_device-absent :
      (ds : List Device)
      → All (λ y. not (y == d.id) ≡ true) (map (λ (k : Key). k.0) (map key ds))
      → set_device d ds ≡ ds
  unfolding set_device
  set_device-absent [] h = refl
  set_device-absent (x ∷ ds) h =
      let e : (x.id == d.id) ≡ false = ground arith in rw e (ap (◌∷◌ x) (set_device-absent ds h.1))

  All-free :
      (ds : List Device)
      → All (λ y. not (y == d.id) ≡ true) (map (λ (k : Key). k.0) (map key ds))
      → IsFree ds
      → All (λ y. not (y == f (key d)) ≡ true) (column ds)
  All-free [] h k = tt
  All-free (x ∷ ds) h k =
      ((elim k.0 [ inl e ↦ absurd (cc (e, h.0)) | inr n ↦ rw n refl ]), All-free ds h.1 k.1)

  -- A column stays free of repeats where one row takes a free value.
  column-set_device :
      (ds : List Device)
      → IsUnique (map (λ (k : Key). k.0) (map key ds))
      → IsFree ds
      → IsUnique (column ds)
      → IsUnique (column (set_device d ds))
  unfolding set_device
  column-set_device [] i k u = tt
  column-set_device (x ∷ ds) i k u = elim (Bool-cases (x.id == d.id)) [
    | inl e ↦
        let h =
          subst (λ n. All (λ y. not (y == n) ≡ true) (map (λ (k : Key). k.0) (map key ds)))
            ((eq_iff x.id d.id).0 e) i.0 in
        let rest : IsUnique (column (d ∷ set_device d ds)) =
          rw (set_device-absent ds h) (All-free ds h k.1, u.1) in
        rw e rest
    | inr n ↦
        let other : (f (key d) == f (key x)) ≡ false = differs x k.0 n in
        rw n (All-set_device (f (key x)) ds u.0 other, column-set_device ds i.1 k.1 u.1)
  ]
    where
      differs :
          (x : Device)
          → ((x.id == d.id) ≡ true) ⊎ ((f (key x) == f (key d)) ≡ false)
          → (x.id == d.id) ≡ false
          → (f (key d) == f (key x)) ≡ false
      differs x (inl t) n = absurd (cc (t, n))
      differs x (inr t) n =
          ground (arith, eq_iff (f (key d)) (f (key x)), eq_iff (f (key x)) (f (key d)))

  All-other :
      (a : A) (ds : List Device)
      → All (λ y. not (y == a) ≡ true) (column ds)
      → a ≡ f (key d)
      → IsFree ds
  All-other a [] h e = tt
  All-other a (x ∷ ds) h e = (inr (rw (← e) (ground arith)), All-other a ds h.1 e)

  -- The lookup of the value finds nobody else.
  pub find-IsFree :
      (test : Device → Bool) (ds : List Device)
      → ((x : Device) → test x ≡ (f (key x) == f (key d)))
      → IsUnique (column ds)
      → is_other d (find test ds) ≡ false
      → IsFree ds
  unfolding find
  find-IsFree test [] t u o = tt
  find-IsFree test (x ∷ ds) t u o = elim (Bool-cases (test x)) [
    | inl e ↦
        let o' : not (x.id == d.id) ≡ false = rw e at o in
        (
          inl (ground arith),
          All-other (f (key x)) ds u.0 ((eq_iff (f (key x)) (f (key d))).0 (sym (t x) ∙ e)),
        )
    | inr n ↦ (inr (sym (t x) ∙ n), find-IsFree test ds t u.1 (rw n at o))
  ]

  -- A column of which the row has the same value is as before.
  column-same :
      (ds : List Device)
      → All (λ (x : Device). ((x.id == d.id) ≡ false) ⊎ (f (key x) ≡ f (key d))) ds
      → column (set_device d ds) ≡ column ds
  unfolding set_device
  column-same [] h = refl
  column-same (x ∷ ds) h = elim (Bool-cases (x.id == d.id)) [
    | inr n ↦ rw n (ap (◌∷◌ (f (key x))) (column-same ds h.1))
    | inl e ↦ elim h.0 [
      | inl n ↦ absurd (cc (e, n))
      | inr s ↦ rw e (ap (◌∷◌ (f (key d))) (column-same ds h.1) ∙ ap (λ a. a ∷ column ds) (sym s))
    ]
  ]

-- A device of the keys `ks` after a change to the columns of the key `k`.
row-column :
    {A : Type 0} ⦃e : Eq A⦄ (f : Key → A) (d : Device) (k : Key) (ds : List Device)
    → IsRow (map key ds) k
    → d.id ≡ k.0
    → f k ≡ f (key d)
    → All (λ (x : Device). ((x.id == d.id) ≡ false) ⊎ (f (key x) ≡ f (key d))) ds
row-column f d k [] r i s = tt
row-column f d k (x ∷ ds) r i s =
    ((elim r.0 [ inl n ↦ inl (rw i n) | inr e ↦ inr (ap f e ∙ s) ]), row-column f d k ds r.1 i s)

module _ (d : Device) (k : Key) (db : Database) where
  -- A new name that no other device has.
  pub renamed-Distinct :
      IsRow (keys db) k
      → d.id ≡ k.0
      → k.1.1 ≡ d.mac
      → IsFree (λ (k : Key). k.1.0) d db.devices
      → Distinct db
      → Distinct (write_device d db)
  renamed-Distinct r i s free u = record {
    ids =
        subst IsUnique
          (sym (
            column-same (λ (k : Key). k.0) d db.devices
              (row-column (λ (k : Key). k.0) d k db.devices r i (sym i))))
          u.ids;
    names = column-set_device (λ (k : Key). k.1.0) d db.devices u.ids free u.names;
    macs =
        subst IsUnique
          (sym (
            column-same (λ (k : Key). k.1.1) d db.devices
              (row-column (λ (k : Key). k.1.1) d k db.devices r i s)))
          u.macs;
  }

  -- A new address that no other device has.
  pub moved-Distinct :
      IsRow (keys db) k
      → d.id ≡ k.0
      → k.1.0 ≡ d.name
      → IsFree (λ (k : Key). k.1.1) d db.devices
      → Distinct db
      → Distinct (write_device d db)
  moved-Distinct r i s free u = record {
    ids =
        subst IsUnique
          (sym (
            column-same (λ (k : Key). k.0) d db.devices
              (row-column (λ (k : Key). k.0) d k db.devices r i (sym i))))
          u.ids;
    names =
        subst IsUnique
          (sym (
            column-same (λ (k : Key). k.1.0) d db.devices
              (row-column (λ (k : Key). k.1.0) d k db.devices r i s)))
          u.names;
    macs = column-set_device (λ (k : Key). k.1.1) d db.devices u.ids free u.macs;
  }
