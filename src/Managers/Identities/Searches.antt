-- ===== src/Managers/Identities/Searches.antt =====
-- Searches through a table from which the rows of a device are taken.
use net_father.Prelude.{
  ◌≡◌, refl, sym, ap, subst, inl, inr, Bool, true, false, not, ◌==◌, eq_iff, eq_refl, nat_eq,
  text_eq_instance, none, some, List, [], ◌∷◌, ◌++◌, map, any, keep, find, if◌then◌else◌, Text,
  Bool-cases, All, In, In_of_All, IsUnique, arith,
}
use net_father.Models.{Device}
use net_father.Managers.Devices.Keys.{Key, key, In-map}

pub keep-none :
    {A : Type 0} (p : A → Bool) (xs : List A) → any p xs ≡ false → keep (λ x. not (p x)) xs ≡ xs
unfolding keep any
keep-none p [] h = refl
keep-none p (x ∷ xs) h = ground (arith, keep-none p xs)

-- A search skips what is taken out before it, if that fails the test.
pub find-keep :
    {A : Type 0} (p q : A → Bool) (xs : List A)
    → ((x : A) → p x ≡ true → q x ≡ true)
    → find p (keep q xs) ≡ find p xs
unfolding find keep
find-keep p q [] h = refl
find-keep p q (x ∷ xs) h = elim (Bool-cases (q x)) [
  | inl e ↦ rw e (ap (λ o. if p x then some x else o) (find-keep p q xs h))
  | inr e ↦ elim (Bool-cases (p x)) [
    | inl f ↦ absurd (cc (h x f, e))
    | inr f ↦ rw (e, f) (find-keep p q xs h)
  ]
]

-- The element that is put last is found, if none before it passes the test.
pub find-last :
    {A : Type 0} (p q : A → Bool) (xs : List A) (y : A)
    → find p xs ≡ none
    → p y ≡ true
    → q y ≡ true
    → find p (keep q (xs ++ (y ∷ []))) ≡ some y
unfolding find keep
find-last p q [] y h t k = rw (k, t) refl
find-last p q (x ∷ xs) y h t k = elim (Bool-cases (p x)) [
  | inl e ↦ absurd (cc (rw e at h))
  | inr e ↦
      let ih = find-last p q xs y (rw e at h) t k in
      elim (Bool-cases (q x)) [ inl f ↦ rw (f, e) ih | inr f ↦ rw f ih ]
]

pub any-keep_none :
    {A : Type 0} (p q : A → Bool) (xs : List A) → any p xs ≡ false → any p (keep q xs) ≡ false
unfolding any keep
any-keep_none p q [] h = refl
any-keep_none p q (x ∷ xs) h = ground (arith, any-keep_none p q xs)

pub no_mac :
    (c : Text) (ds : List Device)
    → All (λ y. not (y == c) ≡ true) (map (λ (k : Key). k.1.1) (map key ds))
    → any (λ (d : Device). d.mac == c) ds ≡ false
unfolding any
no_mac c [] h = refl
no_mac c (x ∷ ds) h = let rest = no_mac c ds h.1 in ground arith

-- With distinct addresses, nobody has the address of a device that is taken out.
pub mac-gone :
    (c : Device) (ds : List Device)
    → In c ds
    → IsUnique (map (λ (k : Key). k.1.1) (map key ds))
    → any (λ (d : Device). d.mac == c.mac) (keep (λ (d : Device). not (d.id == c.id)) ds) ≡ false
unfolding any keep
mac-gone c [] m u = absurd m
mac-gone c (x ∷ ds) (inl e) u =
    let rest =
      any-keep_none (λ (d : Device). d.mac == c.mac) (λ (d : Device). not (d.id == c.id)) ds
        (no_mac c.mac ds (
          subst
            (λ (z : Device).
              All (λ y. not (y == z.mac) ≡ true) (map (λ (k : Key). k.1.1) (map key ds)))
            e u.0)) in
    let same : (x.id == c.id) ≡ true =
      subst (λ (z : Device). (z.id == c.id) ≡ true) (sym e) (eq_refl c.id) in
    rw same rest
mac-gone c (x ∷ ds) (inr m) u =
    let rest = mac-gone c ds m u.1 in
    let n =
      In_of_All (λ y. not (y == x.mac) ≡ true) _ u.0 c.mac
        (In-map (λ (k : Key). k.1.1) (key c) (map key ds) (In-map key c ds m)) in
    let other : (x.mac == c.mac) ≡ false = ground (arith, eq_iff x.mac c.mac, eq_iff c.mac x.mac) in
    elim (Bool-cases (x.id == c.id)) [ inl e ↦ rw e rest | inr e ↦ rw (e, other) rest ]
