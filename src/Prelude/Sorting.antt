-- ===== src/Prelude/Sorting.antt =====
-- Python's `sorted` and `set`: a stable insertion sort by a Boolean order, and removal of repeats.
pub mod Permuted
use mathlib.Core.List.Perm
use mathlib.Core.List.{Perm}
use mathlib.Core.Path.{◌≡◌, refl, sym, ap, ◌∙◌, subst}
use mathlib.Core.Logic.{◌⊎◌, inl, inr}
use mathlib.Core.Bool.{Bool, true, false, not, ◌&&◌}
use mathlib.Core.Option.{some}
use mathlib.Core.List.{List, [], ◌∷◌}
use native.Mathlib.Omega.{arith}
use net_father.Prelude.Tests.{if◌then◌else◌, Bool-cases}
use net_father.Prelude.Equality.{Eq, ◌==◌, eq_iff}
use Prim.Native.Nat.{suc}
use net_father.Prelude.Lists.{length, All, In, any, find, some_injective}
use net_father.Prelude.Unique.{IsUnique, All-of_In, In_of_All}

module _ {ℓ} {A : Type ℓ} (before : A → A → Bool) where
  -- `x` goes in front of the first element that is not before it, so equal keys keep their order.
  unfoldable pub insert : A → List A → List A
  insert x [] = x ∷ []
  insert x (y ∷ ys) = if before y x then y ∷ insert x ys else x ∷ y ∷ ys

  unfoldable pub sort : List A → List A
  unfolding insert
  sort [] = []
  sort (x ∷ xs) = insert x (sort xs)

  -- No element has a later one before it.
  abbrev pub IsSorted : List A → Type ℓ
  IsSorted [] = Unit
  IsSorted (x ∷ xs) = All (λ y. before y x ≡ false) xs × IsSorted xs

  pub insert-perm : (x : A) (xs : List A) → Perm (insert x xs) (x ∷ xs)
  unfolding insert
  insert-perm x [] = Perm.refl _
  insert-perm x (y ∷ ys) = elim (Bool-cases (before y x)) [
    | inl e ↦ rw e (Perm.trans (Perm.cons y (insert-perm x ys)) (Perm.swap x y ys))
    | inr e ↦ rw e (Perm.refl _)
  ]

  pub sort-perm : (xs : List A) → Perm (sort xs) xs
  unfolding sort
  sort-perm [] = Perm.refl _
  sort-perm (x ∷ xs) = Perm.trans (insert-perm x (sort xs)) (Perm.cons x (sort-perm xs))

-- Sorting sorts, for a strict order whose incomparable elements are interchangeable.
module _ {ℓ} {A : Type ℓ} (before : A → A → Bool)
    (asym : (x y : A) → before x y ≡ true → before y x ≡ false)
    (skip : (x y z : A) → before z y ≡ false → before y x ≡ false → before z x ≡ false) where
  All-insert : (P : A → Type 0) (x : A) (xs : List A) → P x → All P xs → All P (insert before x xs)
  unfolding insert
  All-insert P x [] p h = (p, tt)
  All-insert P x (y ∷ ys) p h = elim (Bool-cases (before y x)) [
    | inl e ↦ rw e (h.0, All-insert P x ys p h.1)
    | inr e ↦ rw e (p, h)
  ]

  All-skip :
      (x y : A) (ys : List A)
      → before y x ≡ false
      → All (λ z. before z y ≡ false) ys
      → All (λ z. before z x ≡ false) ys
  All-skip x y [] e h = tt
  All-skip x y (z ∷ zs) e h = (skip x y z h.0 e, All-skip x y zs e h.1)

  insert-IsSorted :
      (x : A) (xs : List A) → IsSorted before xs → IsSorted before (insert before x xs)
  unfolding insert
  insert-IsSorted x [] s = (tt, tt)
  insert-IsSorted x (y ∷ ys) s = elim (Bool-cases (before y x)) [
    | inl e ↦
        rw e (All-insert (λ z. before z y ≡ false) x ys (asym y x e) s.0, insert-IsSorted x ys s.1)
    | inr e ↦ rw e ((e, All-skip x y ys e s.0), s)
  ]

  pub sort-IsSorted : (xs : List A) → IsSorted before (sort before xs)
  unfolding sort
  sort-IsSorted [] = tt
  sort-IsSorted (x ∷ xs) = insert-IsSorted x (sort before xs) (sort-IsSorted xs)

module _ {A : Type 0} (before : A → A → Bool) where
  In-insert : (a x : A) (xs : List A) → In a (insert before x xs) → (x ≡ a) ⊎ In a xs
  unfolding insert
  In-insert a x [] m = m
  In-insert a x (y ∷ ys) m = elim (Bool-cases (before y x)) [
    | inl e ↦
        let m' : (y ≡ a) ⊎ In a (insert before x ys) = rw e at m in
        elim m' [
          | inl h ↦ inr (inl h)
          | inr t ↦ elim (In-insert a x ys t) [ inl h ↦ inl h | inr k ↦ inr (inr k) ]
        ]
    | inr e ↦ let m' : (x ≡ a) ⊎ In a (y ∷ ys) = rw e at m in m'
  ]

  pub In-sort : (a : A) (xs : List A) → In a (sort before xs) → In a xs
  unfolding sort
  In-sort a [] m = m
  In-sort a (x ∷ xs) m = elim (In-insert a x (sort before xs) m) [
    | inl h ↦ inl h
    | inr t ↦ inr (In-sort a xs t)
  ]

  insert-In : (a x : A) (xs : List A) → (x ≡ a) ⊎ In a xs → In a (insert before x xs)
  unfolding insert
  insert-In a x [] m = m
  insert-In a x (y ∷ ys) m = elim (Bool-cases (before y x)) [
    | inr e ↦ rw e m
    | inl e ↦ rw e (elim m [
      | inl h ↦ inr (insert-In a x ys (inl h))
      | inr (inl h) ↦ inl h
      | inr (inr t) ↦ inr (insert-In a x ys (inr t))
    ])
  ]

  pub sort-In : (a : A) (xs : List A) → In a xs → In a (sort before xs)
  unfolding sort
  sort-In a [] m = m
  sort-In a (x ∷ xs) (inl h) = insert-In a x (sort before xs) (inl h)
  sort-In a (x ∷ xs) (inr t) = insert-In a x (sort before xs) (inr (sort-In a xs t))

  -- In a sorted list the first element that passes a test has no other such element before it.
  pub find-first :
      (irreflexive : (x : A) → before x x ≡ false) (p : A → Bool) (xs : List A) (w : A)
      → IsSorted before xs
      → find p xs ≡ some w
      → any (λ r. p r && before r w) xs ≡ false
  unfolding find any
  find-first irr p [] w s h = refl
  find-first irr p (x ∷ xs) w s h = elim (Bool-cases (p x)) [
    | inl e ↦
        let x_is_w : x ≡ w = some_injective (rw e at h) in
        subst (λ v. any (λ r. p r && before r v) (x ∷ xs) ≡ false) x_is_w
          (rw (e, irr x) (no_before xs s.0))
    | inr e ↦ rw e (find-first irr p xs w s.1 (rw e at h))
  ]
    where
      no_before :
          (ys : List A) → All (λ y. before y x ≡ false) ys → any (λ r. p r && before r x) ys ≡ false
      no_before [] t = refl
      no_before (y ∷ ys) t = ground (arith, t.0, no_before ys t.1)

module _ {A : Type 0} (before : A → A → Bool) where
  insert-front :
      (x : A) (xs : List A) → All (λ y. before y x ≡ false) xs → insert before x xs ≡ x ∷ xs
  unfolding insert
  insert-front x [] h = refl
  insert-front x (y ∷ ys) h = rw h.0 refl

  pub sort_of_IsSorted : (xs : List A) → IsSorted before xs → sort before xs ≡ xs
  unfolding sort
  sort_of_IsSorted [] h = refl
  sort_of_IsSorted (x ∷ xs) h =
      ap (insert before x) (sort_of_IsSorted xs h.1) ∙ insert-front x xs h.0

  pub All-sort : (P : A → Type 0) (xs : List A) → All P xs → All P (sort before xs)
  All-sort P xs h = All-of_In P (sort before xs) (λ a m. In_of_All P xs h a (In-sort before a xs m))

  module _ ⦃e : Eq A⦄ where
    All-inserted :
        (P : A → Type 0) (x : A) (xs : List A) → P x → All P xs → All P (insert before x xs)
    All-inserted P x xs p h =
        All-of_In P (insert before x xs)
          (λ a m. In_of_All P (x ∷ xs) (p, h) a (In-insert before a x xs m))

    insert-IsUnique :
        (x : A) (xs : List A)
        → All (λ y. not (y == x) ≡ true) xs
        → IsUnique xs
        → IsUnique (insert before x xs)
    unfolding insert
    insert-IsUnique x [] h u = (tt, tt)
    insert-IsUnique x (y ∷ ys) h u = elim (Bool-cases (before y x)) [
      | inr b ↦ rw b (h, u)
      | inl b ↦
          let differs : not (x == y) ≡ true = ground (arith, eq_iff x y, eq_iff y x, h.0) in
          rw b
            (All-inserted (λ z. not (z == y) ≡ true) x ys differs u.0, insert-IsUnique x ys h.1 u.1)
    ]

    pub sort-IsUnique : (xs : List A) → IsUnique xs → IsUnique (sort before xs)
    unfolding sort
    sort-IsUnique [] u = tt
    sort-IsUnique (x ∷ xs) u =
        insert-IsUnique x (sort before xs) (All-sort _ xs u.0) (sort-IsUnique xs u.1)

module _ {A : Type 0} (before : A → A → Bool) where
  length-insert : (x : A) (xs : List A) → length (insert before x xs) ≡ suc (length xs)
  unfolding insert
  length-insert x [] = refl
  length-insert x (y ∷ ys) = ground (arith, length-insert x ys)

  pub length-sort : (xs : List A) → length (sort before xs) ≡ length xs
  unfolding sort
  length-sort [] = refl
  length-sort (x ∷ xs) = length-insert x (sort before xs) ∙ ap suc (length-sort xs)
