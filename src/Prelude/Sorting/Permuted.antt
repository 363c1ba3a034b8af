-- ===== src/Prelude/Sorting/Permuted.antt =====
-- Sorting of a permuted list, for Python's `sorted`.
use mathlib.Core.List.{Permᴰ, List, [], ◌∷◌}
use mathlib.Core.Path.{◌≡◌, refl, sym, ap, ◌∙◌, subst}
use mathlib.Core.Logic.{◌⊎◌, inl, inr}
use mathlib.Core.Bool.{Bool, true, false}
use net_father.Prelude.Tests.{Bool-cases}
use net_father.Prelude.Lists.{In}
use net_father.Prelude.Sorting.{insert, sort}

-- Sorting forgets the order of a list whose elements the strict order tells apart.
module _ {A : Type 0} (before : A → A → Bool)
    (asym : (x y : A) → before x y ≡ true → before y x ≡ false)
    (skip : (x y z : A) → before z y ≡ false → before y x ≡ false → before z x ≡ false) where
  abbrev pub Told : List A → Type 0
  Told xs = (x y : A) → In x xs → In y xs → (before x y ≡ true) ⊎ (before y x ≡ true) ⊎ (x ≡ y)

  past :
      (x y : A) (ys : List A)
      → before y x ≡ true
      → insert before x (y ∷ ys) ≡ y ∷ insert before x ys
  unfolding insert
  past x y ys h = rw h refl

  here : (x y : A) (ys : List A) → before y x ≡ false → insert before x (y ∷ ys) ≡ x ∷ y ∷ ys
  unfolding insert
  here x y ys h = rw h refl

  insert-insert :
      (x y : A) (zs : List A)
      → before x y ≡ true
      → insert before x (insert before y zs) ≡ insert before y (insert before x zs)
  unfolding insert
  insert-insert x y [] h = rw (h, asym x y h) refl
  insert-insert x y (z ∷ zs) h = elim (Bool-cases (before z x)) [
    | inl zx ↦ elim (Bool-cases (before z y)) [
      | inl zy ↦
          ap (insert before x) (past y z zs zy)
          ∙ past x z (insert before y zs) zx
          ∙ ap (λ ws. z ∷ ws) (insert-insert x y zs h)
          ∙ sym (past y z (insert before x zs) zy)
          ∙ sym (ap (insert before y) (past x z zs zx))
      | inr zy ↦ absurd (clash (sym zx ∙ skip x y z zy (asym x y h)))
    ]
    | inr zx ↦
        later z zs zx ∙ sym (past y x (z ∷ zs) h) ∙ sym (ap (insert before y) (here x z zs zx))
  ]
    where
      clash : true ≡ false → ⊥
      clash e = cc

      later :
          (z : A) (zs : List A)
          → before z x ≡ false
          → insert before x (insert before y (z ∷ zs)) ≡ x ∷ insert before y (z ∷ zs)
      later z zs zx = elim (Bool-cases (before z y)) [
        | inl zy ↦
            ap (insert before x) (past y z zs zy)
            ∙ here x z (insert before y zs) zx
            ∙ ap (λ ws. x ∷ ws) (sym (past y z zs zy))
        | inr zy ↦
            ap (insert before x) (here y z zs zy)
            ∙ here x y (z ∷ zs) (asym x y h)
            ∙ ap (λ ws. x ∷ ws) (sym (here y z zs zy))
      ]

  insert-swap :
      (x y : A) (zs : List A)
      → (before x y ≡ true) ⊎ (before y x ≡ true) ⊎ (x ≡ y)
      → insert before x (insert before y zs) ≡ insert before y (insert before x zs)
  insert-swap x y zs (inl h) = insert-insert x y zs h
  insert-swap x y zs (inr (inl h)) = sym (insert-insert y x zs h)
  insert-swap x y zs (inr (inr e)) =
      subst (λ v. insert before x (insert before v zs) ≡ insert before v (insert before x zs)) e
        refl

  In-permᴰ : {xs ys : List A} (a : A) → Permᴰ xs ys → In a ys → In a xs
  In-permᴰ a Permᴰ.nil m = m
  In-permᴰ a (Permᴰ.cons e d) (inl h) = inl (e ∙ h)
  In-permᴰ a (Permᴰ.cons e d) (inr m) = inr (In-permᴰ a d m)
  In-permᴰ a (Permᴰ.swap e f) (inl h) = inr (inl (f ∙ h))
  In-permᴰ a (Permᴰ.swap e f) (inr (inl h)) = inl (e ∙ h)
  In-permᴰ a (Permᴰ.swap e f) (inr (inr m)) = inr (inr m)
  In-permᴰ a (Permᴰ.trans d d') m = In-permᴰ a d (In-permᴰ a d' m)

  pub sort-permᴰ : {xs ys : List A} → Permᴰ xs ys → Told xs → sort before xs ≡ sort before ys
  unfolding sort
  sort-permᴰ Permᴰ.nil t = refl
  sort-permᴰ (Permᴰ.cons {a = a} {l₂ = ys} e d) t =
      ap (insert before a) (sort-permᴰ d (λ x y m n. t x y (inr m) (inr n)))
      ∙ ap (λ v. insert before v (sort before ys)) e
  sort-permᴰ (Permᴰ.swap {a = a} {b = b} {a' = a'} {l = l} e f) t =
      insert-swap a b (sort before l) (t a b (inl refl) (inr (inl refl)))
      ∙ ap (λ v. insert before v (insert before a (sort before l))) f
      ∙ ap (λ v. insert before a' (insert before v (sort before l))) e
  sort-permᴰ (Permᴰ.trans d d') t =
      sort-permᴰ d t ∙ sort-permᴰ d' (λ x y m n. t x y (In-permᴰ x d m) (In-permᴰ y d n))
