-- ===== src/Prelude/Lists.antt =====
-- Lists: native lengths, Boolean searches, Python's `next`, `set` and `dict.fromkeys`.
use Prim.Native.Nat.{ℕ, zero, suc, ◌+◌}
use mathlib.Core.Path.{◌≡◌, ◌∙◌, refl}
use mathlib.Core.Logic.{∥∥₁_elim, ◌↔◌, ◌⊎◌, inl, inr}
use mathlib.Core.Bool.{Bool-set, Bool, true, false, not, ◌&&◌, ◌||◌}
use mathlib.Core.Option.{Option, none, some}
use mathlib.Core.List.{Perm, Permᴰ, List, [], ◌∷◌, ◌++◌}
use native.Mathlib.Omega.{arith}
use net_father.Prelude.Tests.{if◌then◌else◌, Bool-cases}
use net_father.Prelude.Equality.{Eq, ◌==◌, eq_iff}

module _ {ℓ} {A : Type ℓ} where
  abbrev pub length : List A → ℕ
  length [] = 0
  length (x ∷ xs) = suc (length xs)

  abbrev pub take : ℕ → List A → List A
  take zero xs = []
  take (suc n) [] = []
  take (suc n) (x ∷ xs) = x ∷ take n xs

  abbrev pub drop : ℕ → List A → List A
  drop zero xs = xs
  drop (suc n) [] = []
  drop (suc n) (x ∷ xs) = drop n xs

  unfoldable pub any : (A → Bool) → List A → Bool
  any p [] = false
  any p (x ∷ xs) = p x || any p xs

  unfoldable pub all : (A → Bool) → List A → Bool
  all p [] = true
  all p (x ∷ xs) = p x && all p xs

  -- `[x for x in xs if p(x)]`
  unfoldable pub keep : (A → Bool) → List A → List A
  keep p [] = []
  keep p (x ∷ xs) = if p x then x ∷ keep p xs else keep p xs

  -- `next((x for x in xs if p(x)), None)`
  unfoldable pub find : (A → Bool) → List A → Option A
  find p [] = none
  find p (x ∷ xs) = if p x then some x else find p xs

  -- `sum(1 for x in xs if p(x))`
  unfoldable pub count : (A → Bool) → List A → ℕ
  count p [] = 0
  count p (x ∷ xs) = (if p x then 1 else 0) + count p xs

  abbrev pub All {κ} : (A → Type κ) → List A → Type κ
  All P [] = Unit
  All P (x ∷ xs) = P x × All P xs

  abbrev pub is_some : Option A → Bool
  is_some none = false
  is_some (some _) = true

  pub some_injective : {a b : A} → some a ≡ some b → a ≡ b
  some_injective h = cc

  pub any-append : (p : A → Bool) (xs ys : List A) → any p (xs ++ ys) ≡ (any p xs || any p ys)
  unfolding any
  any-append p [] ys = refl
  any-append p (x ∷ xs) ys = ground (arith, any-append p xs ys)

  -- A search finds something exactly when a test of all finds something.
  pub is_some-find : (p : A → Bool) (xs : List A) → is_some (find p xs) ≡ any p xs
  unfolding find any
  is_some-find p [] = refl
  is_some-find p (x ∷ xs) = ground (arith, is_some-find p xs)

  pub find-none : (p : A → Bool) (xs : List A) → any p xs ≡ false → find p xs ≡ none
  unfolding find any
  find-none p [] h = refl
  find-none p (x ∷ xs) h = ground (arith, find-none p xs)

  pub find-test : (p : A → Bool) (xs : List A) {a : A} → find p xs ≡ some a → p a ≡ true
  unfolding find
  find-test p [] h = cc
  find-test p (x ∷ xs) {a} h = elim (Bool-cases (p x)) [
    | inl e ↦ ground arith
    | inr e ↦ find-test p xs (rw e at h)
  ]

  pub any-keep : (p q : A → Bool) (xs : List A) → any q (keep p xs) ≡ any (λ x. p x && q x) xs
  unfolding any keep
  any-keep p q [] = refl
  any-keep p q (x ∷ xs) = ground (arith, any-keep p q xs)

  anyᴰ-perm : (p : A → Bool) {xs ys : List A} → Permᴰ xs ys → any p xs ≡ any p ys
  unfolding any
  anyᴰ-perm p Permᴰ.nil = refl
  anyᴰ-perm p (Permᴰ.cons e d) = rw (e, anyᴰ-perm p d)
  anyᴰ-perm p (Permᴰ.swap {a = a} {b = b} e f) = rw (← e, ← f) (ground arith)
  anyᴰ-perm p (Permᴰ.trans d d') = anyᴰ-perm p d ∙ anyᴰ-perm p d'

  -- A test of some element does not see the order.
  pub any-perm : (p : A → Bool) {xs ys : List A} → Perm xs ys → any p xs ≡ any p ys
  any-perm p h = ∥∥₁_elim h (Bool-set _ _) (anyᴰ-perm p)

abbrev pub In : {A : Type 0} → A → List A → Type 0
In a [] = ⊥
In a (x ∷ xs) = (x ≡ a) ⊎ In a xs

module _ {A : Type 0} where
  pub In-append_left : (a : A) (xs ys : List A) → In a xs → In a (xs ++ ys)
  In-append_left a [] ys m = elim m [ ]
  In-append_left a (x ∷ xs) ys (inl e) = inl e
  In-append_left a (x ∷ xs) ys (inr m) = inr (In-append_left a xs ys m)

  pub In-append_right : (a : A) (xs ys : List A) → In a ys → In a (xs ++ ys)
  In-append_right a [] ys m = m
  In-append_right a (x ∷ xs) ys m = inr (In-append_right a xs ys m)

  pub In-keep : (p : A → Bool) (a : A) (xs : List A) → In a (keep p xs) ↔ (In a xs × (p a ≡ true))
  unfolding keep
  In-keep p a [] = ((λ m. absurd m), (λ m. m.0))
  In-keep p a (x ∷ xs) = ground (arith, In-keep p a xs)

  pub find-In : (p : A → Bool) (xs : List A) {a : A} → find p xs ≡ some a → In a xs
  unfolding find
  find-In p [] h = cc
  find-In p (x ∷ xs) h = elim (Bool-cases (p x)) [
    | inl e ↦ inl (some_injective (rw e at h))
    | inr e ↦ inr (find-In p xs (rw e at h))
  ]

  pub any_of_In : (p : A → Bool) (a : A) (xs : List A) → In a xs → p a ≡ true → any p xs ≡ true
  unfolding any
  any_of_In p a [] m h = elim m [ ]
  any_of_In p a (x ∷ xs) (inl e) h = ground arith
  any_of_In p a (x ∷ xs) (inr m) h = ground (arith, any_of_In p a xs m h)

  pub In-of_any : (p : A → Bool) (xs : List A) → any p xs ≡ true → (a : A) × In a xs × (p a ≡ true)
  unfolding any
  In-of_any p [] h = cc
  In-of_any p (x ∷ xs) h = elim (Bool-cases (p x)) [
    | inl e ↦ (x, inl refl, e)
    | inr e ↦ let (a, m, t) = In-of_any p xs (rw e at h) in (a, inr m, t)
  ]

module _ {A : Type 0} ⦃e : Eq A⦄ where
  -- `a in xs`
  abbrev pub contains : A → List A → Bool
  contains a xs = any (λ x. x == a) xs

  pub contains_iff : (a : A) (xs : List A) → (contains a xs ≡ true) ↔ In a xs
  unfolding any
  contains_iff a [] = ground arith
  contains_iff a (x ∷ xs) = ground (arith, eq_iff x a, contains_iff a xs)

  -- `dict.fromkeys(xs)`: the first of equal elements stays.
  unfoldable pub dedupe : List A → List A
  unfolding keep
  dedupe [] = []
  dedupe (x ∷ xs) = x ∷ keep (λ y. not (y == x)) (dedupe xs)

  pub In-dedupe : (a : A) (xs : List A) → In a (dedupe xs) ↔ In a xs
  unfolding dedupe
  In-dedupe a [] = ((λ m. m), (λ m. m))
  In-dedupe a (x ∷ xs) =
      ground (arith, In-dedupe a xs, eq_iff a x, In-keep (λ y. not (y == x)) a (dedupe xs))
