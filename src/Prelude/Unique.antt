-- ===== src/Prelude/Unique.antt =====
-- Lists without repeats, and what `dedupe` keeps.
use Prim.Native.Nat.{◌≤◌}
use mathlib.Core.Path.{◌≡◌, refl, ap, ◌∙◌}
use mathlib.Core.Logic.{inl, inr}
use mathlib.Core.Bool.{Bool, true, not}
use mathlib.Core.List.{List, [], ◌∷◌}
use native.Mathlib.Omega.{arith}
use net_father.Prelude.Tests.{Bool-cases}
use net_father.Prelude.Equality.{Eq, ◌==◌}
use net_father.Prelude.Lists.{All, In, keep, dedupe, length}

module _ {A : Type 0} where
  pub All-keep : (P : A → Type 0) (p : A → Bool) (xs : List A) → All P xs → All P (keep p xs)
  unfolding keep
  All-keep P p [] h = tt
  All-keep P p (x ∷ xs) h = elim (Bool-cases (p x)) [
    | inl e ↦ rw e (h.0, All-keep P p xs h.1)
    | inr e ↦ rw e (All-keep P p xs h.1)
  ]

  pub keep-All : (p : A → Bool) (xs : List A) → All (λ x. p x ≡ true) xs → keep p xs ≡ xs
  unfolding keep
  keep-All p [] h = refl
  keep-All p (x ∷ xs) h = ground (arith, keep-All p xs h.1)

  pub length-keep-le : (p : A → Bool) (xs : List A) → length (keep p xs) ≤ length xs
  unfolding keep
  length-keep-le p [] = omega arith
  length-keep-le p (x ∷ xs) = ground (arith, length-keep-le p xs)

  pub keep-test : (p : A → Bool) (xs : List A) → All (λ x. p x ≡ true) (keep p xs)
  unfolding keep
  keep-test p [] = tt
  keep-test p (x ∷ xs) = elim (Bool-cases (p x)) [
    | inl e ↦ rw e (e, keep-test p xs)
    | inr e ↦ rw e (keep-test p xs)
  ]

  pub All-of_In : (P : A → Type 0) (xs : List A) → ((a : A) → In a xs → P a) → All P xs
  All-of_In P [] h = tt
  All-of_In P (x ∷ xs) h = (h x (inl refl), All-of_In P xs (λ a m. h a (inr m)))

  pub In_of_All : (P : A → Type 0) (xs : List A) → All P xs → (a : A) → In a xs → P a
  In_of_All P [] h a m = absurd m
  In_of_All P (x ∷ xs) h a (inl e) = rw e at h.0
  In_of_All P (x ∷ xs) h a (inr m) = In_of_All P xs h.1 a m

module _ {A : Type 0} ⦃e : Eq A⦄ where
  abbrev pub IsUnique : List A → Type 0
  IsUnique [] = Unit
  IsUnique (x ∷ xs) = All (λ y. not (y == x) ≡ true) xs × IsUnique xs

  pub keep-IsUnique : (p : A → Bool) (xs : List A) → IsUnique xs → IsUnique (keep p xs)
  unfolding keep
  keep-IsUnique p [] h = tt
  keep-IsUnique p (x ∷ xs) h = elim (Bool-cases (p x)) [
    | inl t ↦ rw t (All-keep (λ y. not (y == x) ≡ true) p xs h.0, keep-IsUnique p xs h.1)
    | inr t ↦ rw t (keep-IsUnique p xs h.1)
  ]

  pub dedupe-IsUnique : (xs : List A) → IsUnique (dedupe xs)
  unfolding dedupe
  dedupe-IsUnique [] = tt
  dedupe-IsUnique (x ∷ xs) = (
    keep-test (λ y. not (y == x)) (dedupe xs),
    keep-IsUnique (λ y. not (y == x)) (dedupe xs) (dedupe-IsUnique xs),
  )

  pub dedupe_of_IsUnique : (xs : List A) → IsUnique xs → dedupe xs ≡ xs
  unfolding dedupe
  dedupe_of_IsUnique [] h = refl
  dedupe_of_IsUnique (x ∷ xs) h = ap (◌∷◌ x) (
      ap (keep (λ y. not (y == x))) (dedupe_of_IsUnique xs h.1)
      ∙ keep-All (λ y. not (y == x)) xs h.0)

  pub All-dedupe : (P : A → Type 0) (xs : List A) → All P xs → All P (dedupe xs)
  unfolding dedupe
  All-dedupe P [] h = tt
  All-dedupe P (x ∷ xs) h = (h.0, All-keep P (λ y. not (y == x)) (dedupe xs) (All-dedupe P xs h.1))

  pub length-dedupe-le : (xs : List A) → length (dedupe xs) ≤ length xs
  unfolding dedupe
  length-dedupe-le [] = omega arith
  length-dedupe-le (x ∷ xs) =
      omega (arith, length-dedupe-le xs, length-keep-le (λ y. not (y == x)) (dedupe xs))
