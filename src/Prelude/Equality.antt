-- ===== src/Prelude/Equality.antt =====
-- Equality tests as an interface, so that one operator serves numbers, texts and optional texts.
use Prim.Native.Nat.{ℕ}
use mathlib.Core.Path.{◌≡◌, refl}
use mathlib.Core.Logic.{◌↔◌}
use mathlib.Core.Bool.{Bool, true, false, ◌&&◌}
use mathlib.Core.List.{List, [], ◌∷◌}
use mathlib.Core.Option.{Option, none, some}
use native.Mathlib.Omega.{arith}
use net_father.Prelude.Tests.{eqb, eqb_iff}

pub record Eq {ℓ} (X : Type ℓ) : Type ℓ where
  pub same : X → X → Bool
  pub same_iff : (x y : X) → (same x y ≡ true) ↔ (x ≡ y)

module _ {ℓ} {X : Type ℓ} ⦃e : Eq X⦄ where
  infix 50 ◌==◌
  abbrev pub ◌==◌ : X → X → Bool
  x == y = e.same x y

  pub eq_iff : (x y : X) → ((x == y) ≡ true) ↔ (x ≡ y)
  eq_iff x y = e.same_iff x y

  pub eq_refl : (x : X) → (x == x) ≡ true
  eq_refl x = (e.same_iff x x).1 refl

instance abbrev pub nat_eq : Eq ℕ
nat_eq = record { same = eqb; same_iff = eqb_iff }

-- A text is the list of its code points.
abbrev pub Text : Type 0
Text = List ℕ

unfoldable pub text_eq : Text → Text → Bool
text_eq [] [] = true
text_eq (x ∷ xs) (y ∷ ys) = eqb x y && text_eq xs ys
text_eq _ _ = false

pub text_eq_iff : (s t : Text) → (text_eq s t ≡ true) ↔ (s ≡ t)
unfolding text_eq
text_eq_iff [] [] = ground arith
text_eq_iff [] (y ∷ ys) = ground arith
text_eq_iff (x ∷ xs) [] = ground arith
text_eq_iff (x ∷ xs) (y ∷ ys) = ground (arith, text_eq_iff xs ys)

instance abbrev pub text_eq_instance : Eq Text
text_eq_instance = record { same = text_eq; same_iff = text_eq_iff }

module _ {ℓ} {A : Type ℓ} ⦃e : Eq A⦄ where
  unfoldable pub option_eq : Option A → Option A → Bool
  option_eq none none = true
  option_eq (some a) (some b) = a == b
  option_eq _ _ = false

  pub option_eq_iff : (a b : Option A) → (option_eq a b ≡ true) ↔ (a ≡ b)
  unfolding option_eq
  option_eq_iff none none = ground arith
  option_eq_iff none (some b) = ground arith
  option_eq_iff (some a) none = ground arith
  option_eq_iff (some a) (some b) = ground (arith, e.same_iff a b)

instance abbrev pub option_eq_instance {ℓ} : {A : Type ℓ} ⦃e : Eq A⦄ → Eq (Option A)
option_eq_instance ⦃e⦄ = record { same = option_eq; same_iff = option_eq_iff }
