-- ===== src/Prelude/Strings/Laws.antt =====
-- Laws of splitting and joining, and of the tests on characters.
use Prim.Native.Nat.{ℕ}
use mathlib.Core.Path.{◌≡◌, refl, ap, ◌∙◌}
use mathlib.Core.Logic.{inl, inr}
use mathlib.Core.Bool.{false}
use mathlib.Core.List.{List, [], ◌∷◌, ◌++◌}
use native.Mathlib.Omega.{arith}
use net_father.Prelude.Tests.{eqb, if◌then◌else◌, Bool-cases}
use net_father.Prelude.Equality.{Text}
use net_father.Prelude.Lists.{any, All}
use net_father.Prelude.Strings.Chars.{split, join, is_space, lstrip, rstrip, strip}

pub split-ne_nil : (sep : ℕ) (s : Text) → split sep s ≡ [] → ⊥
unfolding split
split-ne_nil sep [] e = cc
split-ne_nil sep (c ∷ s) e = ground (arith, split-ne_nil sep s)

-- A text without the separator is one part.
pub split_single : (sep : ℕ) (s : Text) → any (λ c. eqb c sep) s ≡ false → split sep s ≡ s ∷ []
unfolding split any
split_single sep [] h = refl
split_single sep (c ∷ s) h = ground (arith, split_single sep s)

pub split-append :
    (sep : ℕ) (s t : Text)
    → any (λ c. eqb c sep) s ≡ false
    → split sep (s ++ (sep ∷ t)) ≡ s ∷ split sep t
unfolding split any
split-append sep [] t h = ground arith
split-append sep (c ∷ s) t h = ground (arith, split-append sep s t)

-- Splitting what was joined gives the parts back, if none of them holds the separator.
pub split-join :
    (sep : ℕ) (p : Text) (ps : List Text)
    → All (λ s. any (λ c. eqb c sep) s ≡ false) (p ∷ ps)
    → split sep (join (sep ∷ []) (p ∷ ps)) ≡ p ∷ ps
unfolding join
split-join sep p [] h = split_single sep p h.0
split-join sep p (q ∷ ps) h = rw (split-append sep p _ h.0) (ap (◌∷◌ p) (split-join sep q ps h.1))

-- What is put before a text that is stripped stays before it.
abbrev after_strip : ℕ → Text → Text
after_strip c [] = if is_space c then [] else c ∷ []
after_strip c (d ∷ r) = c ∷ d ∷ r

rstrip-cons : (c : ℕ) (s : Text) → rstrip (c ∷ s) ≡ after_strip c (rstrip s)
unfolding rstrip
rstrip-cons c s = refl

rstrip-after_strip : (c : ℕ) (t : Text) → rstrip t ≡ t → rstrip (after_strip c t) ≡ after_strip c t
rstrip-after_strip c [] h = elim (Bool-cases (is_space c)) [
  | inl e ↦ rw e h
  | inr e ↦ rw e (rstrip-cons c [] ∙ ap (after_strip c) h ∙ rw e refl)
]
rstrip-after_strip c (d ∷ r) h = rstrip-cons c (d ∷ r) ∙ ap (after_strip c) h

rstrip_nil : rstrip [] ≡ []
unfolding rstrip
rstrip_nil = refl

rstrip_idem : (s : Text) → rstrip (rstrip s) ≡ rstrip s
rstrip_idem [] = ap rstrip rstrip_nil
rstrip_idem (c ∷ s) = rw (rstrip-cons c s) (rstrip-after_strip c (rstrip s) (rstrip_idem s))

lstrip-after_strip :
    (c : ℕ) (t : Text) → is_space c ≡ false → lstrip (after_strip c t) ≡ after_strip c t
unfolding lstrip
lstrip-after_strip c [] h = rw (h, h) refl
lstrip-after_strip c (d ∷ r) h = rw h refl

lstrip-strip : (s : Text) → lstrip (rstrip (lstrip s)) ≡ rstrip (lstrip s)
unfolding lstrip rstrip
lstrip-strip [] = refl
lstrip-strip (c ∷ s) = elim (Bool-cases (is_space c)) [
  | inl e ↦ rw e (lstrip-strip s)
  | inr e ↦ rw e (lstrip-after_strip c (rstrip s) e)
]

-- Stripping twice is stripping once.
pub strip_idem : (s : Text) → strip (strip s) ≡ strip s
unfolding strip
strip_idem s = rw (lstrip-strip s) (rstrip_idem (lstrip s))

after_strip-no_space : (c : ℕ) (s : Text) → is_space c ≡ false → after_strip c s ≡ c ∷ s
after_strip-no_space c [] h = rw h refl
after_strip-no_space c (d ∷ s) h = refl

rstrip-no_space : (s : Text) → All (λ c. is_space c ≡ false) s → rstrip s ≡ s
rstrip-no_space [] h = rstrip_nil
rstrip-no_space (c ∷ s) h =
    rstrip-cons c s ∙ ap (after_strip c) (rstrip-no_space s h.1) ∙ after_strip-no_space c s h.0

lstrip-no_space : (s : Text) → All (λ c. is_space c ≡ false) s → lstrip s ≡ s
unfolding lstrip
lstrip-no_space [] h = refl
lstrip-no_space (c ∷ s) h = rw h.0 refl

-- A text without white space is stripped already.
pub strip-no_space : (s : Text) → All (λ c. is_space c ≡ false) s → strip s ≡ s
unfolding strip
strip-no_space s h = rw (lstrip-no_space s h) (rstrip-no_space s h)
