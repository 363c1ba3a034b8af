-- ===== src/Net/Mac/Normal.antt =====
-- The normal form of hardware addresses.
use net_father.Prelude.{
  ℕ, zero, suc, ◌≡◌, refl, ap, subst, Bool, true, false, ◌&&◌, ◌||◌, [], ◌∷◌, eqb, leb, All,
  if◌then◌else◌, Bool-cases, inl, inr, Text, ok, ok_injective, err_not_ok, arith,
}
use net_father.Prelude.Strings.{
  is_digit, is_hex, is_space, strip, strip-no_space, to_upper, upper, replace,
}
use net_father.Net.Mac.{is_mac, normalize_mac}

-- A digit or a capital letter up to F.
abbrev is_capital : ℕ → Bool
is_capital c = is_digit c || leb b'A' c && leb c b'F'

-- Pairs of them with colons between.
unfoldable pub is_normal : ℕ → Text → Bool
is_normal zero (a ∷ (b ∷ [])) = is_capital a && is_capital b
is_normal (suc n) (a ∷ (b ∷ (sep ∷ rest))) =
    is_capital a && is_capital b && eqb sep b':' && is_normal n rest
is_normal _ _ = false

abbrev colon : ℕ → ℕ
colon c = if eqb c b'-' then b':' else c

capital-hex : (c : ℕ) → is_hex c ≡ true → is_capital (colon (to_upper c)) ≡ true
unfolding to_upper
capital-hex c h = ground arith

colon-separator : (c : ℕ) → (eqb c b':' || eqb c b'-') ≡ true → eqb (colon (to_upper c)) b':' ≡ true
unfolding to_upper
colon-separator c h = ground arith

capital-fixed : (c : ℕ) → is_capital c ≡ true → colon (to_upper c) ≡ c
unfolding to_upper
capital-fixed c h = ground arith

is_mac-normal :
    (n : ℕ) (s : Text) → is_mac n s ≡ true → is_normal n (replace b'-' b':' (upper s)) ≡ true
unfolding is_mac is_normal replace upper
is_mac-normal zero (a ∷ (b ∷ [])) h =
    let p = capital-hex a (ground arith) in let q = capital-hex b (ground arith) in rw (p, q) refl
is_mac-normal (suc n) (a ∷ (b ∷ (c ∷ s))) h =
    let p = capital-hex a (ground arith) in
    let q = capital-hex b (ground arith) in
    let r = colon-separator c (ground arith) in
    let t = is_mac-normal n s (ground arith) in rw (p, q, r, t) refl
is_mac-normal zero [] h = cc
is_mac-normal zero (a ∷ []) h = cc
is_mac-normal zero (a ∷ (b ∷ (c ∷ s))) h = cc
is_mac-normal (suc n) [] h = cc
is_mac-normal (suc n) (a ∷ []) h = cc
is_mac-normal (suc n) (a ∷ (b ∷ [])) h = cc

is_normal-mac : (n : ℕ) (s : Text) → is_normal n s ≡ true → is_mac n s ≡ true
unfolding is_mac is_normal
is_normal-mac zero (a ∷ (b ∷ [])) h = ground arith
is_normal-mac (suc n) (a ∷ (b ∷ (c ∷ s))) h =
    let t = is_normal-mac n s (ground arith) in ground arith
is_normal-mac zero [] h = cc
is_normal-mac zero (a ∷ []) h = cc
is_normal-mac zero (a ∷ (b ∷ (c ∷ s))) h = cc
is_normal-mac (suc n) [] h = cc
is_normal-mac (suc n) (a ∷ []) h = cc
is_normal-mac (suc n) (a ∷ (b ∷ [])) h = cc

separator-fixed : (c : ℕ) → eqb c b':' ≡ true → colon (to_upper c) ≡ c
unfolding to_upper
separator-fixed c h = ground arith

is_normal-fixed : (n : ℕ) (s : Text) → is_normal n s ≡ true → replace b'-' b':' (upper s) ≡ s
unfolding is_normal replace upper
is_normal-fixed zero (a ∷ (b ∷ [])) h =
    rw (capital-fixed a (ground arith), capital-fixed b (ground arith)) refl
is_normal-fixed (suc n) (a ∷ (b ∷ (c ∷ s))) h =
    rw
      (
        capital-fixed a (ground arith),
        capital-fixed b (ground arith),
        separator-fixed c (ground arith),
      )
      (ap (λ t. a ∷ b ∷ c ∷ t) (is_normal-fixed n s (ground arith)))
is_normal-fixed zero [] h = cc
is_normal-fixed zero (a ∷ []) h = cc
is_normal-fixed zero (a ∷ (b ∷ (c ∷ s))) h = cc
is_normal-fixed (suc n) [] h = cc
is_normal-fixed (suc n) (a ∷ []) h = cc
is_normal-fixed (suc n) (a ∷ (b ∷ [])) h = cc

capital-no_space : (c : ℕ) → is_capital c ≡ true → is_space c ≡ false
unfolding is_space
capital-no_space c h = ground arith

colon-no_space : (c : ℕ) → eqb c b':' ≡ true → is_space c ≡ false
unfolding is_space
colon-no_space c h = ground arith

is_normal-no_space : (n : ℕ) (s : Text) → is_normal n s ≡ true → All (λ c. is_space c ≡ false) s
unfolding is_normal
is_normal-no_space zero (a ∷ (b ∷ [])) h =
    (capital-no_space a (ground arith), (capital-no_space b (ground arith), tt))
is_normal-no_space (suc n) (a ∷ (b ∷ (c ∷ s))) h = (
  capital-no_space a (ground arith),
  (
    capital-no_space b (ground arith),
    (colon-no_space c (ground arith), is_normal-no_space n s (ground arith)),
  ),
)
is_normal-no_space zero [] h = cc
is_normal-no_space zero (a ∷ []) h = cc
is_normal-no_space zero (a ∷ (b ∷ (c ∷ s))) h = cc
is_normal-no_space (suc n) [] h = cc
is_normal-no_space (suc n) (a ∷ []) h = cc
is_normal-no_space (suc n) (a ∷ (b ∷ [])) h = cc

normalize_mac-fixed : (t : Text) → is_normal 5 t ≡ true → normalize_mac t ≡ ok t
unfolding normalize_mac
normalize_mac-fixed t h =
    rw (strip-no_space t (is_normal-no_space 5 t h), is_normal-mac 5 t h, is_normal-fixed 5 t h)
      refl

pub normalize_mac-normal : (v t : Text) → normalize_mac v ≡ ok t → is_normal 5 t ≡ true
unfolding normalize_mac
normalize_mac-normal v t h = elim (Bool-cases (is_mac 5 (strip v))) [
  | inl e ↦
      subst (λ x. is_normal 5 x ≡ true) (ok_injective (rw e at h)) (is_mac-normal 5 (strip v) e)
  | inr e ↦ absurd (err_not_ok (rw e at h))
]

-- What the normalization of a hardware address accepts it leaves as it is the second time.
pub normalize_mac_idem : (v t : Text) → normalize_mac v ≡ ok t → normalize_mac t ≡ ok t
normalize_mac_idem v t h = normalize_mac-fixed t (normalize_mac-normal v t h)
