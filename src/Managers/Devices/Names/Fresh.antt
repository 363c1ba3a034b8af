-- ===== src/Managers/Devices/Names/Fresh.antt =====
-- The search of `_auto_name` ends at a name that is free.
use net_father.Prelude.{
  ℕ, zero, suc, ◌+◌, ◌-◌, ◌*◌, ◌/◌, ◌%◌, ◌<◌, ◌≤◌, ◌≡◌, refl, sym, ap, ◌∙◌, subst, true, false, not,
  List, [], ◌∷◌, ◌++◌, length, keep, contains, any, eqb, eq_iff, text_eq_instance, Bool-cases, inl,
  inr, Text, arith, ◌==◌,
}
use net_father.Prelude.Strings.{decimal, decimal_from}
use net_father.Net.Hosts.{DiscoveredHost}
use net_father.Managers.Devices.Names.{plain_name, numbered, seek_name, auto_name}

-- The number that decimal digits are read as.
abbrev digits_value : ℕ → Text → ℕ
digits_value acc [] = acc
digits_value acc (c ∷ s) = digits_value (acc * 10 + (c - 48)) s

-- Writing digits before a text is reading them before it.
decimal_from-value :
    (fuel n : ℕ) (acc : Text)
    → n < fuel
    → digits_value 0 (decimal_from fuel n acc) ≡ digits_value n acc
unfolding decimal_from
decimal_from-value zero n acc h = absurd (omega arith)
decimal_from-value (suc fuel) n acc h = elim (Bool-cases (eqb (n / 10) 0)) [
  | inl e ↦ rw e (ap (λ m. digits_value m acc) (ground arith))
  | inr e ↦ rw e (
      decimal_from-value fuel (n / 10) ((48 + n % 10) ∷ acc) (ground arith)
      ∙ ap (λ m. digits_value m acc) (omega arith))
]

decimal_injective : (m n : ℕ) → decimal m ≡ decimal n → m ≡ n
unfolding decimal
decimal_injective m n h =
    sym (decimal_from-value (suc m) m [] (omega arith))
    ∙ ap (digits_value 0) h
    ∙ decimal_from-value (suc n) n [] (omega arith)

append_cancel : {A : Type 0} (xs ys zs : List A) → xs ++ ys ≡ xs ++ zs → ys ≡ zs
append_cancel [] ys zs h = h
append_cancel (x ∷ xs) ys zs h = append_cancel xs ys zs (cc h)

numbered_injective : (name : Text) (m n : ℕ) → numbered name m ≡ numbered name n → m ≡ n
unfolding numbered
numbered_injective name m n h =
    decimal_injective m n (cc (append_cancel name (b'-' ∷ decimal m) (b'-' ∷ decimal n) h))

-- Taking out the copies of a name leaves the other names.
contains-keep :
    (r a : Text) (xs : List Text)
    → (r == a) ≡ false
    → contains r (keep (λ x. not (x == a)) xs) ≡ contains r xs
unfolding keep any
contains-keep r a [] h = refl
contains-keep r a (x ∷ xs) h =
    ground (arith, contains-keep r a xs h, eq_iff x a, eq_iff x r, eq_iff r a)

length-keep-le : (a : Text) (xs : List Text) → length (keep (λ x. not (x == a)) xs) ≤ length xs
unfolding keep
length-keep-le a [] = omega arith
length-keep-le a (x ∷ xs) = ground (arith, length-keep-le a xs)

-- Taking out every copy of a name that is there makes the list shorter.
length-keep-lt :
    (a : Text) (xs : List Text)
    → contains a xs ≡ true
    → length (keep (λ x. not (x == a)) xs) < length xs
unfolding keep any
length-keep-lt a [] h = absurd (cc h)
length-keep-lt a (x ∷ xs) h = ground (arith, length-keep-lt a xs, length-keep-le a xs)

numbered_other : (name : Text) (m n : ℕ) → m < n → (numbered name n == numbered name m) ≡ false
numbered_other name m n h = elim (Bool-cases (numbered name n == numbered name m)) [
  | inr e ↦ e
  | inl e ↦
      let same = numbered_injective name n m ((eq_iff (numbered name n) (numbered name m)).0 e) in
      absurd (omega arith)
]

-- The search sees the same names without one that it never tries again.
seek_name-keep :
    (fuel : ℕ) (name : Text) (n m : ℕ) (xs : List Text)
    → m < n
    → seek_name fuel name n (keep (λ x. not (x == numbered name m)) xs) ≡ seek_name fuel name n xs
unfolding seek_name
seek_name-keep zero name n m xs h = refl
seek_name-keep (suc fuel) name n m xs h =
    rw
      (
        contains-keep (numbered name n) (numbered name m) xs (numbered_other name m n h),
        seek_name-keep fuel name (n + 1) m xs (omega arith),
      )
      refl

-- The search ends at a number from the first one on.
seek_name-numbered :
    (fuel : ℕ) (name : Text) (n : ℕ) (xs : List Text)
    → (k : ℕ) × (n ≤ k) × (seek_name fuel name n xs ≡ numbered name k)
unfolding seek_name
seek_name-numbered zero name n xs = (n, omega arith, refl)
seek_name-numbered (suc fuel) name n xs = elim (Bool-cases (contains (numbered name n) xs)) [
  | inl e ↦ let (k, l, f) = seek_name-numbered fuel name (n + 1) xs in (k, omega arith, rw e f)
  | inr e ↦ (n, omega arith, rw e refl)
]

seek_name-taken :
    (fuel : ℕ) (name : Text) (n : ℕ) (xs : List Text)
    → contains (numbered name n) xs ≡ true
    → seek_name (suc fuel) name n xs ≡ seek_name fuel name (n + 1) xs
unfolding seek_name
seek_name-taken fuel name n xs e = rw e refl

seek_name-untaken :
    (fuel : ℕ) (name : Text) (n : ℕ) (xs : List Text)
    → contains (numbered name n) xs ≡ false
    → seek_name (suc fuel) name n xs ≡ numbered name n
unfolding seek_name
seek_name-untaken fuel name n xs e = rw e refl

contains_none : (a : Text) (xs : List Text) → length xs ≤ 0 → contains a xs ≡ false
unfolding any
contains_none a [] l = refl
contains_none a (x ∷ xs) l = absurd (omega arith)

-- With as many rounds as names, the name is free.
seek_name-free :
    (fuel : ℕ) (name : Text) (n : ℕ) (xs : List Text)
    → length xs ≤ fuel
    → contains (seek_name fuel name n xs) xs ≡ false
seek_name-free zero name n xs l = contains_none _ xs l
seek_name-free (suc fuel) name n xs l = elim (Bool-cases (contains (numbered name n) xs)) [
  | inr e ↦ subst (λ y. contains y xs ≡ false) (sym (seek_name-untaken fuel name n xs e)) e
  | inl e ↦
      let a = numbered name n in
      let shorter = length-keep-lt a xs e in
      let others = keep (λ y. not (y == a)) xs in
      let r = seek_name fuel name (n + 1) xs in
      let free : contains r others ≡ false =
        subst (λ y. contains y others ≡ false) (seek_name-keep fuel name (n + 1) n xs (omega arith))
          (seek_name-free fuel name (n + 1) others (omega arith)) in
      let (k, m, f) = seek_name-numbered fuel name (n + 1) xs in
      let other : (r == a) ≡ false = rw f (numbered_other name n k (omega arith)) in
      subst (λ y. contains y xs ≡ false) (sym (seek_name-taken fuel name n xs e))
        (sym (contains-keep r a xs other) ∙ free)
]

-- The name that a device is given is none of the existing ones: the rounds of the search are
-- enough, however many of the numbered names are taken.
pub auto_name-free :
    (host : DiscoveredHost) (existing : List Text)
    → contains (auto_name host existing) existing ≡ false
unfolding auto_name
auto_name-free host existing = elim (Bool-cases (contains (plain_name host) existing)) [
  | inl e ↦ rw e (seek_name-free (length existing) (plain_name host) 2 existing (omega arith))
  | inr e ↦ rw e e
]
