-- ===== src/Schedules/Weekdays/Normal.antt =====
-- The normal form of weekdays: sorted, without repeats.
use net_father.Prelude.{
  ℕ, zero, suc, ◌+◌, ◌*◌, ◌<◌, ◌≤◌, ◌≡◌, refl, sym, ap, ◌∙◌, subst, false, Option, none, some, List,
  [], ◌∷◌, map, any, eqb, ltb, length, All, All-dedupe, IsUnique, dedupe, dedupe-IsUnique,
  dedupe_of_IsUnique, nat_eq, Text, Result, ok, err, or_raise, validation_error, ok_injective,
  >>=-eq-ok, arith, ◌>>=◌,
}
use net_father.Prelude.Sorting.{
  IsSorted, sort, All-sort, sort-IsSorted, sort_of_IsSorted, sort-IsUnique, length-sort,
}
use net_father.Prelude.Strings.{split, split-join, split-ne_nil, decimal}
use net_father.Schedules.Weekdays.{weekday, parse_days, sorted_days, show_days, normalize_days}

abbrev IsDay : ℕ → Type 0
IsDay n = n < 7

weekday-IsDay : (item : Text) (n : ℕ) → or_raise (weekday item) validation_error ≡ ok n → IsDay n
unfolding weekday
weekday-IsDay item n h = ground arith

parse_days-IsDay : (items : List Text) (days : List ℕ) → parse_days items ≡ ok days → All IsDay days
unfolding parse_days
parse_days-IsDay [] days h = subst (All IsDay) (ok_injective h) tt
parse_days-IsDay (item ∷ items) days h =
    let (d, e, h₁) = >>=-eq-ok (or_raise (weekday item) validation_error) _ h in
    let (ds, f, h₂) = >>=-eq-ok (parse_days items) _ h₁ in
    subst (All IsDay) (ok_injective h₂) (weekday-IsDay item d e, parse_days-IsDay items ds f)

-- A statement about a weekday is checked on the seven of them.
each_day : (P : ℕ → Type 0) → P 0 → P 1 → P 2 → P 3 → P 4 → P 5 → P 6 → (n : ℕ) → IsDay n → P n
each_day P a b c d e f g zero h = a
each_day P a b c d e f g (suc n) h = next n h
  where
    next : (n : ℕ) → IsDay (suc n) → P (suc n)
    next zero h = b
    next (suc zero) h = c
    next (suc (suc zero)) h = d
    next (suc (suc (suc zero))) h = e
    next (suc (suc (suc (suc zero)))) h = f
    next (suc (suc (suc (suc (suc zero))))) h = g
    next (suc (suc (suc (suc (suc (suc n)))))) h = absurd (omega arith)

weekday-decimal : (n : ℕ) → IsDay n → weekday (decimal n) ≡ some n
unfolding weekday decimal net_father.Prelude.Strings.int
weekday-decimal = each_day (λ n. weekday (decimal n) ≡ some n) refl refl refl refl refl refl refl

no_comma : (n : ℕ) → IsDay n → any (λ c. eqb c b',') (decimal n) ≡ false
unfolding any decimal
no_comma =
    each_day (λ n. any (λ c. eqb c b',') (decimal n) ≡ false) refl refl refl refl refl refl refl

no_commas :
    (days : List ℕ) → All IsDay days → All (λ s. any (λ c. eqb c b',') s ≡ false) (map decimal days)
no_commas [] h = tt
no_commas (d ∷ ds) h = (no_comma d h.0, no_commas ds h.1)

parse-decimals : (days : List ℕ) → All IsDay days → parse_days (map decimal days) ≡ ok days
unfolding parse_days
parse-decimals [] h = refl
parse-decimals (d ∷ ds) h = rw (weekday-decimal d h.0, parse-decimals ds h.1) refl

-- What is written of weekdays is read back.
pub parse-show_days :
    (days : List ℕ)
    → 1 ≤ length days
    → All IsDay days
    → parse_days (split b',' (show_days days)) ≡ ok days
unfolding show_days
parse-show_days [] l h = absurd (omega arith)
parse-show_days (d ∷ ds) l h =
    rw (split-join b',' (decimal d) (map decimal ds) (no_commas (d ∷ ds) h))
      (parse-decimals (d ∷ ds) h)

-- The days that a text stands for.
pub record Days (t : Text) : Type 0 where
  pub days : List ℕ
  pub some_day : 1 ≤ length days
  pub within : All IsDay days
  pub sorted : IsSorted ltb days
  pub unique : IsUnique days
  pub shown : show_days days ≡ t

length-sorted :
    (items : List Text) (days : List ℕ)
    → parse_days items ≡ ok days
    → (items ≡ [] → ⊥)
    → 1 ≤ length (sorted_days days)
unfolding parse_days sorted_days dedupe
length-sorted [] days h n = absurd (n refl)
length-sorted (item ∷ items) days h n =
    let (d, e, h₁) = >>=-eq-ok (or_raise (weekday item) validation_error) _ h in
    let (ds, f, h₂) = >>=-eq-ok (parse_days items) _ h₁ in
    subst (λ x. 1 ≤ length (sort ltb (dedupe x))) (ok_injective h₂)
      (rw (length-sort ltb (dedupe (d ∷ ds))) (omega arith))

pub normalize_days-Days : (v t : Text) → normalize_days v ≡ ok t → Days t
unfolding normalize_days sorted_days
normalize_days-Days v t h =
    let (ds, e, h₁) = >>=-eq-ok (parse_days (split b',' v)) _ h in
    record {
      days = sorted_days ds;
      some_day = length-sorted (split b',' v) ds e (split-ne_nil b',' v);
      within = All-sort ltb IsDay (dedupe ds) (All-dedupe IsDay ds (parse_days-IsDay _ ds e));
      sorted = sort-IsSorted ltb (λ x y h. ground arith) (λ x y z h k. ground arith) (dedupe ds);
      unique = sort-IsUnique ltb (dedupe ds) (dedupe-IsUnique ds);
      shown = ok_injective h₁;
    }

Days-normal : (t : Text) → Days t → normalize_days t ≡ ok t
unfolding normalize_days sorted_days
Days-normal t d =
    subst (λ u. normalize_days u ≡ ok u) d.shown
      (rw
        (
          parse-show_days d.days d.some_day d.within,
          dedupe_of_IsUnique d.days d.unique,
          sort_of_IsSorted ltb d.days d.sorted,
        )
        refl)

-- What the normalization of weekdays accepts it leaves as it is the second time.
pub normalize_days_idem : (v t : Text) → normalize_days v ≡ ok t → normalize_days t ≡ ok t
normalize_days_idem v t h = Days-normal t (normalize_days-Days v t h)
