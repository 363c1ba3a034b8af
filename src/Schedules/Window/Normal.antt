-- ===== src/Schedules/Window/Normal.antt =====
-- Normalizing a schedule twice changes nothing, and every normalized schedule has minutes in range.
use net_father.Prelude.{
  ℕ, suc, ◌+◌, ◌*◌, ◌<◌, ◌≤◌, ◌≡◌, refl, sym, ap, false, not, ◌&&◌, List, [], ◌∷◌, ◌++◌, All, any,
  eqb, leb, length, dedupe, text_eq_instance, Text, ok, >>=-eq-ok, ok_injective, Bool-cases, inl,
  inr, arith, take, drop, All-dedupe, length-dedupe-le, dedupe-IsUnique, dedupe_of_IsUnique,
}
use net_father.Prelude.Strings.{
  split, join, split-join, split-append, split_single, strip, lstrip, rstrip, is_space, two_digits,
  int, int_digits,
}
use net_father.Schedules.Window.Parse.{Window}
use net_father.Schedules.Window.{
  show_window, normalize_part, normalize_parts, normalize_windows, all_minutes, windows,
  pair_minutes, clock_minutes, int_part,
}
use net_father.Schedules.Window.RoundTrip.{
  IsCanonical, IsSmall, is_clock-IsSmall, no_semicolon, normalize_parts-IsCanonical,
  normalize_parts_of_IsCanonical,
}

length-normalize_parts :
    (ps : List Text) {ts : List Text} → normalize_parts ps ≡ ok ts → length ts ≡ length ps
unfolding normalize_parts
length-normalize_parts [] h = rw (← ok_injective h) refl
length-normalize_parts (p ∷ ps) h =
    let (t, e, h₁) = >>=-eq-ok (normalize_part p) _ h in
    let (ts, f, h₂) = >>=-eq-ok (normalize_parts ps) _ h₁ in
    rw (← ok_injective h₂) (ap suc (length-normalize_parts ps f))

-- What a normalized text is: the join of at most sixteen different windows.
record IsNormal (t : Text) : Type 0 where
  first : Text
  others : List Text
  text : t ≡ join (b';' ∷ []) (first ∷ others)
  canonical : All IsCanonical (first ∷ others)
  unique : dedupe (first ∷ others) ≡ first ∷ others
  few : length (first ∷ others) ≤ 16

IsNormal-of_parts :
    (ts : List Text)
    → 1 ≤ length ts
    → length ts ≤ 16
    → All IsCanonical ts
    → IsNormal (join (b';' ∷ []) (dedupe ts))
unfolding dedupe
IsNormal-of_parts [] h k c = absurd (omega arith)
IsNormal-of_parts (t ∷ ts) h k c = record {
  first = t;
  others = _;
  text = refl;
  canonical = All-dedupe IsCanonical (t ∷ ts) c;
  unique = dedupe_of_IsUnique (dedupe (t ∷ ts)) (dedupe-IsUnique (t ∷ ts));
  few = omega (arith, length-dedupe-le (t ∷ ts));
}

normalize_windows-IsNormal : (v : Text) {t : Text} → normalize_windows v ≡ ok t → IsNormal t
unfolding normalize_windows
normalize_windows-IsNormal v {t} h =
    let parts = split b';' v in
    elim (Bool-cases (leb 1 (length parts) && leb (length parts) 16)) [
      | inl few ↦
          let (ts, e, h₁) = >>=-eq-ok (normalize_parts parts) _ (rw few at h) in
          let l = length-normalize_parts parts e in
          rw (← ok_injective h₁) (
            IsNormal-of_parts ts (ground arith) (ground arith)
              (normalize_parts-IsCanonical parts e))
      | inr many ↦ absurd (ground arith)
    ]

split-IsNormal : (t : Text) (n : IsNormal t) → split b';' t ≡ n.first ∷ n.others
split-IsNormal t n =
    rw n.text (split-join b';' n.first n.others (all_parts (n.first ∷ n.others) n.canonical))
  where
    all_parts :
        (ts : List Text) → All IsCanonical ts → All (λ s. any (λ c. eqb c b';') s ≡ false) ts
    all_parts [] c = tt
    all_parts (x ∷ xs) c = (no_semicolon x c.0, all_parts xs c.1)

normalize_windows_of_IsNormal : (t : Text) → IsNormal t → normalize_windows t ≡ ok t
unfolding normalize_windows
normalize_windows_of_IsNormal t n =
    let few : (not (leb 1 (length (n.first ∷ n.others)) && leb (length (n.first ∷ n.others)) 16))
        ≡ false =
      ground (arith, n.few) in
    rw
      (
        split-IsNormal t n,
        few,
        normalize_parts_of_IsCanonical (n.first ∷ n.others) n.canonical,
        n.unique,
      )
      (ap ok (sym n.text))

-- Normalizing a text that is already normal gives it back.
pub normalize_windows_idem :
    (v : Text) {t : Text} → normalize_windows v ≡ ok t → normalize_windows t ≡ ok t
normalize_windows_idem v {t} h = normalize_windows_of_IsNormal t (normalize_windows-IsNormal v h)

clock_text : ℕ → ℕ → Text
clock_text hour minute = two_digits hour ++ (b':' ∷ two_digits minute)

int_part-two_digits : (n : ℕ) → n < 100 → int_part (two_digits n) ≡ ok n
unfolding int_part int int_digits strip lstrip rstrip is_space two_digits
int_part-two_digits n h = ground arith

take-clock_text : (h m : ℕ) → take 2 (clock_text h m) ≡ two_digits h
unfolding clock_text two_digits
take-clock_text h m = refl

drop-clock_text : (h m : ℕ) → drop 3 (clock_text h m) ≡ two_digits m
unfolding clock_text two_digits
drop-clock_text h m = refl

clock_minutes_lem : (h m : ℕ) → h < 100 → m < 100 → clock_minutes (clock_text h m) ≡ ok (h * 60 + m)
unfolding clock_minutes
clock_minutes_lem h m p q =
    rw (take-clock_text h m, int_part-two_digits h p, drop-clock_text h m, int_part-two_digits m q)
      refl

any_dash : (h m : ℕ) → h < 100 → m < 100 → any (λ c. eqb c b'-') (clock_text h m) ≡ false
unfolding any clock_text two_digits
any_dash h m p q = ground arith

show_window_lem :
    (w : Window)
    → show_window w
      ≡ clock_text w.start_hour w.start_minute ++ (b'-' ∷ clock_text w.end_hour w.end_minute)
unfolding show_window clock_text two_digits
show_window_lem w = refl

split-show_window :
    (w : Window)
    → IsSmall w
    → split b'-' (show_window w)
      ≡ clock_text w.start_hour w.start_minute ∷ clock_text w.end_hour w.end_minute ∷ []
split-show_window w b =
    rw
      (
        show_window_lem w,
        split-append b'-' (clock_text w.start_hour w.start_minute)
            (clock_text w.end_hour w.end_minute) (any_dash _ _ (omega arith) (omega arith)),
        split_single b'-' (clock_text w.end_hour w.end_minute)
            (any_dash _ _ (omega arith) (omega arith)),
      )
      refl

abbrev pub InDay : ℕ × ℕ → Type 0
InDay p = (p.0 < 1440) × (p.1 < 1440)

pair_minutes-InDay :
    (t : Text) → IsCanonical t → (p : ℕ × ℕ) × (pair_minutes (split b'-' t) ≡ ok p) × InDay p
unfolding pair_minutes
pair_minutes-InDay t (w, c, e) =
    let b = is_clock-IsSmall w c in
    (
      (w.start_hour * 60 + w.start_minute, w.end_hour * 60 + w.end_minute),
      rw
          (
            e,
            split-show_window w b,
            clock_minutes_lem w.start_hour w.start_minute (omega arith) (omega arith),
            clock_minutes_lem w.end_hour w.end_minute (omega arith) (omega arith),
          )
          refl,
      (omega arith, omega arith),
    )

all_minutes-InDay :
    (ts : List Text)
    → All IsCanonical ts
    → (ps : List (ℕ × ℕ)) × (all_minutes ts ≡ ok ps) × All InDay ps × (length ps ≡ length ts)
unfolding all_minutes
all_minutes-InDay [] c = ([], refl, tt, refl)
all_minutes-InDay (t ∷ ts) c =
    let (p, e, b) = pair_minutes-InDay t c.0 in
    let (ps, f, bs, l) = all_minutes-InDay ts c.1 in (p ∷ ps, rw (e, f) refl, (b, bs), ap suc l)

-- Every text that normalizes has one to sixteen windows, all with both ends within the day: the
-- reader `windows` fails on none of the texts that the validator accepts.
pub windows-InDay :
    (v : Text) {t : Text}
    → normalize_windows v ≡ ok t
    → (ps : List (ℕ × ℕ)) × (windows v ≡ ok ps) × All InDay ps × (1 ≤ length ps) × (length ps ≤ 16)
unfolding windows
windows-InDay v {t} h =
    let n = normalize_windows-IsNormal v h in
    let (ps, e, b, l) = all_minutes-InDay (n.first ∷ n.others) n.canonical in
    (ps, rw (h, split-IsNormal t n) e, b, omega (arith, n.few), omega (arith, n.few))
