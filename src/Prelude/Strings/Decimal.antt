-- ===== src/Prelude/Strings/Decimal.antt =====
-- `int(text)`, `str(number)` and the two-digit format of clock times.
use Prim.Native.Nat.{ℕ, zero, suc, ◌+◌, ◌-◌, ◌*◌, ◌/◌, ◌%◌, ◌<◌}
use mathlib.Core.Path.{◌≡◌}
use mathlib.Core.Bool.{Bool, true, false, ◌&&◌}
use mathlib.Core.Option
use mathlib.Core.Option.{Option, none, some}
use mathlib.Core.List.{[], ◌∷◌}
use native.Mathlib.Omega.{arith}
use net_father.Prelude.Tests.{eqb, if◌then◌else◌}
use net_father.Prelude.Equality.{Text}
use net_father.Prelude.Int.{ℤ, pos, negsuc}
use net_father.Prelude.Strings.Chars.{is_digit, strip}

-- The digits of a number, with single underscores between them; `after` says that the character
-- before was a digit.
unfoldable pub int_digits : ℕ → Bool → Text → Option ℕ
int_digits acc after [] = if after then some acc else none
int_digits acc after (c ∷ s) =
    let digit = int_digits (acc * 10 + (c - 48)) true s in
    let rest = int_digits acc false s in
    if is_digit c then digit else if eqb c b'_' && after then rest else none

abbrev negate : ℕ → ℤ
negate zero = pos 0
negate (suc n) = negsuc n

int_signed : Text → Option ℤ
unfolding int_digits
int_signed [] = none
int_signed (c ∷ s) =
    if eqb c b'-'
    then Option.map negate (int_digits 0 false s)
    else Option.map pos (int_digits 0 false (if eqb c b'+' then s else c ∷ s))

-- `int(text)`; `none` is ValueError.
unfoldable pub int : Text → Option ℤ
unfolding int_signed strip
int s = int_signed (strip s)

unfoldable pub decimal_from : ℕ → ℕ → Text → Text
decimal_from zero n acc = acc
decimal_from (suc fuel) n acc =
    let more = decimal_from fuel (n / 10) ((48 + n % 10) ∷ acc) in
    if eqb (n / 10) 0 then (48 + n % 10) ∷ acc else more

-- `str(n)`: a number has no more digits than its value plus one.
unfoldable pub decimal : ℕ → Text
unfolding decimal_from
decimal n = decimal_from (suc n) n []

-- `f"{n:02d}"` of a number below 100.
unfoldable pub two_digits : ℕ → Text
two_digits n = (48 + n / 10) ∷ (48 + n % 10) ∷ []

pub int_digits-two_digits : (n : ℕ) → n < 100 → int_digits 0 false (two_digits n) ≡ some n
unfolding int_digits two_digits
int_digits-two_digits n h = ground arith
