-- ===== src/Net/Mac.antt =====
-- Hardware addresses: `normalize_mac` of network/device.py and of network/identity.py.
pub mod Normal
use mathlib.Core.Option
use net_father.Prelude.{
  ℕ, zero, suc, ◌+◌, ◌-◌, ◌*◌, leb, is_some, Bool, true, false, ◌&&◌, ◌||◌, Option, none, some, [],
  ◌∷◌, all, keep, length, take, eqb, not, if◌then◌else◌, Text, Result, ok, err, value_error,
}
use net_father.Prelude.Int.{ℤ, pos, negsuc}
use net_father.Prelude.Strings.{is_digit, is_hex, strip, upper, replace, split, join}

-- `(?:[0-9A-Fa-f]{2}[:-]){n}[0-9A-Fa-f]{2}` on the whole text.
unfoldable pub is_mac : ℕ → Text → Bool
is_mac zero (a ∷ (b ∷ [])) = is_hex a && is_hex b
is_mac (suc n) (a ∷ (b ∷ (sep ∷ rest))) =
    is_hex a && is_hex b && (eqb sep b':' || eqb sep b'-') && is_mac n rest
is_mac _ _ = false

-- network/device.py; the argument is a text.
unfoldable pub normalize_mac : Text → Result Text
normalize_mac mac =
    let candidate = strip mac in
    if is_mac 5 candidate then ok (replace b'-' b':' (upper candidate)) else err value_error

abbrev hex_digit : ℕ → ℕ
hex_digit c = if is_digit c then c - 48 else if leb b'a' c then c - 87 else c - 55

-- Hexadecimal digits with single underscores between them; `after` says that the character before
-- was a digit.
unfoldable pub hex_digits : ℕ → Bool → Text → Option ℕ
hex_digits acc after [] = if after then some acc else none
hex_digits acc after (c ∷ s) =
    let digit = hex_digits (acc * 16 + hex_digit c) true s in
    let rest = hex_digits acc false s in
    if is_hex c then digit else if eqb c b'_' && after then rest else none

-- A prefix 0x may stand before the digits, with an underscore after it.
unfoldable pub hex_body : Text → Option ℕ
hex_body (a ∷ (b ∷ (c ∷ s))) =
    if eqb a b'0' && (eqb b b'x' || eqb b b'X')
    then (if eqb c b'_' then hex_digits 0 false s else hex_digits 0 false (c ∷ s))
    else hex_digits 0 false (a ∷ b ∷ c ∷ s)
hex_body s = hex_digits 0 false s

abbrev negative : ℕ → ℤ
negative zero = pos 0
negative (suc n) = negsuc n

hex_signed : Text → Option ℤ
unfolding hex_body
hex_signed [] = none
hex_signed (c ∷ s) =
    if eqb c b'-'
    then Option.map negative (hex_body s)
    else Option.map pos (hex_body (if eqb c b'+' then s else c ∷ s))

-- `int(text, 16)`; `none` is ValueError.
unfoldable pub hex_int : Text → Option ℤ
unfolding hex_signed
hex_int text = hex_signed (strip text)

-- network/identity.py
unfoldable pub normalize_identity : Text → Result Text
normalize_identity mac =
    let parts = split b':' (replace b'-' b':' (upper (strip mac))) in
    if eqb (length parts) 6 && all (λ part. eqb (length part) 2) parts
    then if all (λ part. is_some (hex_int part)) parts
      then ok (join (b':' ∷ []) parts)
      else err value_error
    else err value_error

-- `lookup_vendor`, given the vendors that the first readable database file names, if there is one.
unfoldable pub lookup_vendor : Option (Text → Option Text) → Text → Option Text
lookup_vendor database mac = elim (normalize_mac mac) [
  | err _ ↦ none
  | ok normalized ↦ elim database [
    | none ↦ none
    | some vendors ↦ vendors (take 6 (keep (λ c. not (eqb c b':')) normalized))
  ]
]
