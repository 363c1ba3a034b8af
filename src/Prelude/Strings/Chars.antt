-- ===== src/Prelude/Strings/Chars.antt =====
-- Python's text methods on code points: what the program uses of `str`.
-- Letters have a case and characters are digits within ASCII only; white space is all of Python's.
use Prim.Native.Char.{code}
use Prim.Native.String.{String}
use Prim.Native.Nat.{ℕ, ◌+◌, ◌-◌}
use mathlib.Core.Bool.{Bool, true, false, ◌&&◌, ◌||◌}
use mathlib.Core.List.{List, [], ◌∷◌, ◌++◌, map}
use net_father.Prelude.Lists.{length, drop}
use net_father.Prelude.Tests.{ltb, leb, eqb, if◌then◌else◌}
use net_father.Prelude.Equality.{Text}

abbrev pub codes : String → Text
codes String.[] = []
codes (String.◌∷◌ c s) = code c ∷ codes s

-- `str.isspace` of one character.
unfoldable pub is_space : ℕ → Bool
is_space c =
    leb 9 c && leb c 13
    || leb 28 c && leb c 32
    || eqb c 0x85
    || eqb c 0xa0
    || eqb c 0x1680
    || leb 0x2000 c && leb c 0x200a
    || eqb c 0x2028
    || eqb c 0x2029
    || eqb c 0x202f
    || eqb c 0x205f
    || eqb c 0x3000

abbrev pub is_digit : ℕ → Bool
is_digit c = leb b'0' c && leb c b'9'

abbrev pub is_hex : ℕ → Bool
is_hex c = is_digit c || leb b'a' c && leb c b'f' || leb b'A' c && leb c b'F'

unfoldable pub to_lower : ℕ → ℕ
to_lower c = if leb b'A' c && leb c b'Z' then c + 32 else c

unfoldable pub to_upper : ℕ → ℕ
to_upper c = if leb b'a' c && leb c b'z' then c - 32 else c

unfoldable pub lower : Text → Text
unfolding to_lower
lower = map to_lower

unfoldable pub upper : Text → Text
unfolding to_upper
upper = map to_upper

unfoldable pub lstrip : Text → Text
unfolding is_space
lstrip [] = []
lstrip (c ∷ s) = if is_space c then lstrip s else c ∷ s

unfoldable pub rstrip : Text → Text
unfolding is_space
rstrip [] = []
rstrip (c ∷ s) = elim (rstrip s) [ [] ↦ if is_space c then [] else c ∷ [] | d ∷ r ↦ c ∷ d ∷ r ]

-- `text.strip()`
unfoldable pub strip : Text → Text
unfolding lstrip rstrip
strip s = rstrip (lstrip s)

abbrev push_front : ℕ → List Text → List Text
push_front c [] = (c ∷ []) ∷ []
push_front c (part ∷ parts) = (c ∷ part) ∷ parts

-- `text.split(sep)` for a separator of one character.
unfoldable pub split : ℕ → Text → List Text
split sep [] = [] ∷ []
split sep (c ∷ s) = if eqb c sep then [] ∷ split sep s else push_front c (split sep s)

-- `sep.join(parts)`
unfoldable pub join : Text → List Text → Text
join sep [] = []
join sep (part ∷ []) = part
join sep (part ∷ parts) = part ++ (sep ++ join sep parts)

-- `text.replace(a, b)` for single characters.
unfoldable pub replace : ℕ → ℕ → Text → Text
replace a b = map (λ c. if eqb c a then b else c)

abbrev pub is_empty : Text → Bool
is_empty [] = true
is_empty (_ ∷ _) = false

-- `text.startswith(prefix)`
unfoldable pub starts_with : Text → Text → Bool
starts_with s [] = true
starts_with [] (p ∷ ps) = false
starts_with (c ∷ s) (p ∷ ps) = eqb c p && starts_with s ps

-- `text.replace(old, new, 1)`
unfoldable pub replace_first : Text → Text → Text → Text
unfolding starts_with
replace_first old new [] = if starts_with [] old then new else []
replace_first old new (c ∷ s) =
    if starts_with (c ∷ s) old
    then new ++ drop (length old) (c ∷ s)
    else c ∷ replace_first old new s

-- `text.split(c, 1)[0]`
unfoldable pub before_char : ℕ → Text → Text
before_char sep [] = []
before_char sep (c ∷ s) = if eqb c sep then [] else c ∷ before_char sep s

-- `c in text` for one character.
unfoldable pub has_char : ℕ → Text → Bool
has_char a [] = false
has_char a (c ∷ s) = eqb c a || has_char a s

-- `part in text`
unfoldable pub has_part : Text → Text → Bool
unfolding starts_with
has_part [] part = starts_with [] part
has_part (c ∷ s) part = starts_with (c ∷ s) part || has_part s part

-- The order of Python's `<` on texts.
unfoldable pub text_before : Text → Text → Bool
text_before [] [] = false
text_before [] (d ∷ t) = true
text_before (c ∷ s) [] = false
text_before (c ∷ s) (d ∷ t) = ltb c d || eqb c d && text_before s t
