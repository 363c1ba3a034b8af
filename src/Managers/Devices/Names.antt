-- ===== src/Managers/Devices/Names.antt =====
-- `_auto_name` of manager/device_manager.py: a name for a device that registers itself.
pub mod Fresh
use net_father.Prelude.{
  ℕ, zero, suc, ◌+◌, ◌-◌, Bool, not, ◌&&◌, ◌||◌, some, List, ◌∷◌, ◌++◌, keep, length, take, drop,
  leb, eqb, contains, text_eq_instance, if◌then◌else◌, Text,
}
use net_father.Prelude.Strings.{codes, decimal, is_digit, is_empty, strip}
use net_father.Net.Hosts.{DiscoveredHost}
use net_father.Managers.Devices.Find.{or_else}
use net_father.Managers.Devices.Observations.{or_empty}

-- `[A-Za-z0-9_. -]`
abbrev is_name_char : ℕ → Bool
is_name_char c =
    leb b'A' c && leb c b'Z'
    || leb b'a' c && leb c b'z'
    || is_digit c
    || eqb c b'_'
    || eqb c b'.'
    || eqb c b' '
    || eqb c b'-'

unfoldable pub base_of : DiscoveredHost → Text
base_of host =
    let text = or_empty (
      or_else host.hostname
        (or_else host.device_type (or_else host.vendor (some (codes "Device"))))) in
    let cleaned = take 80 (strip (keep is_name_char text)) in
    if is_empty cleaned then codes "Device" else cleaned

-- `[-6:]`
abbrev last_six : Text → Text
last_six t = drop (length t - 6) t

unfoldable pub suffix_of : DiscoveredHost → Text
suffix_of host =
    let text = or_empty (or_else host.mac (some host.ip)) in
    last_six (keep (λ c. not (eqb c b':' || eqb c b'.')) text)

-- `f"{base}-{suffix}"`
unfoldable pub plain_name : DiscoveredHost → Text
plain_name host = base_of host ++ (b'-' ∷ suffix_of host)

-- `f"{base}-{suffix}-{n}"`
unfoldable pub numbered : Text → ℕ → Text
numbered name n = name ++ (b'-' ∷ decimal n)

-- The `while` loop from `n` on, in at most as many rounds as the fuel, and then without a test.
unfoldable pub seek_name : ℕ → Text → ℕ → List Text → Text
seek_name zero name n existing = numbered name n
seek_name (suc fuel) name n existing =
    let later = seek_name fuel name (n + 1) existing in
    if contains (numbered name n) existing then later else numbered name n

-- There are fewer names than rounds.
unfoldable pub auto_name : DiscoveredHost → List Text → Text
auto_name host existing =
    let name = plain_name host in
    if contains name existing then seek_name (length existing) name 2 existing else name
