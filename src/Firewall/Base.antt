-- ===== src/Firewall/Base.antt =====
-- firewall/base.py: what a backend reports, and the normal form of the addresses it is given.
pub mod Normal
use net_father.Prelude.{
  ℕ, Bool, true, false, not, ◌&&◌, ◌||◌, Option, none, some, List, [], ◌∷◌, ltb, eqb, dedupe,
  text_eq_instance, Text, Result, ok, err, value_error, ◌>>=◌, ◌>>◌, raise_if, or_raise,
}
use net_father.Prelude.Sorting.{sort}
use net_father.Prelude.Strings.{before_char}
use net_father.Net.Addresses.{IpAddress, IpLibrary}

pub record FirewallResult : Type 0 where
  pub backend : Text
  pub applied : Bool
  pub blocked_ips : List Text
  pub detail : Text
  pub preview : Text

module _ (lib : IpLibrary) where
  open lib use {ip_address, str, is_private, is_link_local}

  -- The body of the loop, up to the test for a repeat.
  unfoldable pub local_ip : Text → Result Text
  local_ip value = do
    ip ← or_raise (ip_address (before_char b'%' value)) value_error
    raise_if (not (is_private ip || is_link_local ip)) value_error
    ok (str ip)

  unfoldable pub local_ips : List Text → Result (List Text)
  local_ips [] = ok []
  local_ips (value ∷ values) = do ip ← local_ip value; ips ← local_ips values; ok (ip ∷ ips)

  -- The sort key `(version, int(address))` of a text that `str` wrote. Such a text can be read
  -- (IpLibrary.read_back), so that the case without an address does not arise.
  unfoldable pub ip_key : Text → ℕ × ℕ
  ip_key t = elim (ip_address t) [ none ↦ (0, 0) | some a ↦ (a.version, a.number) ]

  unfoldable pub ip_before : Text → Text → Bool
  ip_before s t = let (v, n) = ip_key s in let (w, m) = ip_key t in ltb v w || eqb v w && ltb n m

  -- Of equal texts the first is taken.
  unfoldable pub normalize_local_ips : List Text → Result (List Text)
  normalize_local_ips values = do ips ← local_ips values; ok (sort ip_before (dedupe ips))
