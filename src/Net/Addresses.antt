-- ===== src/Net/Addresses.antt =====
-- What the program uses of Python's `ipaddress`: an address has a version and a number, is read from
-- text and written as text. The registries behind `is_private` and `is_link_local`, and the text
-- forms, are the library's: they are a record of operations with the two laws that are relied upon.
use net_father.Prelude.{ℕ, Bool, false, Option, some, Text, ◌≡◌}
use net_father.Prelude.Strings.{has_char}

pub record IpAddress : Type 0 where
  pub version : ℕ
  pub number : ℕ
  pub scope : Option Text

pub record IpLibrary : Type 0 where
  -- `none` is ValueError.
  pub ip_address : Text → Option IpAddress
  pub str : IpAddress → Text
  pub is_private : IpAddress → Bool
  pub is_link_local : IpAddress → Bool
  -- The text of an address that was read is read as the same address.
  pub read_back : (t : Text) (a : IpAddress) → ip_address t ≡ some a → ip_address (str a) ≡ some a
  -- What was read from a text without a scope is written without one.
  pub no_scope :
      (t : Text) (a : IpAddress)
      → has_char b'%' t ≡ false
      → ip_address t ≡ some a
      → has_char b'%' (str a) ≡ false
