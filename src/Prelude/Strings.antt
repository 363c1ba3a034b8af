-- ===== src/Prelude/Strings.antt =====
-- Text: methods of `str`, conversions of numbers, and their laws, for the letters, digits and spaces
-- of ASCII. Other characters are carried along as they are.
mod Chars
mod Decimal
mod Laws
unfoldable pub use Chars.*
unfoldable pub use Decimal.*
pub use Laws.*
