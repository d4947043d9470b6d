-- ===== src/Text.antt =====
-- Python's `str`: a list of code points, with the string methods that the program calls.
mod Chars
mod Strings
mod Lines
pub mod Laws
unfoldable pub use Chars.*
unfoldable pub use Strings.*
unfoldable pub use Lines.*
