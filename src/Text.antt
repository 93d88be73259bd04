-- ===== src/Text.antt =====
-- Go strings: lists of bytes, with the functions of package strings that the program calls.
mod Bytes
mod Affix
mod Split
mod Trim
mod Case
pub mod Number
pub mod Hex
pub mod Plain
unfoldable pub use Bytes.*
unfoldable pub use Affix.*
unfoldable pub use Split.*
unfoldable pub use Trim.*
unfoldable pub use Case.*
