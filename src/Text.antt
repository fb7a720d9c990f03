-- ===== src/Text.antt =====
-- Text as lists of bytes: what the C++ standard library does with the strings of this program.
mod Basic
pub mod Lines
pub mod Number
pub mod Decimal
pub mod Stream
unfoldable pub use Basic.*
