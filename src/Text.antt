-- ===== src/Text.antt =====
-- Texts as lists of Unicode code points, with the parts of Rust's `str` interface that the program
-- uses. Byte offsets are only ever used to cut at the place where a pattern was found, so searches
-- return offsets in characters; `len` is the length in bytes.
mod Defs
mod Numerals
mod Decimal
mod Equality
unfoldable pub use Defs.*
unfoldable pub use Numerals.*
pub use Decimal.*
pub use Equality.*
