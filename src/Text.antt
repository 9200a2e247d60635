-- ===== src/Text.antt =====
-- Texts as lists of code points, with what the program uses of Go's `strings` package.
mod Defs
mod Equality
mod Spaces
mod Prefix
mod Order
pub mod FilePath
unfoldable pub use Defs.*
pub use Equality.*
pub use Spaces.*
pub use Prefix.*
pub use Order.*
