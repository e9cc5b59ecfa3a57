-- ===== src/Prelude.antt =====
-- What the components share: the library's names, tests, lists, texts, signed numbers and maps.
pub mod Base
mod Tests
mod Lists
pub mod Int
mod Strings
mod Maps
pub mod Atoi
pub use Base.*
pub use Tests.*
pub use Lists.*
unfoldable pub use Strings.*
unfoldable pub use Maps.*
