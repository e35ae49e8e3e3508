-- ===== src/Common.antt =====
-- Names that every other module shares.
mod Base
mod Int
mod Maps
mod Format
mod Counting
unfoldable pub use Base.*
unfoldable pub use Int.*
unfoldable pub use Format.*
unfoldable pub use Counting.*
unfoldable pub use Maps.*
