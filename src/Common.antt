-- ===== src/Common.antt =====
-- The vocabulary that the modules share.
mod Base
mod Lists
mod Dicts
mod Int
mod Outcomes
mod Texts
mod Decimals
mod Blanks
pub mod Json
pub use Base.*
pub use Lists.*
unfoldable pub use Dicts.*
unfoldable pub use Int.*
pub use Outcomes.*
unfoldable pub use Texts.*
unfoldable pub use Decimals.*
unfoldable pub use Blanks.*
