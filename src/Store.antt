-- ===== src/Store.antt =====
-- The stores, and the statements that the services issue.
mod Defs
mod Statements
mod Commands
pub mod Laws
pub mod Keeps
unfoldable pub use Defs.*
unfoldable pub use Statements.*
unfoldable pub use Commands.*
