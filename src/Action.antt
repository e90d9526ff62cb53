-- ===== src/Action.antt =====
-- Methods that write to the stores and may return an error, and rules to reason about them.
mod Defs
pub mod Rules
unfoldable pub use Defs.*
