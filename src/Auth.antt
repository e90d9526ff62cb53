-- ===== src/Auth.antt =====
-- internal/auth: accounts, sessions and the tokens that stand for them.
pub mod Defs
pub mod Tokens
pub mod Accounts
pub mod Sessions
pub mod Middleware
pub mod Handler
