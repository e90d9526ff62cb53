-- ===== src/Steps.antt =====
-- Every request as the statements that it issues.
pub mod Writes
pub mod Units
pub mod Accounts
pub mod Contents
pub mod Messages
pub mod Requests
