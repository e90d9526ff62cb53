-- ===== src/Refusals.antt =====
-- What a request that is refused leaves behind: nothing, in the tables.
pub mod Rules
pub mod Accounts
pub mod Contents
pub mod Bundles
pub mod Handlers
pub mod Requests
