-- ===== src/History.antt =====
-- What no request undoes: the history that the tables keep, through every handler of the server.
pub mod Kept
pub mod Grows
pub mod Writes
pub mod Requests
pub mod Revoked
pub mod Prekeys
pub mod Delivery
