-- ===== src/Keys.antt =====
-- internal/keys: validating, storing and serving the public keys of devices.
pub mod Base64
pub mod Defs
pub mod Validation
pub mod Upload
pub mod Bundle
pub mod Handler
