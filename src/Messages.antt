-- ===== src/Messages.antt =====
-- internal/messages: sending and listing messages.
pub mod Defs
pub mod Send
pub mod Listing
pub mod Handler
