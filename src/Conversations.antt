-- ===== src/Conversations.antt =====
-- internal/conversations: creating direct conversations, and listing those of a user.
pub mod Defs
pub mod Create
pub mod Listing
pub mod Handler
