-- ===== src/Tests.antt =====
-- The theorems at concrete worlds.
mod Fixtures
mod Messages
mod Listing
mod Keys
mod Conversations
mod Auth
mod Otp
mod Users
mod Server
mod Invariants
mod Startup
mod Bundles
