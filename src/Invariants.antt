-- ===== src/Invariants.antt =====
-- Predicates of the tables that the services keep up by themselves, beyond what the schema demands.
pub mod Standing
pub mod OneActive
pub mod Members
pub mod Paired
