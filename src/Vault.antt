-- ===== src/Vault.antt =====
-- Vaults and their milestones: the in-memory engine of src/services.
pub mod Milestones
pub mod Thresholds
pub mod Transitions
