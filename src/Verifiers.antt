-- ===== src/Verifiers.antt =====
-- src/services/verifiers.ts: who may verify, the decisions they take, and the votes on a milestone.
pub mod Profiles
pub mod Records
pub mod Approvals
