-- ===== src/Governance.antt =====
-- src/governance.
pub mod Proposal
pub mod Dao
