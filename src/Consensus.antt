-- ===== src/Consensus.antt =====
-- src/consensus.
pub mod Pow
pub mod Pos
pub mod Hybrid
pub mod Difficulty
