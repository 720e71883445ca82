-- ===== src/Privacy.antt =====
-- src/privacy: the stand-ins for proofs and stealth addresses, and the mixer.
pub mod ZkProof
pub mod Mixer
pub mod Stealth
