-- ===== src/Tests.antt =====
-- Known answers, and the theorems at concrete inputs.
mod Crypto
mod Utxo
mod Merkle
mod Chain
mod Database
mod Machine
mod Channel
mod Transaction
mod Consensus
mod Governance
mod Script
mod Keys
mod Network
mod Services
mod Lightning
mod Program
mod Broadcast
