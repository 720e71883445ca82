-- ===== src/Core.antt =====
-- src/core: the Merkle tree, unspent outputs, transactions, blocks and the chain.
pub mod Merkle
pub mod Utxo
pub mod Transaction
pub mod Block
pub mod Blockchain
pub mod Mempool
pub mod Script
