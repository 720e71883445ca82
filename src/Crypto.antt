-- ===== src/Crypto.antt =====
-- src/crypto: hashes, hex and Base58 texts.
pub mod Hex
pub mod Base58
pub mod Sha256
pub mod Sha3
pub mod Ripemd160
pub mod Hash160
pub mod Ecdsa
pub mod Wallet
pub mod Bls
