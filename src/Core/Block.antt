-- ===== src/Core/Block.antt =====
-- src/core/block.h and src/core/block.cpp. The clock is an argument, and each round of the mining
-- loop is one unit of fuel: `none` means that the fuel ran out.
pub mod Mining
use rex_coin.Base.{
  ℕ, zero, suc, ◌+◌, Bool, true, false, ◌&&◌, Option, none, some, List, [], ◌∷◌, ◌++◌, map, take,
  replicate, length, Bytes, eqb, u64,
}
use rex_coin.Base.Decimal.{decimal}
use rex_coin.Base.Int.{ℤ, decimal_ℤ}
use rex_coin.Hasher.{Hasher, double_sha256}
use rex_coin.Core.Merkle.{build_root}
use rex_coin.Core.Transaction.{Transaction}

-- `struct BlockHeader`
pub record BlockHeader : Type 0 where
  pub version : ℕ
  pub previous_hash : Bytes
  pub merkle_root : Bytes
  pub timestamp : ℤ
  pub difficulty : ℕ
  pub nonce : ℕ

-- `struct Block`
pub record Block : Type 0 where
  pub index : ℕ
  pub header : BlockHeader
  pub transactions : List Transaction
  pub hash : Bytes

-- `Block::calculateHash`
unfoldable pub header_hash : ⦃h : Hasher⦄ → BlockHeader → Bytes
header_hash header = double_sha256 (
    decimal header.version
    ++ header.previous_hash
    ++ header.merkle_root
    ++ decimal_ℤ header.timestamp
    ++ decimal header.difficulty
    ++ decimal header.nonce)

-- `Block::Block`
unfoldable pub new_block : ⦃h : Hasher⦄ → ℤ → ℕ → Bytes → List Transaction → ℕ → Block
new_block now index previous_hash txs difficulty =
    let header : BlockHeader = record {
      version = 1;
      previous_hash = previous_hash;
      merkle_root = build_root (map (λ (tx : Transaction). tx.tx_hash) txs);
      timestamp = now;
      difficulty = difficulty;
      nonce = 0;
    } in
    record { index = index; header = header; transactions = txs; hash = header_hash header }

-- `hash.substr(0, header.difficulty) == target`
unfoldable pub meets_target : Block → Bool
meets_target b = eqb (take b.header.difficulty b.hash) (replicate b.header.difficulty b'0')

-- The body of the mining loop: `header.nonce++; hash = calculateHash();`
unfoldable pub next_nonce : ⦃h : Hasher⦄ → Block → Block
next_nonce b =
    let header : BlockHeader = record (b.header) { nonce = u64 (b.header.nonce + 1) } in
    record b { header = header; hash = header_hash header }

-- `Block::mine`
unfoldable pub mine : ⦃h : Hasher⦄ → ℕ → Block → Option Block
mine zero b = none
mine (suc fuel) b = elim (meets_target b) [ true ↦ some b | false ↦ mine fuel (next_nonce b) ]

-- `Block::isValid`
unfoldable pub is_valid : ⦃h : Hasher⦄ → Block → Bool
is_valid b = eqb b.hash (header_hash b.header) && meets_target b

-- `Block::txCount`
pub tx_count : Block → ℕ
tx_count b = length b.transactions
