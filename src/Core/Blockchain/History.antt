-- ===== src/Core/Blockchain/History.antt =====
-- src/core/blockchain.cpp: the chains that the constructor and `addBlock` make.
use rex_coin.Base.{ℕ, ◌≡◌, some, List, All, Bytes}
use rex_coin.Base.Int.{ℤ}
use rex_coin.Hasher.{Hasher}
use rex_coin.Core.Transaction.{Transaction}
use rex_coin.Core.Blockchain.{
  Blockchain, new_blockchain, add_block, get_block_by_hash, serialize_block,
}
use rex_coin.Core.Block.{Block}
use rex_coin.Core.Blockchain.Kept.{InChain, Kept, Kept-add_block}
use rex_coin.Core.Blockchain.Cached.{IsCached, add_block-IsCached, get_block_by_hash-Kept}
use rex_coin.Core.Blockchain.Founding.{Kept-new_blockchain}

module _ ⦃h : Hasher⦄ where
  -- The chains of the program: a new one, and one to which a block has been added.
  pub data History : Blockchain → Type 0 where
    founded :
        (fuel : ℕ) (now tx_time block_time : ℤ) (dir : Bytes) (c : Blockchain)
        → new_blockchain fuel now tx_time block_time dir ≡ some c
        → History c
    grown :
        (fuel : ℕ) (now block_time : ℤ) (txs : List Transaction) (c c' : Blockchain)
        → History c
        → add_block fuel now block_time txs c ≡ some c'
        → History c'

  -- Every chain that the program makes is valid and not empty; its database is open, gives a block of the
  -- chain under the hash of each block, and has the height and the best hash of the chain.
  pub History-Kept : (c : Blockchain) → History c → Kept c
  History-Kept c (History.founded fuel now tx_time block_time dir c' e) =
      (Kept-new_blockchain fuel now tx_time block_time dir c' e).0
  History-Kept c (History.grown fuel now block_time txs c' c'' before e) =
      Kept-add_block fuel now block_time txs c' c'' (History-Kept c' before) e

  History-IsCached : (c : Blockchain) → History c → All (IsCached c.chain) c.block_cache.cache
  History-IsCached c (History.founded fuel now tx_time block_time dir c' e) =
      rw (Kept-new_blockchain fuel now tx_time block_time dir c' e).1 tt
  History-IsCached c (History.grown fuel now block_time txs c' c'' before e) =
      add_block-IsCached fuel now block_time txs c' c'' e (History-IsCached c' before)

  -- In every chain that the program makes, `getBlockByHash` gives for the hash of any block of the chain,
  -- from the cache or from the database, the text of a block of the chain with that hash.
  pub History-get_block_by_hash :
      (c : Blockchain) (b : Block)
      → History c
      → InChain b c.chain
      → (b' : Block) × InChain b' c.chain
        × (b'.hash ≡ b.hash)
        × ((get_block_by_hash b.hash c).1 ≡ some (serialize_block b'))
  History-get_block_by_hash c b history here =
      get_block_by_hash-Kept c b (History-Kept c history) (History-IsCached c history) here
