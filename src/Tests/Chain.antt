-- ===== src/Tests/Chain.antt =====
-- src/core/block.cpp and src/core/blockchain.cpp: the theorems on a chain of one block, over a hash
-- that meets any difficulty up to 64.
use rex_coin.Base.Text.{eqb}
use rex_coin.Base.{
  ℕ, zero, suc, ◌≡◌, ◌≤◌, refl, true, none, some, List, [], ◌∷◌, ◌++◌, codes, arith, replicate, All,
  inl, get_elem?, ◌*◌, ◌+◌,
}
use rex_coin.Base.Int.{ℤ, pos}
use rex_coin.Hasher.{Hasher, IsHexDigit}
use rex_coin.Core.Transaction.{Transaction, create_coinbase}
use rex_coin.Core.Block.{Block, header_hash, new_block, meets_target, mine}
use rex_coin.Core.Block.Mining.{
  after_rounds, Mines, mine-after_rounds, mine_over_target, new_block-IsHashed,
}
use rex_coin.Core.Blockchain.{
  new_blockchain, load_from_db, start_chain, create_genesis_block, record_meta, update_utxos,
  get_block_by_hash, Blockchain, opened_chain, add_block, is_valid, links_valid, before_block,
  persist_block, serialize_block, max_supply,
}
use rex_coin.Core.Blockchain.Growth.{candidate, add_block-is_valid}
use rex_coin.Core.Blockchain.Reward.{supply, in_period, supply-le-max_supply}
use rex_coin.Core.Blockchain.Persist.{get_hash_at_height-persist_block}
use rex_coin.Core.Blockchain.Kept.{InChain, Kept}
use rex_coin.Core.Blockchain.History.{History, History-Kept, History-get_block_by_hash}
use rex_coin.Dict.{lookup}
use rex_coin.Storage.Db.{open_db, new_db, get, get_meta, get_hash_at_height}

-- A digest of zeros, whatever the text.
instance zeros_hasher : Hasher
zeros_hasher = record {
  hash = λ s. replicate 64 b'0';
  length-hash = λ s. refl;
  hash-IsHexDigit = λ s. digits 64;
}
  where
    digits : (n : ℕ) → All IsHexDigit (replicate n b'0')
    digits zero = tt
    digits (suc n) = (inl (omega arith, omega arith), digits n)

abbrev payments : List Transaction
payments = create_coinbase (pos 1767225600) (codes "miner") 50 1 ∷ []

abbrev genesis : Block
genesis = new_block (pos 1767225600) 0 (replicate 64 b'0') payments 4

abbrev one_block : Blockchain
one_block = record (opened_chain (pos 1767225600) (codes "./data")) { chain = genesis ∷ [] }

valid : is_valid one_block ≡ true
unfolding is_valid links_valid opened_chain
valid = refl

hit :
    meets_target
      (after_rounds 0 (candidate (pos 1767226000) (pos 1767226000) payments one_block genesis))
    ≡ true
unfolding meets_target after_rounds new_block header_hash before_block opened_chain eqb zeros_hasher
hit = refl

genesis_hit : meets_target (after_rounds 0 genesis) ≡ true
unfolding meets_target after_rounds new_block header_hash eqb zeros_hasher
genesis_hit = refl

mine-after_rounds_example : Mines 1 genesis
mine-after_rounds_example =
    mine-after_rounds 1 0 genesis (omega arith)
      (new_block-IsHashed (pos 1767225600) 0 (replicate 64 b'0') payments 4) genesis_hit

abbrev hard_block : Block
hard_block = new_block (pos 1767225600) 1 (replicate 64 b'0') payments 65

mine_over_target_example : mine 1000 hard_block ≡ none
mine_over_target_example =
    mine_over_target 1000 hard_block
      (new_block-IsHashed (pos 1767225600) 1 (replicate 64 b'0') payments 65)
      (unfold new_block in omega arith)

add_block-is_valid_example :
    (c' : Blockchain) × (b : Block) × (add_block 1
        (pos 1767226000)
        (pos 1767226000)
        payments
        one_block
      ≡ some c')
    × (is_valid c' ≡ true)
    × (c'.chain ≡ (genesis ∷ []) ++ b ∷ [])
    × (b.transactions ≡ payments)
    × (b.index ≡ 1)
    × (b.header.previous_hash ≡ genesis.hash)
add_block-is_valid_example =
    add_block-is_valid 1 0 (pos 1767226000) (pos 1767226000) payments one_block genesis
      (omega arith) refl valid hit

supply-le-max_supply_example :
    (supply 1500000 ≤ max_supply)
    × (supply 1500000
        ≡ 50 * in_period 0 1500000
          + 25 * in_period 210000 1500000
          + 12 * in_period 420000 1500000
          + 6 * in_period 630000 1500000
          + 3 * in_period 840000 1500000
          + in_period 1050000 1500000)
    × ((supply 1500000 ≡ 20370000) × (supply 1500000 + 630000 ≡ max_supply))
supply-le-max_supply_example = supply-le-max_supply 1500000 (omega arith)

opened : one_block.db.opened ≡ true
unfolding opened_chain open_db
opened = refl

get_hash_at_height-persist_block_example :
    get_hash_at_height 0 (persist_block genesis one_block).db ≡ get_hash_at_height 0 one_block.db
get_hash_at_height-persist_block_example =
    get_hash_at_height-persist_block genesis one_block 0 opened (omega arith)

-- The chain that the constructor makes, where the genesis block is mined at once.
abbrev time : ℤ
time = pos 1767225600

abbrev first_chain : Blockchain
first_chain = elim (new_blockchain 1 time time time (codes "./data")) [
  | none ↦ one_block
  | some c ↦ c
]

first_chain_made : new_blockchain 1 time time time (codes "./data") ≡ some first_chain
unfolding new_blockchain load_from_db get_meta get open_db new_db opened_chain lookup start_chain
    create_genesis_block mine meets_target new_block header_hash eqb zeros_hasher
first_chain_made = refl

abbrev first_block : Block
first_block = elim (get_elem? first_chain.chain 0) [ none ↦ genesis | some b ↦ b ]

first_block_there : InChain first_block first_chain.chain
unfolding new_blockchain load_from_db get_meta get open_db new_db opened_chain lookup start_chain
    create_genesis_block mine meets_target new_block header_hash eqb zeros_hasher record_meta
    persist_block update_utxos
first_block_there = (0, refl)

History-Kept_example : Kept first_chain
History-Kept_example =
    History-Kept first_chain
      (History.founded 1 time time time (codes "./data") first_chain first_chain_made)

History-get_block_by_hash_example :
    (b' : Block) × InChain b' first_chain.chain
    × (b'.hash ≡ first_block.hash)
    × ((get_block_by_hash first_block.hash first_chain).1 ≡ some (serialize_block b'))
History-get_block_by_hash_example =
    History-get_block_by_hash first_chain first_block
      (History.founded 1 time time time (codes "./data") first_chain first_chain_made)
      first_block_there
