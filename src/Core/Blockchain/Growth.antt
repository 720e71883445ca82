-- ===== src/Core/Blockchain/Growth.antt =====
-- src/core/blockchain.cpp, `Blockchain::addBlock`: the chain after a block is added.
use rex_coin.Base.{
  ℕ, ◌<◌, ◌≡◌, refl, ap, ◌∙◌, true, some, List, [], ◌∷◌, ◌++◌, arith, length, get_last?, u32,
  eqb_refl,
}
use rex_coin.Base.Int.{ℤ}
use rex_coin.Hasher.{Hasher}
use rex_coin.Core.Transaction.{Transaction}
use rex_coin.Core.Block.{Block, new_block, mine, meets_target}
use rex_coin.Core.Block
use rex_coin.Core.Block.Mining.{after_rounds, mine-after_rounds, new_block-IsHashed, new_block_lem}
use rex_coin.Core.Blockchain.{
  Blockchain, before_block, append_block, add_block, links_valid, is_valid, adjust_difficulty,
  record_meta, update_utxos, persist_block,
}

module _ ⦃h : Hasher⦄ where
  links_valid-append :
      (prev : Block) (bs : List Block) (last b : Block)
      → get_last? (prev ∷ bs) ≡ some last
      → links_valid prev bs ≡ true
      → Block.is_valid b ≡ true
      → b.header.previous_hash ≡ last.hash
      → links_valid prev (bs ++ b ∷ []) ≡ true
  unfolding links_valid
  links_valid-append prev [] last b e v ok linked =
      let same : prev ≡ last = cc in rw (ok, linked, same, eqb_refl last.hash)
  links_valid-append prev (x ∷ bs) last b e v ok linked =
      ground (arith, links_valid-append x bs last b e, v, ok, linked)

  pub before_block-chain : (now : ℤ) (c : Blockchain) → (before_block now c).chain ≡ c.chain
  unfolding before_block adjust_difficulty record_meta
  before_block-chain now c = ground arith

  pub append_block-chain :
      (b : Block) (c : Blockchain) → (append_block b c).chain ≡ c.chain ++ b ∷ []
  unfolding append_block record_meta persist_block update_utxos
  append_block-chain b c = refl

  -- The block that `addBlock` mines.
  abbrev pub candidate : ℤ → ℤ → List Transaction → Blockchain → Block → Block
  candidate now block_time txs c last =
      new_block block_time (u32 (length c.chain)) last.hash txs
        (before_block now c).current_difficulty

  pub is_valid-append :
      (c c' : Blockchain) (last b : Block)
      → is_valid c ≡ true
      → c'.chain ≡ c.chain ++ b ∷ []
      → get_last? c.chain ≡ some last
      → Block.is_valid b ≡ true
      → b.header.previous_hash ≡ last.hash
      → is_valid c' ≡ true
  unfolding is_valid
  is_valid-append c c' last b v e l ok linked = go c.chain v e l
    where
      go :
          (bs : List Block)
          → (elim bs [ [] ↦ true | x ∷ xs ↦ links_valid x xs ]) ≡ true
          → c'.chain ≡ bs ++ b ∷ []
          → get_last? bs ≡ some last
          → (elim c'.chain [ [] ↦ true | x ∷ xs ↦ links_valid x xs ]) ≡ true
      go [] v e l = cc
      go (x ∷ xs) v e l = rw (e, is_valid) (links_valid-append x xs last b l v ok linked)

  -- If mining the next block of a valid chain meets the target after `n` rounds, then `addBlock`
  -- returns; the chain is valid again, is the old one with one block at its end, and that block has
  -- the given transactions, the next index and the hash of the last block.
  pub add_block-is_valid :
      (fuel n : ℕ) (now block_time : ℤ) (txs : List Transaction) (c : Blockchain) (last : Block)
      → n < fuel
      → get_last? c.chain ≡ some last
      → is_valid c ≡ true
      → meets_target (after_rounds n (candidate now block_time txs c last)) ≡ true
      → (c' : Blockchain) × (b : Block) × (add_block fuel now block_time txs c ≡ some c')
        × (is_valid c' ≡ true)
        × (c'.chain ≡ c.chain ++ b ∷ [])
        × (b.transactions ≡ txs)
        × (b.index ≡ u32 (length c.chain))
        × (b.header.previous_hash ≡ last.hash)
  unfolding add_block
  add_block-is_valid fuel n now block_time txs c last p l v hit =
      let start = candidate now block_time txs c last in
      let made = new_block_lem block_time (u32 (length c.chain)) last.hash txs _ in
      let (b, mined, ok, same) =
        mine-after_rounds fuel n start p (new_block-IsHashed block_time _ _ txs _) hit in
      let c' = append_block b (before_block now c) in
      let grown : c'.chain ≡ c.chain ++ b ∷ [] =
        append_block-chain b (before_block now c)
        ∙ ap (λ bs. bs ++ b ∷ []) (before_block-chain now c) in
      let linked : b.header.previous_hash ≡ last.hash = same.previous_hash ∙ made.1 in
      (
        c',
        b,
        rw (before_block-chain now c, l, mined),
        is_valid-append c c' last b v grown l ok linked,
        grown,
        same.transactions ∙ made.2,
        same.index ∙ made.0,
        linked,
      )
