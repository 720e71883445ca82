-- ===== src/Core/Blockchain/Founding.antt =====
-- src/core/blockchain.cpp, `Blockchain::Blockchain`: the chain of the genesis block.
use rex_coin.Base.{
  ℕ, zero, suc, ◌≡◌, refl, sym, ap, ◌∙◌, inl, inr, true, false, some, List, [], ◌∷◌, ◌++◌, length,
  get_last?, Bytes, codes, eqb_refl, replicate, Option-cases,
}
use rex_coin.Base.Decimal.{decimal}
use rex_coin.Base.Int.{ℤ}
use rex_coin.Hasher.{Hasher}
use rex_coin.Core.Transaction.{Transaction, create_coinbase}
use rex_coin.Core.Block.{Block, mine, new_block}
use rex_coin.Dict.{lookup}
use rex_coin.Storage.Cache.{new_cache}
use rex_coin.Storage.Db.{get_meta, get, open_db, new_db}
use rex_coin.Core.Blockchain.{
  Blockchain, new_blockchain, is_valid, links_valid, record_meta, load_from_db, start_chain,
  opened_chain, returned, create_genesis_block, update_utxos, persist_block, initial_reward,
}
use rex_coin.Core.Blockchain.Written.{Written, noted-Written}
use rex_coin.Core.Blockchain.Kept.{Kept, InChain, IsStored}

module _ ⦃h : Hasher⦄ where
  load_from_db-opened_chain :
      (fuel : ℕ) (now tx_time block_time : ℤ) (dir : Bytes)
      → load_from_db fuel tx_time block_time (opened_chain now dir)
        ≡ returned (opened_chain now dir) false
  unfolding load_from_db opened_chain get_meta get open_db new_db lookup
  load_from_db-opened_chain fuel now tx_time block_time dir = refl

  new_blockchain-start_chain :
      (fuel : ℕ) (now tx_time block_time : ℤ) (dir : Bytes)
      → new_blockchain fuel now tx_time block_time dir
        ≡ start_chain fuel tx_time block_time (opened_chain now dir)
  unfolding new_blockchain
  new_blockchain-start_chain fuel now tx_time block_time dir =
      rw (new_blockchain, load_from_db-opened_chain fuel now tx_time block_time dir) refl

  -- The chain that the constructor leaves when its genesis block is `b`.
  abbrev founded : Block → Blockchain → Blockchain
  founded b c =
      let pushed : Blockchain = record (update_utxos b c) { chain = c.chain ++ b ∷ [] } in
      record_meta (codes "difficulty") (decimal pushed.current_difficulty) (
        record_meta (codes "bestHash") b.hash
          (record_meta (codes "height") (codes "1") (persist_block b pushed)))

  start_chain-cases :
      (fuel : ℕ) (tx_time block_time : ℤ) (c c' : Blockchain)
      → start_chain fuel tx_time block_time c ≡ some c'
      → (b : Block) × (prev : Bytes) × (txs : List Transaction) × (mine fuel
            (new_block block_time 0 prev txs c.current_difficulty)
          ≡ some b)
        × (c' ≡ founded b c)
  unfolding start_chain create_genesis_block update_utxos
  start_chain-cases fuel tx_time block_time c c' e =
      let txs =
        create_coinbase tx_time (codes "RXCGenesisAddress_RexNetwork_2026") initial_reward 0 ∷ [] in
      let prev = replicate {A = ℕ} 64 b'0' in
      elim (Option-cases (mine fuel (new_block block_time 0 prev txs c.current_difficulty))) [
        | inl spent ↦ absurd (cc (rw (start_chain, create_genesis_block, spent) at e))
        | inr (b, mined) ↦
            let made : founded b c ≡ c' = cc (rw (start_chain, create_genesis_block, mined) at e) in
            (b, prev, txs, mined, sym made)
      ]

  founded-chain :
      (b : Block) (now : ℤ) (dir : Bytes) → (founded b (opened_chain now dir)).chain ≡ b ∷ []
  unfolding record_meta persist_block opened_chain
  founded-chain b now dir = refl

  founded-Written :
      (b : Block) (now : ℤ) (dir : Bytes)
      → Written b 1 (opened_chain now dir) (founded b (opened_chain now dir))
  unfolding opened_chain open_db new_db update_utxos
  founded-Written b now dir =
      let w = noted-Written b (record (opened_chain now dir) { chain = b ∷ [] }) refl _ in
      record { opened = w.opened; blocks = w.blocks; height = w.height; best = w.best }

  one_block-is_valid : (b : Block) (c : Blockchain) → c.chain ≡ b ∷ [] → is_valid c ≡ true
  unfolding is_valid links_valid
  one_block-is_valid b c e = rw (is_valid, e) refl

  opened_chain-chain : (now : ℤ) (dir : Bytes) → (opened_chain now dir).chain ≡ []
  unfolding opened_chain
  opened_chain-chain now dir = refl

  only_member : (b x : Block) → InChain x (b ∷ []) → x ≡ b
  only_member b x (zero, e) = cc e
  only_member b x (suc i, e) = absurd (cc e)

  stored-first :
      (b : Block) (c c' : Blockchain)
      → Written b 1 c c'
      → c'.chain ≡ b ∷ []
      → (x : Block) → InChain x c'.chain
      → IsStored c'.chain c'.db x
  stored-first b c c' w grown x here =
      let e : x ≡ b = only_member b x (rw grown at here) in
      rw e (b, (0, rw grown refl), refl, w.blocks b.hash ∙ rw (eqb_refl b.hash) refl)

  -- The first block is the only one, and the database holds it.
  Kept-founded : (b : Block) (now : ℤ) (dir : Bytes) → Kept (founded b (opened_chain now dir))
  Kept-founded b now dir =
      let c = founded b (opened_chain now dir) in
      let grown = founded-chain b now dir in
      let w = founded-Written b now dir in
      record {
        opened = w.opened;
        valid = one_block-is_valid b c grown;
        stored = stored-first b (opened_chain now dir) c w grown;
        height = w.height ∙ ap (λ n. some (decimal n)) (sym (ap length grown));
        best = (b, ap get_last? grown, w.best);
      }

  founded-cache :
      (b : Block) (now : ℤ) (dir : Bytes)
      → (founded b (opened_chain now dir)).block_cache.cache ≡ []
  unfolding record_meta persist_block opened_chain new_cache update_utxos
  founded-cache b now dir = refl

  -- A new chain keeps what every chain does, and its cache is empty.
  pub Kept-new_blockchain :
      (fuel : ℕ) (now tx_time block_time : ℤ) (dir : Bytes) (c : Blockchain)
      → new_blockchain fuel now tx_time block_time dir ≡ some c
      → Kept c × (c.block_cache.cache ≡ [])
  Kept-new_blockchain fuel now tx_time block_time dir c e =
      let started = sym (new_blockchain-start_chain fuel now tx_time block_time dir) ∙ e in
      let (b, prev, txs, mined, made) =
        start_chain-cases fuel tx_time block_time (opened_chain now dir) c started in
      rw made (Kept-founded b now dir, founded-cache b now dir)
