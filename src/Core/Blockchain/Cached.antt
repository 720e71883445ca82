-- ===== src/Core/Blockchain/Cached.antt =====
-- src/core/blockchain.cpp, `Blockchain::getBlockByHash`: what the cache holds, and what the two give.
use rex_coin.Base.{
  ℕ, ◌≡◌, refl, ap, ◌∙◌, inl, inr, some, List, [], ◌∷◌, ◌++◌, arith, length, All, All-map, Bytes,
  codes, Bool-cases,
}
use rex_coin.Base.Int.{ℤ}
use rex_coin.Dict.{All-lookup}
use rex_coin.Hasher.{Hasher}
use rex_coin.Core.Transaction.{Transaction}
use rex_coin.Core.Block.{Block}
use rex_coin.Storage.Cache.{holds}
use rex_coin.Storage.Cache.Entries.{put-All, get-holds}
use rex_coin.Core.Blockchain.{
  Blockchain, add_block, serialize_block, append_block, before_block, get_block_by_hash,
  update_utxos, record_meta, persist_block, adjust_difficulty,
}
use rex_coin.Core.Blockchain.Kept.{
  InChain, Kept, add_block-cases, get_elem?-append_old, get_elem?-append_last,
}
use rex_coin.Core.Blockchain.Growth.{before_block-chain, append_block-chain}

-- Each entry of the cache is a block of the chain under the key of its hash.
abbrev pub IsCached : List Block → Bytes × (Bytes × ℕ) → Type 0
IsCached chain e =
    (b : Block) × InChain b chain × (e.0 ≡ codes "blk:" ++ b.hash) × (e.1.0 ≡ serialize_block b)

module _ ⦃h : Hasher⦄ where
  append_block-IsCached :
      (b : Block) (c : Blockchain)
      → All (IsCached c.chain) c.block_cache.cache
      → All (IsCached (c.chain ++ b ∷ [])) (append_block b c).block_cache.cache
  unfolding append_block record_meta persist_block update_utxos
  append_block-IsCached b c all =
      put-All (IsCached (c.chain ++ b ∷ [])) (codes "blk:" ++ b.hash) (serialize_block b)
        c.block_cache (λ node. (b, (length c.chain, get_elem?-append_last c.chain b), refl, refl))
        (All-map (IsCached c.chain) (IsCached (c.chain ++ b ∷ []))
          (λ e (x, (i, at_i), key, value).
            (x, (i, get_elem?-append_old c.chain i x b at_i), key, value))
          c.block_cache.cache all)

  before_block-cache : (now : ℤ) (c : Blockchain) → (before_block now c).block_cache ≡ c.block_cache
  unfolding before_block adjust_difficulty record_meta
  before_block-cache now c = ground arith

  pub add_block-IsCached :
      (fuel : ℕ) (now block_time : ℤ) (txs : List Transaction) (c c' : Blockchain)
      → add_block fuel now block_time txs c ≡ some c'
      → All (IsCached c.chain) c.block_cache.cache
      → All (IsCached c'.chain) c'.block_cache.cache
  add_block-IsCached fuel now block_time txs c c' e all =
      let (last, b, l, mined, made) = add_block-cases fuel now block_time txs c c' e in
      let before = before_block now c in
      let all' : All (IsCached before.chain) before.block_cache.cache =
        rw (before_block-chain now c, before_block-cache now c) all in
      let after = append_block-IsCached b before all' in
      rw (made, append_block-chain b before) after

  -- A block that the cache or the database holds is found by its hash.
  pub get_block_by_hash-Kept :
      (c : Blockchain) (b : Block)
      → Kept c
      → All (IsCached c.chain) c.block_cache.cache
      → InChain b c.chain
      → (b' : Block) × InChain b' c.chain
        × (b'.hash ≡ b.hash)
        × ((get_block_by_hash b.hash c).1 ≡ some (serialize_block b'))
  unfolding get_block_by_hash
  get_block_by_hash-Kept c b k all here =
      elim (Bool-cases (holds (codes "blk:" ++ b.hash) c.block_cache)) [
        | inl hit ↦
            let (v, node, known, found) = get-holds (codes "blk:" ++ b.hash) c.block_cache hit in
            let (b', there, key, value) =
              All-lookup (IsCached c.chain) (codes "blk:" ++ b.hash) (v, node) c.block_cache.cache
                known all in
            (b', there, cc key, rw (get_block_by_hash, hit) (found ∙ ap some value))
        | inr miss ↦
            let (b', there, same, found) = k.stored b here in
            (b', there, same, rw (get_block_by_hash, miss) found)
      ]
