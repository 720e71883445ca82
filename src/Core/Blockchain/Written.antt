-- ===== src/Core/Blockchain/Written.antt =====
-- src/core/blockchain.cpp: the database after a block.
use rex_coin.Base.{
  ℕ, ◌+◌, ◌≡◌, refl, ap, ◌∙◌, true, some, ◌∷◌, if◌then◌else◌, length, Bytes, codes, arith,
}
use rex_coin.Base.Text.{eqb}
use rex_coin.Base.Decimal.{decimal}
use rex_coin.Core.Block.{Block}
use rex_coin.Storage.Db.{get_block, get_meta, block_key}
use rex_coin.Core.Blockchain.{
  Blockchain, update_utxos, persist_block, serialize_block, record_meta, append_block,
}
use rex_coin.Core.Blockchain.Persist.{get_block-persist_block}
use rex_coin.Core.Blockchain.Writes.{
  update_utxos-get, update_utxos-opened, persist_block-opened, record_meta-opened,
  record_meta-get_block, record_meta-get_meta,
}

-- What the database says once `b` has been added to the chain of `c`, which then has `n` blocks.
pub record Written (b : Block) (n : ℕ) (c c' : Blockchain) : Type 0 where
  pub opened : c'.db.opened ≡ true
  pub blocks :
      (hash : Bytes)
      → get_block hash c'.db
        ≡ (if eqb b.hash hash then some (serialize_block b) else get_block hash c.db)
  pub height : get_meta (codes "height") c'.db ≡ some (decimal n)
  pub best : get_meta (codes "bestHash") c'.db ≡ some b.hash

module _ (b : Block) (c : Blockchain) (up : c.db.opened ≡ true) where
  abbrev pub stored : Blockchain
  stored = persist_block b (update_utxos b c)

  stored-opened : stored.db.opened ≡ true
  stored-opened = persist_block-opened b (update_utxos b c) (update_utxos-opened b c up)

  stored-get_block :
      (hash : Bytes)
      → get_block hash stored.db
        ≡ (if eqb b.hash hash then some (serialize_block b) else get_block hash c.db)
  unfolding get_block block_key
  stored-get_block hash =
      get_block-persist_block b (update_utxos b c) hash (update_utxos-opened b c up)
      ∙ ap (λ o. if eqb b.hash hash then some (serialize_block b) else o)
          (update_utxos-get b c up b'b' (b':' ∷ hash) (omega arith))

  module _ (height_text : Bytes) where
    abbrev pub noted : Blockchain
    noted = record_meta (codes "bestHash") b.hash (record_meta (codes "height") height_text stored)

    noted-opened : noted.db.opened ≡ true
    noted-opened = record_meta-opened _ (record_meta-opened stored stored-opened _ _) _ _

    noted-get_block : (hash : Bytes) → get_block hash noted.db ≡ get_block hash stored.db
    noted-get_block hash =
        record_meta-get_block _ (record_meta-opened stored stored-opened _ _) _ _ hash
        ∙ record_meta-get_block stored stored-opened _ _ hash

    noted-height : get_meta (codes "height") noted.db ≡ some height_text
    unfolding eqb
    noted-height =
        record_meta-get_meta _ (record_meta-opened stored stored-opened _ _) _ _ (codes "height")
        ∙ record_meta-get_meta stored stored-opened _ _ (codes "height")

    noted-best : get_meta (codes "bestHash") noted.db ≡ some b.hash
    unfolding eqb
    noted-best =
        record_meta-get_meta _ (record_meta-opened stored stored-opened _ _) _ _ (codes "bestHash")

  pub append_block-Written : Written b (length c.chain + 1) c (append_block b c)
  unfolding append_block
  append_block-Written =
      let text = decimal (length c.chain + 1) in
      record {
        opened = noted-opened text;
        blocks = λ hash. noted-get_block text hash ∙ stored-get_block hash;
        height = noted-height text;
        best = noted-best text;
      }

  -- The constructor notes the difficulty last.
  pub noted-Written :
      (difficulty : Bytes)
      → Written b 1 c (record_meta (codes "difficulty") difficulty (noted (codes "1")))
  unfolding eqb decimal
  noted-Written difficulty =
      let one = codes "1" in
      let up' = noted-opened one in
      record {
        opened = record_meta-opened (noted one) up' _ _;
        blocks = λ hash.
            record_meta-get_block (noted one) up' _ _ hash
            ∙ noted-get_block one hash
            ∙ stored-get_block hash;
        height =
            record_meta-get_meta (noted one) up' _ _ (codes "height") ∙ noted-height one ∙ refl;
        best = record_meta-get_meta (noted one) up' _ _ (codes "bestHash") ∙ noted-best one;
      }
