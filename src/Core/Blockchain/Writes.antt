-- ===== src/Core/Blockchain/Writes.antt =====
-- src/core/blockchain.cpp: what the steps of `addBlock` write to the database, by the letters with
-- which the keys begin.
use rex_coin.Base.{
  ℕ, ◌≡◌, ◌≢◌, refl, ap, ◌∙◌, true, false, some, List, [], ◌∷◌, ◌++◌, arith, if◌then◌else◌, All,
  All-append, Bytes, codes, eqb, eqb-head_ne, eqb-append_left,
}
use rex_coin.Base.Decimal.{decimal}
use rex_coin.Core.Transaction.{Transaction, TxInput}
use rex_coin.Core.Block.{Block}
use rex_coin.Core.Utxo.{UtxoSet}
use rex_coin.Storage.Db.{
  Batch, empty_batch, batch_del, get, get_block, get_meta, block_key, meta_key, write_batch,
}
use rex_coin.Storage.Db.Schema.{
  opened-write_batch, get-write_batch_dels, get-write_batch_puts, batch_del-parts, get-set_meta,
}
use rex_coin.Core.Blockchain.{
  Blockchain, spend_inputs, apply_transactions, update_utxos, persist_block, record_meta,
  block_batch,
}
use rex_coin.Core.Blockchain.Persist.{block_batch_other, dels-block_batch}

-- A batch that only deletes outputs.
record OnlySpends (batch : Batch) : Type 0 where
  none_put : batch.puts ≡ []
  outputs : All (λ k. (rest : Bytes) × (k ≡ b'u' ∷ rest)) batch.dels

spend_inputs-OnlySpends :
    (ins : List TxInput) (utxos : UtxoSet) (batch : Batch)
    → OnlySpends batch
    → OnlySpends (spend_inputs ins (utxos, batch)).1
unfolding spend_inputs
spend_inputs-OnlySpends [] utxos batch o = o
spend_inputs-OnlySpends (i ∷ ins) utxos batch o =
    let key : Bytes = codes "u:" ++ i.prev_tx_hash ++ b':' ∷ decimal i.output_index in
    let parts = batch_del-parts key batch in
    spend_inputs-OnlySpends ins _ (batch_del key batch) (record {
      none_put = parts.0 ∙ o.none_put;
      outputs = rw parts.1 (
          All-append (λ k. (rest : Bytes) × (k ≡ b'u' ∷ rest)) batch.dels (key ∷ []) o.outputs
            ((_, refl), tt));
    })

apply_transactions-OnlySpends :
    (txs : List Transaction) (utxos : UtxoSet) (batch : Batch)
    → OnlySpends batch
    → OnlySpends (apply_transactions txs (utxos, batch)).1
unfolding apply_transactions
apply_transactions-OnlySpends [] utxos batch o = o
apply_transactions-OnlySpends (tx ∷ txs) utxos batch o =
    apply_transactions-OnlySpends txs _ _ (spend_inputs-OnlySpends tx.inputs utxos batch o)

outputs_ne :
    (x : ℕ) (rest : Bytes) (dels : List Bytes)
    → b'u' ≢ x
    → All (λ k. (r : Bytes) × (k ≡ b'u' ∷ r)) dels
    → All (λ k. eqb k (x ∷ rest) ≡ false) dels
outputs_ne x rest [] ne all = tt
outputs_ne x rest (k ∷ dels) ne all =
    let (r, e) = all.0 in (rw e (eqb-head_ne b'u' x r rest ne), outputs_ne x rest dels ne all.1)

module _ (b : Block) (c : Blockchain) (up : c.db.opened ≡ true) where
  -- `updateUTXOs` writes nothing but outputs.
  pub update_utxos-get :
      (x : ℕ) (rest : Bytes) → b'u' ≢ x → get (x ∷ rest) (update_utxos b c).db ≡ get (x ∷ rest) c.db
  unfolding update_utxos
  update_utxos-get x rest ne =
      let start : OnlySpends empty_batch = record { none_put = refl; outputs = tt } in
      let o = apply_transactions-OnlySpends b.transactions c.utxo_set empty_batch start in
      let batch = (apply_transactions b.transactions (c.utxo_set, empty_batch)).1 in
      ap (λ open_now. get (x ∷ rest) (if open_now then (write_batch batch c.db).0 else c.db)) up
      ∙ get-write_batch_dels batch c.db (x ∷ rest) o.none_put
          (outputs_ne x rest batch.dels ne o.outputs)

  pub update_utxos-opened : (update_utxos b c).db.opened ≡ true
  unfolding update_utxos
  update_utxos-opened =
      let batch = (apply_transactions b.transactions (c.utxo_set, empty_batch)).1 in
      ap (λ open_now. (if open_now then (write_batch batch c.db).0 else c.db).opened) up
      ∙ opened-write_batch batch c.db
      ∙ up

  pub persist_block-opened : (persist_block b c).db.opened ≡ true
  unfolding persist_block
  persist_block-opened = opened-write_batch (block_batch b) c.db ∙ up

  -- `persistBlock` writes no metadata.
  pub persist_block-meta :
      (rest : Bytes) → get (b'm' ∷ rest) (persist_block b c).db ≡ get (b'm' ∷ rest) c.db
  unfolding persist_block get
  persist_block-meta rest =
      get-write_batch_puts (block_batch b) c.db (b'm' ∷ rest) up (dels-block_batch b)
      ∙ block_batch_other c.db.memdb b rest b'm' (omega arith) (omega arith)
      ∙ rw (
        eqb-head_ne b'h' b'm' (b':' ∷ decimal b.index) rest (omega arith),
        eqb-head_ne b'b' b'm' (b':' ∷ b.hash) rest (omega arith),
        up,
      )

module _ (c : Blockchain) (up : c.db.opened ≡ true) (key value : Bytes) where
  pub record_meta-opened : (record_meta key value c).db.opened ≡ true
  unfolding record_meta
  record_meta-opened = (get-set_meta key [] value c.db up).1

  pub record_meta-get_block :
      (hash : Bytes) → get_block hash (record_meta key value c).db ≡ get_block hash c.db
  unfolding record_meta get_block block_key meta_key
  record_meta-get_block hash =
      (get-set_meta key (codes "b:" ++ hash) value c.db up).0
      ∙ rw (eqb-head_ne b'm' b'b' (codes "eta:" ++ key) (b':' ∷ hash) (omega arith)) refl

  pub record_meta-get_meta :
      (j : Bytes)
      → get_meta j (record_meta key value c).db
        ≡ (if eqb key j then some value else get_meta j c.db)
  unfolding record_meta get_meta meta_key
  record_meta-get_meta j =
      (get-set_meta key (codes "meta:" ++ j) value c.db up).0
      ∙ rw (eqb-append_left (codes "meta:") key j) refl
