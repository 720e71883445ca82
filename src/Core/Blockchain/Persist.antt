-- ===== src/Core/Blockchain/Persist.antt =====
-- src/core/blockchain.cpp, `Blockchain::persistBlock`: what the database holds afterwards.
use rex_coin.Base.{
  ℕ, zero, suc, ◌+◌, ◌-◌, ◌^◌, ◌<◌, ◌≡◌, ◌≢◌, refl, ap, sym, ◌∙◌, true, false, Option, some, List,
  [], ◌∷◌, ◌++◌, arith, length, length-append, length-replicate, Bytes, codes, eqb, eqb_iff,
  eqb-head_ne, eqb-append_left, if◌then◌else◌, replicate,
}
use rex_coin.Base.Decimal.{decimal, decimal_head, length-decimal}
use rex_coin.Core.Transaction.{Transaction, TxOutput}
use rex_coin.Core.Block.{Block}
use rex_coin.Dict.{Dict, lookup}
use rex_coin.Storage.Db.{
  Batch, empty_batch, get, get_block, get_hash_at_height, height_key, block_key, pad_ten,
  apply_puts,
}
use rex_coin.Storage.Db.Schema.{
  lookup-batch_put, dels-batch_put, get-write_batch_puts, apply_puts_empty,
}
use rex_coin.Core.Blockchain.{
  Blockchain, put_outputs, put_transactions, block_batch, persist_block, serialize_block, utxo_data,
  serialize_tx,
}

-- What a batch makes of a key of the map `m`.
abbrev pub after_puts : Dict Bytes → Bytes → Batch → Option Bytes
after_puts m k batch = lookup k (apply_puts batch.puts m)

module _ (m : Dict Bytes) (c : ℕ) (rest : Bytes) where
  put_outputs_other :
      (tx_hash : Bytes) (i : ℕ) (outs : List TxOutput) (batch : Batch)
      → b'u' ≢ c
      → after_puts m (c ∷ rest) (put_outputs tx_hash i outs batch) ≡ after_puts m (c ∷ rest) batch
  unfolding put_outputs
  put_outputs_other tx_hash i [] batch ne = refl
  put_outputs_other tx_hash i (o ∷ outs) batch ne =
      put_outputs_other tx_hash (i + 1) outs _ ne
      ∙ lookup-batch_put _ (c ∷ rest) (utxo_data o) batch m
      ∙ rw (eqb-head_ne b'u' c _ rest ne)

  put_transactions_other :
      (txs : List Transaction) (batch : Batch)
      → b'u' ≢ c
      → b't' ≢ c
      → after_puts m (c ∷ rest) (put_transactions txs batch) ≡ after_puts m (c ∷ rest) batch
  unfolding put_transactions
  put_transactions_other [] batch nu nt = refl
  put_transactions_other (tx ∷ txs) batch nu nt =
      put_transactions_other txs _ nu nt
      ∙ put_outputs_other tx.tx_hash 0 tx.outputs _ nu
      ∙ lookup-batch_put _ (c ∷ rest) (serialize_tx tx) batch m
      ∙ rw (eqb-head_ne b't' c _ rest nt)

dels-put_outputs :
    (tx_hash : Bytes) (i : ℕ) (outs : List TxOutput) (batch : Batch)
    → (put_outputs tx_hash i outs batch).dels ≡ batch.dels
unfolding put_outputs
dels-put_outputs tx_hash i [] batch = refl
dels-put_outputs tx_hash i (o ∷ outs) batch =
    dels-put_outputs tx_hash (i + 1) outs _ ∙ dels-batch_put _ _ batch

dels-put_transactions :
    (txs : List Transaction) (batch : Batch) → (put_transactions txs batch).dels ≡ batch.dels
unfolding put_transactions
dels-put_transactions [] batch = refl
dels-put_transactions (tx ∷ txs) batch =
    dels-put_transactions txs _
    ∙ dels-put_outputs tx.tx_hash 0 tx.outputs _
    ∙ dels-batch_put _ _ batch

pub dels-block_batch : (b : Block) → (block_batch b).dels ≡ []
unfolding block_batch
dels-block_batch b =
    dels-put_transactions b.transactions _ ∙ dels-batch_put _ _ _ ∙ dels-batch_put _ _ _

module _ (m : Dict Bytes) (b : Block) (rest : Bytes) where
  -- The batch as its first two puts, for a key that begins neither with `u` nor with `t`.
  pub block_batch_other :
      (c : ℕ)
      → b'u' ≢ c
      → b't' ≢ c
      → after_puts m (c ∷ rest) (block_batch b) ≡ (
          if eqb (codes "h:" ++ decimal b.index) (c ∷ rest)
          then some b.hash
          else if eqb (codes "b:" ++ b.hash) (c ∷ rest)
          then some (serialize_block b)
          else lookup (c ∷ rest) m)
  unfolding block_batch
  block_batch_other c nu nt =
      let first =
        lookup-batch_put (codes "b:" ++ b.hash) (c ∷ rest) (serialize_block b) empty_batch m in
      put_transactions_other m c rest b.transactions _ nu nt
      ∙ lookup-batch_put (codes "h:" ++ decimal b.index) (c ∷ rest) b.hash _ m
      ∙ rw (first, apply_puts_empty m)

-- After `persistBlock` the database gives the serialised block under its hash, whatever its
-- transactions are, and for every other hash it gives what it gave before.
pub get_block-persist_block :
    (b : Block) (c : Blockchain) (hash : Bytes)
    → c.db.opened ≡ true
    → get_block hash (persist_block b c).db
      ≡ (if eqb b.hash hash then some (serialize_block b) else get_block hash c.db)
unfolding persist_block get_block get block_key
get_block-persist_block b c hash up =
    get-write_batch_puts (block_batch b) c.db (codes "b:" ++ hash) up (dels-block_batch b)
    ∙ block_batch_other c.db.memdb b (b':' ∷ hash) b'b' (omega arith) (omega arith)
    ∙ rw (
      eqb-head_ne b'h' b'b' (b':' ∷ decimal b.index) (b':' ∷ hash) (omega arith),
      eqb-append_left (codes "b:") b.hash hash,
      up,
    )

-- A padded height is not the plain height: it begins with a zero and has ten digits.
pad_ten-ne-decimal : (h n : ℕ) → h < 10 ^ 9 → decimal n ≢ pad_ten (decimal h)
pad_ten-ne-decimal h zero small e = omega (
  arith,
  ap length e,
  length-decimal 0 0 (omega arith),
  length-append (replicate (10 - length (decimal h)) b'0') (decimal h),
  length-replicate {A = ℕ} (10 - length (decimal h)) b'0',
)
pad_ten-ne-decimal h (suc n) small e =
    let (c, s, e', nonzero) = decimal_head (suc n) (omega arith) in
    let pad : 10 - length (decimal h) ≡ suc (9 - length (decimal h)) =
      omega (arith, length-decimal h 8 small) in
    let q : c ∷ s ≡ b'0' ∷ replicate (9 - length (decimal h)) b'0' ++ decimal h =
      sym e' ∙ e ∙ rw pad in
    let head : c ≡ b'0' = cc in omega arith

-- Below a height of 10^9 no block that `persistBlock` writes, whatever its own height, changes what
-- `getHashAtHeight` finds: the one writes the plain height and the other reads a padded one.
pub get_hash_at_height-persist_block :
    (b : Block) (c : Blockchain) (height : ℕ)
    → c.db.opened ≡ true
    → height < 10 ^ 9
    → get_hash_at_height height (persist_block b c).db ≡ get_hash_at_height height c.db
unfolding persist_block get_hash_at_height get height_key
get_hash_at_height-persist_block b c height up small =
    get-write_batch_puts (block_batch b) c.db (codes "h:" ++ pad_ten (decimal height)) up
      (dels-block_batch b)
    ∙ block_batch_other c.db.memdb b (b':' ∷ pad_ten (decimal height)) b'h' (omega arith)
        (omega arith)
    ∙ rw (other, eqb-head_ne b'b' b'h' (b':' ∷ b.hash) _ (omega arith), up)
  where
    other : eqb (codes "h:" ++ decimal b.index) (codes "h:" ++ pad_ten (decimal height)) ≡ false
    other = ground (
      arith,
      eqb-append_left (codes "h:") (decimal b.index) (pad_ten (decimal height)),
      eqb_iff (decimal b.index) (pad_ten (decimal height)),
      pad_ten-ne-decimal height b.index small,
    )
