-- ===== src/Core/Blockchain.antt =====
-- src/core/blockchain.h and src/core/blockchain.cpp, over the in-memory build of the database. The
-- readings of the clock are arguments, and mining takes fuel: `none` means that it ran out.
-- Creating the data directory and the messages to the console are left out.
pub mod Persist
pub mod Writes
pub mod Written
pub mod Kept
pub mod Founding
pub mod History
pub mod Cached
pub mod Reward
pub mod Growth
use rex_coin.Base.{
  ℕ, zero, suc, ◌+◌, ◌-◌, ◌*◌, ◌/◌, ◌%◌, ◌^◌, Bool, true, false, ◌&&◌, Option, none, some, List, [],
  ◌∷◌, ◌++◌, ltb, leb, ◌==◌, length, get_elem?, get_last?, if◌then◌else◌, Bytes, codes, eqb, u32,
  replicate, ◌>>=◌,
}
use rex_coin.Base.Decimal.{decimal, stoul}
use rex_coin.Base.Int.{ℤ, pos, decimal_ℤ, ◌-ℤ◌, ltb_ℤ}
use rex_coin.Hasher.{Hasher}
use rex_coin.Core.Utxo.{Utxo, UtxoSet, spend_utxo, add_utxo}
use rex_coin.Core.Utxo
use rex_coin.Core.Transaction.{Transaction, TxInput, TxOutput, create_coinbase, bool_text}
use rex_coin.Core.Block.{Block, BlockHeader, new_block, mine}
use rex_coin.Core.Block
use rex_coin.Storage.Db.{
  Db, Batch, empty_batch, batch_put, batch_del, new_db, open_db, close, write_batch, set_meta,
  get_meta, get_block,
}
use rex_coin.Storage.Cache.{LruCache, new_cache}
use rex_coin.Storage.Cache

abbrev pub halving_interval : ℕ
halving_interval = 210000

abbrev pub initial_reward : ℕ
initial_reward = 50

abbrev pub block_time_secs : ℕ
block_time_secs = 600

abbrev pub difficulty_window : ℕ
difficulty_window = 2016

abbrev pub max_supply : ℕ
max_supply = 21000000

-- `class Blockchain`
pub record Blockchain : Type 0 where
  pub chain : List Block
  pub utxo_set : UtxoSet
  pub db : Db
  pub block_cache : LruCache
  pub current_difficulty : ℕ
  pub last_adjustment_time : ℤ
  pub data_dir : Bytes

transactions_text : List Transaction → Bytes
transactions_text [] = []
transactions_text (tx ∷ txs) =
    (codes "|"
      ++ tx.tx_hash
      ++ codes "|"
      ++ bool_text tx.is_coinbase
      ++ codes "|"
      ++ decimal (length tx.outputs))
    ++ transactions_text txs

-- `Blockchain::serializeBlock`
pub serialize_block : Block → Bytes
unfolding transactions_text
serialize_block b =
    (decimal b.index
      ++ codes "|"
      ++ b.hash
      ++ codes "|"
      ++ b.header.previous_hash
      ++ codes "|"
      ++ b.header.merkle_root
      ++ codes "|"
      ++ decimal_ℤ b.header.timestamp
      ++ codes "|"
      ++ decimal b.header.difficulty
      ++ codes "|"
      ++ decimal b.header.nonce
      ++ codes "|"
      ++ decimal (length b.transactions))
    ++ transactions_text b.transactions

outputs_text : List TxOutput → Bytes
outputs_text [] = []
outputs_text (o ∷ outs) =
    (codes "|OUT:" ++ o.address ++ codes ":" ++ decimal o.amount) ++ outputs_text outs

-- The text of a transaction in `persistBlock`.
pub serialize_tx : Transaction → Bytes
unfolding outputs_text
serialize_tx tx =
    (tx.tx_hash ++ codes "|" ++ bool_text tx.is_coinbase ++ codes "|" ++ decimal_ℤ tx.timestamp)
    ++ outputs_text tx.outputs

-- `utxoData` of `persistBlock`
pub utxo_data : TxOutput → Bytes
utxo_data o = o.address ++ codes "|" ++ decimal o.amount ++ codes "|0"

pub put_outputs : Bytes → ℕ → List TxOutput → Batch → Batch
put_outputs tx_hash i [] batch = batch
put_outputs tx_hash i (o ∷ outs) batch =
    put_outputs tx_hash (i + 1) outs
      (batch_put (codes "u:" ++ tx_hash ++ b':' ∷ decimal i) (utxo_data o) batch)

pub put_transactions : List Transaction → Batch → Batch
put_transactions [] batch = batch
put_transactions (tx ∷ txs) batch = put_transactions txs (
    put_outputs tx.tx_hash 0 tx.outputs
      (batch_put (codes "t:" ++ tx.tx_hash) (serialize_tx tx) batch))

-- The batch of `persistBlock`.
pub block_batch : Block → Batch
block_batch b = put_transactions b.transactions (
    batch_put (codes "h:" ++ decimal b.index) b.hash
      (batch_put (codes "b:" ++ b.hash) (serialize_block b) empty_batch))

-- `Blockchain::persistBlock`
unfoldable pub persist_block : Block → Blockchain → Blockchain
persist_block b c = record c { db = (write_batch (block_batch b) c.db).0 }

pub spend_inputs : List TxInput → UtxoSet × Batch → UtxoSet × Batch
spend_inputs [] s = s
spend_inputs (i ∷ ins) (utxos, batch) = spend_inputs ins (
  (spend_utxo i.prev_tx_hash i.output_index utxos).0,
  batch_del (codes "u:" ++ i.prev_tx_hash ++ b':' ∷ decimal i.output_index) batch,
)

pub add_outputs : Bytes → ℕ → List TxOutput → UtxoSet → UtxoSet
add_outputs tx_hash i [] utxos = utxos
add_outputs tx_hash i (o ∷ outs) utxos = add_outputs tx_hash (i + 1) outs (
    add_utxo
      (record {
        tx_hash = tx_hash;
        output_index = i;
        address = o.address;
        amount = o.amount;
        spent = false;
      })
      utxos)

pub apply_transactions : List Transaction → UtxoSet × Batch → UtxoSet × Batch
apply_transactions [] s = s
apply_transactions (tx ∷ txs) s =
    let (utxos, batch) = spend_inputs tx.inputs s in
    apply_transactions txs (add_outputs tx.tx_hash 0 tx.outputs utxos, batch)

-- `Blockchain::updateUTXOs`
unfoldable pub update_utxos : Block → Blockchain → Blockchain
update_utxos b c =
    let (utxos, batch) = apply_transactions b.transactions (c.utxo_set, empty_batch) in
    record c { utxo_set = utxos; db = if c.db.opened then (write_batch batch c.db).0 else c.db }

-- `Blockchain::createGenesisBlock`; the clock is read for the transaction and for the block.
unfoldable pub create_genesis_block :
    ⦃h : Hasher⦄ → ℕ → ℤ → ℤ → Blockchain → Option (Block × Blockchain)
create_genesis_block fuel tx_time block_time c = do
  let tx = create_coinbase tx_time (codes "RXCGenesisAddress_RexNetwork_2026") initial_reward 0
  genesis ← mine fuel (new_block block_time 0 (replicate 64 b'0') (tx ∷ []) c.current_difficulty)
  some (genesis, update_utxos genesis c)

-- What `loadFromDB` does: it threw in `std::stoul`, ran out of fuel, or returned a result.
pub data Loaded : Type 0 where
  threw out_of_fuel : Loaded
  returned : Blockchain → Bool → Loaded

-- The end of `loadFromDB`: only the genesis block is made again.
recreate_genesis : ⦃h : Hasher⦄ → ℕ → ℤ → ℤ → Blockchain → Loaded
recreate_genesis fuel tx_time block_time c = elim (create_genesis_block fuel tx_time block_time c) [
  | none ↦ out_of_fuel
  | some (genesis, c') ↦ returned (record c' { chain = c'.chain ++ genesis ∷ [] }) true
]

-- `Blockchain::loadFromDB`
unfoldable pub load_from_db : ⦃h : Hasher⦄ → ℕ → ℤ → ℤ → Blockchain → Loaded
unfolding recreate_genesis
load_from_db fuel tx_time block_time c = elim (get_meta (codes "height") c.db) [
  | none ↦ returned c false
  | some height_text ↦ elim (stoul height_text) [
    | none ↦ threw
    | some n ↦ if u32 n == 0 then returned c false else elim (get_meta (codes "difficulty") c.db) [
      | none ↦ recreate_genesis fuel tx_time block_time c
      | some difficulty_text ↦ elim (stoul difficulty_text) [
        | none ↦ threw
        | some d ↦
            recreate_genesis fuel tx_time block_time (record c { current_difficulty = u32 d })
      ]
    ]
  ]
]

-- `db.setMeta(key, value)` on the chain's database.
unfoldable pub record_meta : Bytes → Bytes → Blockchain → Blockchain
record_meta key value c = record c { db = (set_meta key value c.db).0 }

-- The branch of the constructor for a database that holds no chain.
unfoldable pub start_chain : ⦃h : Hasher⦄ → ℕ → ℤ → ℤ → Blockchain → Option Blockchain
start_chain fuel tx_time block_time c = do
  (genesis, c') ← create_genesis_block fuel tx_time block_time c
  let pushed : Blockchain = record c' { chain = c'.chain ++ genesis ∷ [] }
  some (
      record_meta (codes "difficulty") (decimal pushed.current_difficulty) (
        record_meta (codes "bestHash") genesis.hash
          (record_meta (codes "height") (codes "1") (persist_block genesis pushed))))

-- The members before the body of the constructor runs, with the database opened.
unfoldable pub opened_chain : ℤ → Bytes → Blockchain
opened_chain now dir = record {
  chain = [];
  utxo_set = [];
  db = (open_db (dir ++ codes "/chaindata") new_db).0;
  block_cache = new_cache 512;
  current_difficulty = 4;
  last_adjustment_time = now;
  data_dir = dir;
}

-- `Blockchain::Blockchain`
unfoldable pub new_blockchain : ⦃h : Hasher⦄ → ℕ → ℤ → ℤ → ℤ → Bytes → Option Blockchain
new_blockchain fuel now tx_time block_time dir =
    elim (load_from_db fuel tx_time block_time (opened_chain now dir)) [
      | threw ↦ none
      | out_of_fuel ↦ none
      | returned c true ↦ some c
      | returned c false ↦ start_chain fuel tx_time block_time c
    ]

-- `Blockchain::~Blockchain`: what it leaves in the database.
pub close_chain : Blockchain → Db
close_chain c =
    let best : Bytes = elim (get_last? c.chain) [ none ↦ [] | some b ↦ b.hash ] in
    let c' = record_meta (codes "difficulty") (decimal c.current_difficulty) (
      record_meta (codes "bestHash") best
        (record_meta (codes "height") (decimal (length c.chain)) c)) in
    close c'.db

-- `BLOCK_TIME_SECS * DIFFICULTY_WINDOW`
abbrev pub expected_secs : ℕ
expected_secs = block_time_secs * difficulty_window

-- The new `currentDifficulty` of `adjustDifficulty`.
unfoldable pub adjusted : ℤ → ℤ → ℕ → ℕ
adjusted now last current =
    let elapsed = now -ℤ last in
    if ltb_ℤ elapsed (pos (expected_secs / 4))
    then u32 (current + 1)
    else if ltb_ℤ (pos (expected_secs * 4)) elapsed && ltb 1 current
    then current - 1
    else current

-- `Blockchain::adjustDifficulty`
unfoldable pub adjust_difficulty : ℤ → Blockchain → Blockchain
adjust_difficulty now c =
    let difficulty = adjusted now c.last_adjustment_time c.current_difficulty in
    record_meta (codes "difficulty") (decimal difficulty)
      (record c { current_difficulty = difficulty; last_adjustment_time = now })

-- The head of `addBlock`: `if (chain.size() % DIFFICULTY_WINDOW == 0 && chain.size() > 0) …`
unfoldable pub before_block : ℤ → Blockchain → Blockchain
before_block now c =
    if length c.chain % difficulty_window == 0 && ltb 0 (length c.chain)
    then adjust_difficulty now c
    else c

-- The rest of `addBlock`, once the new block is mined.
pub append_block : Block → Blockchain → Blockchain
append_block b c =
    let persisted = record_meta (codes "bestHash") b.hash (
      record_meta (codes "height") (decimal (length c.chain + 1))
        (persist_block b (update_utxos b c))) in
    record persisted {
      chain = persisted.chain ++ b ∷ [];
      block_cache = Cache.put (codes "blk:" ++ b.hash) (serialize_block b) persisted.block_cache;
    }

-- `Blockchain::addBlock`; the clock is read by `adjustDifficulty` and by the new block.
pub add_block : ⦃h : Hasher⦄ → ℕ → ℤ → ℤ → List Transaction → Blockchain → Option Blockchain
add_block fuel now block_time txs c = do
  let c' = before_block now c
  last ← get_last? c'.chain
  b ← mine fuel (new_block block_time (u32 (length c'.chain)) last.hash txs c'.current_difficulty)
  some (append_block b c')

-- The loop of `isValid`, from `chain[i-1]` on.
unfoldable pub links_valid : ⦃h : Hasher⦄ → Block → List Block → Bool
links_valid prev [] = true
links_valid prev (b ∷ bs) =
    Block.is_valid b && (eqb b.header.previous_hash prev.hash && links_valid b bs)

-- `Blockchain::isValid`
unfoldable pub is_valid : ⦃h : Hasher⦄ → Blockchain → Bool
is_valid c = elim c.chain [ [] ↦ true | b ∷ bs ↦ links_valid b bs ]

-- The reward at a chain of some length: `INITIAL_REWARD >> halvings`.
pub reward_at : ℕ → ℕ
reward_at size =
    let halvings = u32 (size / halving_interval) in
    if leb 64 halvings then 0 else initial_reward / 2 ^ halvings

-- `Blockchain::getBlockReward`
pub get_block_reward : Blockchain → ℕ
get_block_reward c = reward_at (length c.chain)

-- `getDifficulty`, `getHeight`, `getLatestBlock`, `getBlock`, `getBalance`
pub get_difficulty : Blockchain → ℕ
get_difficulty c = c.current_difficulty

pub get_height : Blockchain → ℕ
get_height c = length c.chain

pub get_latest_block : Blockchain → Option Block
get_latest_block c = get_last? c.chain

pub get_block_at : ℕ → Blockchain → Option Block
get_block_at i c = if leb (length c.chain) i then none else get_elem? c.chain i

pub get_balance : Bytes → Blockchain → ℕ
get_balance address c = Utxo.get_balance address c.utxo_set

-- `Blockchain::getBlockByHash`; a hit moves the entry of the cache to the front.
pub get_block_by_hash : Bytes → Blockchain → Blockchain × Option Bytes
get_block_by_hash hash c =
    if Cache.holds (codes "blk:" ++ hash) c.block_cache
    then (let (cache, found) = Cache.get (codes "blk:" ++ hash) c.block_cache in
        (record c { block_cache = cache }, found))
    else (c, get_block hash c.db)
