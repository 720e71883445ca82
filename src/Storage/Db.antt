-- ===== src/Storage/Db.antt =====
-- src/storage/leveldb.h and src/storage/leveldb.cpp in the build without HAS_LEVELDB, where the
-- database is the map `memdb`.
pub mod Laws
pub mod Schema
use rex_coin.Base.{
  ℕ, zero, suc, ◌+◌, ◌-◌, Bool, true, false, Option, none, some, List, [], ◌∷◌, ◌++◌, map, take,
  replicate, length, if◌then◌else◌, Bytes, codes, eqb,
}
use rex_coin.Base.Decimal.{decimal}
use rex_coin.Dict.{Dict, lookup, insert, erase, contains, is_some}

-- `struct DBBatch`; the lists are in the order of the calls.
pub record Batch : Type 0 where
  pub puts : List (Bytes × Bytes)
  pub dels : List Bytes

abbrev pub empty_batch : Batch
empty_batch = record { puts = []; dels = [] }

-- `DBBatch::put` and `DBBatch::del`
pub batch_put : Bytes → Bytes → Batch → Batch
batch_put k v batch = record batch { puts = batch.puts ++ (k, v) ∷ [] }

pub batch_del : Bytes → Batch → Batch
batch_del k batch = record batch { dels = batch.dels ++ k ∷ [] }

-- `class BlockchainDB`
pub record Db : Type 0 where
  pub opened : Bool
  pub db_path : Bytes
  pub memdb : Dict Bytes

-- `BlockchainDB::BlockchainDB`
unfoldable pub new_db : Db
new_db = record { opened = false; db_path = []; memdb = [] }

-- `BlockchainDB::open`
unfoldable pub open_db : Bytes → Db → Db × Bool
open_db path db = (record db { opened = true; db_path = path }, true)

-- `BlockchainDB::close`
unfoldable pub close : Db → Db
close db = if db.opened then record db { opened = false } else db

-- `BlockchainDB::put`
unfoldable pub put : Bytes → Bytes → Db → Db × Bool
put k v db = if db.opened then (record db { memdb = insert k v db.memdb }, true) else (db, false)

-- `BlockchainDB::get`; `some` for a result of true.
unfoldable pub get : Bytes → Db → Option Bytes
get k db = if db.opened then lookup k db.memdb else none

-- `BlockchainDB::del`
pub del : Bytes → Db → Db × Bool
del k db =
    if db.opened then (record db { memdb = erase k db.memdb }, contains k db.memdb) else (db, false)

-- `BlockchainDB::exists`
pub exists : Bytes → Db → Bool
exists k db = is_some (get k db)

-- `for (k, v : batch.puts) memdb[k] = v;`
pub apply_puts : List (Bytes × Bytes) → Dict Bytes → Dict Bytes
apply_puts [] m = m
apply_puts ((k, v) ∷ puts) m = apply_puts puts (insert k v m)

-- `for (k : batch.dels) memdb.erase(k);`
pub apply_dels : List Bytes → Dict Bytes → Dict Bytes
apply_dels [] m = m
apply_dels (k ∷ dels) m = apply_dels dels (erase k m)

-- `BlockchainDB::writeBatch`
pub write_batch : Batch → Db → Db × Bool
write_batch batch db =
    if db.opened
    then (record db { memdb = apply_dels batch.dels (apply_puts batch.puts db.memdb) }, true)
    else (db, false)

has_prefix : Bytes → Bytes → Bool
has_prefix prefix k = eqb (take (length prefix) k) prefix

scan_map : Bytes → Dict Bytes → List (Bytes × Bytes)
unfolding has_prefix
scan_map prefix [] = []
scan_map prefix ((k, v) ∷ m) =
    let rest = scan_map prefix m in if has_prefix prefix k then (k, v) ∷ rest else rest

-- `BlockchainDB::scan`
pub scan : Bytes → Db → List (Bytes × Bytes)
unfolding scan_map
scan prefix db = scan_map prefix db.memdb

-- `BlockchainDB::keys`
pub keys : Bytes → Db → List Bytes
keys prefix db = map (λ (e : Bytes × Bytes). e.0) (scan prefix db)

-- `BlockchainDB::utxoKey`
unfoldable pub utxo_key : Bytes → ℕ → Bytes
utxo_key tx idx = codes "u:" ++ tx ++ b':' ∷ decimal idx

-- `std::setw(10) << std::setfill('0')`
abbrev pub pad_ten : Bytes → Bytes
pad_ten s = replicate (10 - length s) b'0' ++ s

-- `BlockchainDB::heightKey`
unfoldable pub height_key : ℕ → Bytes
height_key h = codes "h:" ++ pad_ten (decimal h)

-- The keys of blocks, transactions and metadata.
unfoldable pub block_key : Bytes → Bytes
block_key h = codes "b:" ++ h

unfoldable pub tx_key : Bytes → Bytes
tx_key h = codes "t:" ++ h

unfoldable pub meta_key : Bytes → Bytes
meta_key k = codes "meta:" ++ k

-- `putBlock`, `getBlock`, `putTx`, `getTx`
unfoldable pub put_block : Bytes → Bytes → Db → Db × Bool
put_block h d db = put (block_key h) d db

unfoldable pub get_block : Bytes → Db → Option Bytes
get_block h db = get (block_key h) db

unfoldable pub put_tx : Bytes → Bytes → Db → Db × Bool
put_tx h d db = put (tx_key h) d db

unfoldable pub get_tx : Bytes → Db → Option Bytes
get_tx h db = get (tx_key h) db

-- `putUTXO`, `getUTXO`, `delUTXO`
unfoldable pub put_utxo : Bytes → ℕ → Bytes → Db → Db × Bool
put_utxo tx idx d db = put (utxo_key tx idx) d db

unfoldable pub get_utxo : Bytes → ℕ → Db → Option Bytes
get_utxo tx idx db = get (utxo_key tx idx) db

pub del_utxo : Bytes → ℕ → Db → Db × Bool
del_utxo tx idx db = del (utxo_key tx idx) db

-- `putHeightIndex`, `getHashAtHeight`
unfoldable pub put_height_index : ℕ → Bytes → Db → Db × Bool
put_height_index h hash db = put (height_key h) hash db

unfoldable pub get_hash_at_height : ℕ → Db → Option Bytes
get_hash_at_height h db = get (height_key h) db

-- `setMeta`, `getMeta`
unfoldable pub set_meta : Bytes → Bytes → Db → Db × Bool
set_meta k v db = put (meta_key k) v db

unfoldable pub get_meta : Bytes → Db → Option Bytes
get_meta k db = get (meta_key k) db

-- `BlockchainDB::size`
pub size : Db → ℕ
size db = length db.memdb
