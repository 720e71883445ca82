-- ===== src/Core/Mempool.antt =====
-- src/core/mempool.h and src/core/mempool.cpp. `std::sort` by fee rate is a parameter of the
-- function that uses it.
use rex_coin.Base.{
  ℕ, ◌+◌, ◌/◌, ◌≤◌, ◌≡◌, Bool, true, false, not, ◌&&◌, Option, some, List, [], ◌∷◌, map, leb, ltb,
  ◌==◌, length, take, min, arith, if◌then◌else◌, Bytes, total_u64, inl, inr, Option-cases,
}
use rex_coin.Dict.{Dict, lookup, insert, erase, contains, length-insert_new, lookup-insert_self}
use rex_coin.Core.Transaction.{Transaction, fee, serialize}
use rex_coin.Core.Transaction

-- `class Mempool`
abbrev pub Mempool : Type 0
Mempool = Dict Transaction

abbrev pub max_size : ℕ
max_size = 5000

-- `Mempool::add`
unfoldable pub add : Transaction → Mempool → Mempool × Bool
add tx txs =
    if leb max_size (length txs)
    then (txs, false)
    else if not (Transaction.is_valid tx)
    then (txs, false)
    else if contains tx.tx_hash txs
    then (txs, false)
    else (insert tx.tx_hash tx txs, true)

-- `Mempool::remove`
pub remove : Bytes → Mempool → Mempool
remove tx_hash txs = erase tx_hash txs

-- `Mempool::removeConfirmed`
unfoldable pub remove_confirmed : List Bytes → Mempool → Mempool
remove_confirmed [] txs = txs
remove_confirmed (h ∷ hashes) txs = remove_confirmed hashes (erase h txs)

-- `Mempool::feeRate`
pub fee_rate : Transaction → ℕ
fee_rate tx = let size = length (serialize tx) in if size == 0 then 0 else fee tx / size

-- `Mempool::getTopTxs`; `sort rate` stands for `std::sort` by descending rate.
unfoldable pub get_top_txs :
    (sort : (Transaction → ℕ) → List Transaction → List Transaction) (count : ℕ)
    → Mempool
    → List Transaction
get_top_txs sort count txs =
    let sorted = sort fee_rate (map (λ (e : Bytes × Transaction). e.1) txs) in
    take (min count (length sorted)) sorted

-- `Mempool::contains`
pub holds : Bytes → Mempool → Bool
holds tx_hash txs = contains tx_hash txs

-- `Mempool::get`
pub get : Bytes → Mempool → Option Transaction
get tx_hash txs = lookup tx_hash txs

-- `Mempool::totalFees`
pub total_fees : Mempool → ℕ
total_fees txs = total_u64 (λ (e : Bytes × Transaction). fee e.1) 0 txs

-- `Mempool::size`, `Mempool::empty` and `Mempool::clear`
unfoldable pub size : Mempool → ℕ
size txs = length txs

pub empty : Mempool → Bool
empty txs = length txs == 0

pub clear : Mempool → Mempool
clear txs = []

-- A pool within its bound accepts a transaction exactly if there is room, the transaction is valid
-- and its hash is new; then the pool gives it back under its hash and holds one more. Within the
-- bound it stays.
pub add_lem :
    (tx : Transaction) (txs : Mempool)
    → size txs ≤ max_size
    → let r = add tx txs in
      (r.1 ≡ (ltb (size txs) max_size && (Transaction.is_valid tx && not (holds tx.tx_hash txs))))
      × (get tx.tx_hash r.0 ≡ (if r.1 then some tx else get tx.tx_hash txs))
      × (size r.0 ≡ size txs + (if r.1 then 1 else 0))
      × (size r.0 ≤ max_size)
unfolding add size holds get
add_lem tx txs bound = elim (Option-cases (lookup tx.tx_hash txs)) [
  | inl fresh ↦
      let grown = length-insert_new tx.tx_hash tx txs fresh in
      let found = lookup-insert_self tx.tx_hash tx txs in
      let new : contains tx.tx_hash txs ≡ false = rw fresh in ground (arith, new, grown, found)
  | inr (old, there) ↦
      let known : contains tx.tx_hash txs ≡ true = rw there in ground (arith, known)
]
