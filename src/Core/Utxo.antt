-- ===== src/Core/Utxo.antt =====
-- src/core/utxo.h and src/core/utxo.cpp: the set of transaction outputs, by key.
pub mod Keys
pub mod Balance
use rex_coin.Base.{
  ℕ, zero, ◌+◌, Bool, true, false, not, ◌&&◌, Option, none, some, List, [], ◌∷◌, ◌++◌, length,
  if◌then◌else◌, Bytes, eqb, u64,
}
use rex_coin.Base.Decimal.{decimal}
use rex_coin.Dict.{Dict, lookup, insert, is_some}

-- `struct UTXO`
pub record Utxo : Type 0 where
  pub tx_hash : Bytes
  pub output_index : ℕ
  pub address : Bytes
  pub amount : ℕ
  pub spent : Bool

-- `UTXO::key`
unfoldable pub output_key : Bytes → ℕ → Bytes
output_key tx_hash output_index = tx_hash ++ b':' ∷ decimal output_index

-- `class UTXOSet`
abbrev pub UtxoSet : Type 0
UtxoSet = Dict Utxo

-- `UTXOSet::addUTXO`
pub add_utxo : Utxo → UtxoSet → UtxoSet
add_utxo u utxos = insert (output_key u.tx_hash u.output_index) u utxos

-- `UTXOSet::spendUTXO`: the new set and the result.
pub spend_utxo : Bytes → ℕ → UtxoSet → UtxoSet × Bool
spend_utxo tx_hash output_index utxos =
    let key = output_key tx_hash output_index in
    elim (lookup key utxos) [
      | none ↦ (utxos, false)
      | some u ↦
          if u.spent then (utxos, false) else (insert key (record u { spent = true }) utxos, true)
    ]

-- The test of `getUTXOs` and `getBalance`.
abbrev pub owns : Bytes → Utxo → Bool
owns address u = eqb u.address address && not u.spent

-- `UTXOSet::getUTXOs`
pub get_utxos : Bytes → UtxoSet → List Utxo
get_utxos address [] = []
get_utxos address ((key, u) ∷ utxos) =
    let rest = get_utxos address utxos in if owns address u then u ∷ rest else rest

-- The loop of `getBalance`.
balance_loop : Bytes → ℕ → UtxoSet → ℕ
balance_loop address total [] = total
balance_loop address total ((key, u) ∷ utxos) =
    balance_loop address (if owns address u then u64 (total + u.amount) else total) utxos

-- `UTXOSet::getBalance`
pub get_balance : Bytes → UtxoSet → ℕ
unfolding balance_loop
get_balance address utxos = balance_loop address 0 utxos

-- `UTXOSet::isUnspent`
pub is_unspent : Bytes → ℕ → UtxoSet → Bool
is_unspent tx_hash output_index utxos = elim (lookup (output_key tx_hash output_index) utxos) [
  | none ↦ false
  | some u ↦ not u.spent
]

-- `UTXOSet::getUTXO`
unfoldable pub get_utxo : Bytes → ℕ → UtxoSet → Option Utxo
get_utxo tx_hash output_index utxos = lookup (output_key tx_hash output_index) utxos

-- `UTXOSet::size`
pub size : UtxoSet → ℕ
size utxos = length utxos
