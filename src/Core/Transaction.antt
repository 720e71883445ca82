-- ===== src/Core/Transaction.antt =====
-- src/core/transaction.h and src/core/transaction.cpp. The time of the system clock, which the
-- constructor reads, is an argument.
pub mod Fees
pub mod Digest
use rex_coin.Base.{
  ℕ, zero, suc, ◌+◌, ◌-◌, ◌*◌, Bool, true, false, not, ◌&&◌, List, [], ◌∷◌, ◌++◌, length, ltb,
  if◌then◌else◌, Bytes, codes, replicate, u64, total_u64,
}
use rex_coin.Base.Decimal.{decimal}
use rex_coin.Base.Int.{ℤ, decimal_ℤ}
use rex_coin.Hasher.{Hasher, double_sha256}

-- `struct Signature` of src/crypto/ecdsa.h
pub record Signature : Type 0 where
  pub r : Bytes
  pub s : Bytes
  pub der : Bytes

abbrev pub no_signature : Signature
no_signature = record { r = []; s = []; der = [] }

-- `struct TxInput`
pub record TxInput : Type 0 where
  pub prev_tx_hash : Bytes
  pub output_index : ℕ
  pub script_sig : Bytes
  pub signature : Signature

-- `struct TxOutput`
pub record TxOutput : Type 0 where
  pub amount : ℕ
  pub address : Bytes
  pub script_pub_key : Bytes

-- `struct Transaction`
pub record Transaction : Type 0 where
  pub tx_hash : Bytes
  pub inputs : List TxInput
  pub outputs : List TxOutput
  pub timestamp : ℤ
  pub is_coinbase : Bool

-- `ss << b` for a `bool`
abbrev pub bool_text : Bool → Bytes
bool_text true = codes "1"
bool_text false = codes "0"

-- `for (in : inputs) ss << in.prevTxHash << in.outputIndex;`
inputs_text : List TxInput → Bytes
inputs_text [] = []
inputs_text (i ∷ ins) = (i.prev_tx_hash ++ decimal i.output_index) ++ inputs_text ins

-- `for (out : outputs) ss << out.amount << out.address;`
outputs_text : List TxOutput → Bytes
outputs_text [] = []
outputs_text (o ∷ outs) = (decimal o.amount ++ o.address) ++ outputs_text outs

-- What `calculateHash` hashes.
pub digest_text : Transaction → Bytes
unfolding inputs_text outputs_text
digest_text tx =
    (decimal_ℤ tx.timestamp ++ bool_text tx.is_coinbase)
    ++ (inputs_text tx.inputs ++ outputs_text tx.outputs)

-- `Transaction::calculateHash`
pub calculate_hash : ⦃h : Hasher⦄ → Transaction → Bytes
calculate_hash tx = double_sha256 (digest_text tx)

-- `tx.txHash = tx.calculateHash();`
abbrev with_hash : ⦃h : Hasher⦄ → Transaction → Transaction
with_hash tx = record tx { tx_hash = calculate_hash tx }

-- `Transaction::create`
unfoldable pub create : ⦃h : Hasher⦄ → ℤ → List TxInput → List TxOutput → Transaction
create now ins outs =
    with_hash
      (record { tx_hash = []; inputs = ins; outputs = outs; timestamp = now; is_coinbase = false })

abbrev pub satoshis : ℕ
satoshis = 100000000

-- `Transaction::createCoinbase`
pub create_coinbase : ⦃h : Hasher⦄ → ℤ → Bytes → ℕ → ℕ → Transaction
create_coinbase now miner_address reward block_height = with_hash (record {
  tx_hash = [];
  inputs =
      record {
        prev_tx_hash = replicate 64 b'0';
        output_index = 0xFFFFFFFF;
        script_sig = codes "RexCoin Block #" ++ decimal block_height;
        signature = no_signature;
      }
      ∷ [];
  outputs =
      record {
        amount = u64 (reward * satoshis);
        address = miner_address;
        script_pub_key =
            codes "OP_DUP OP_HASH160 " ++ miner_address ++ codes " OP_EQUALVERIFY OP_CHECKSIG";
      }
      ∷ [];
  timestamp = now;
  is_coinbase = true;
})

-- `Transaction::totalInput`
pub total_input : Transaction → ℕ
total_input tx = 0

-- `Transaction::totalOutput`
pub total_output : Transaction → ℕ
total_output tx = total_u64 (λ (o : TxOutput). o.amount) 0 tx.outputs

-- `Transaction::fee`
pub fee : Transaction → ℕ
fee tx =
    let paid_in = total_input tx in
    let paid_out = total_output tx in
    if tx.is_coinbase then 0 else if ltb paid_out paid_in then paid_in - paid_out else 0

-- `vector::empty`
abbrev pub is_empty {ℓ} : {A : Type ℓ} → List A → Bool
is_empty [] = true
is_empty (_ ∷ _) = false

-- `Transaction::isValid`
unfoldable pub is_valid : Transaction → Bool
is_valid tx =
    if is_empty tx.outputs
    then false
    else if not tx.is_coinbase && is_empty tx.inputs
    then false
    else true

-- `Transaction::serialize`
pub serialize : Transaction → Bytes
serialize tx =
    tx.tx_hash
    ++ codes "|"
    ++ decimal_ℤ tx.timestamp
    ++ codes "|"
    ++ bool_text tx.is_coinbase
    ++ codes "|inputs:"
    ++ decimal (length tx.inputs)
    ++ codes "|outputs:"
    ++ decimal (length tx.outputs)
