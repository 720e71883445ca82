-- ===== src/Tests/Transaction.antt =====
-- src/core/transaction.cpp and src/crypto: the theorems at concrete inputs, over SHA-256.
use rex_coin.Base.{◌≡◌, ◌≢◌, ◌*◌, true, false, [], codes, arith}
use rex_coin.Base.Int.{pos}
use rex_coin.Crypto.Sha256.Digest.{sha256_hasher}
use rex_coin.Core.Transaction.{
  Transaction, satoshis, fee, is_valid, total_output, calculate_hash, create_coinbase,
}
use rex_coin.Core.Transaction.Fees.{create_coinbase_lem}
use rex_coin.Core.Transaction.Digest.{paying, calculate_hash_ambiguous}

create_coinbase_lem_example :
    (is_valid (create_coinbase (pos 5) (codes "miner") 50 1) ≡ true)
    × (total_output (create_coinbase (pos 5) (codes "miner") 50 1) ≡ 50 * satoshis)
    × (fee (create_coinbase (pos 5) (codes "miner") 50 1) ≡ 0)
    × ((create_coinbase (pos 5) (codes "miner") 50 1).tx_hash
        ≡ calculate_hash (create_coinbase (pos 5) (codes "miner") 50 1))
create_coinbase_lem_example = create_coinbase_lem (pos 5) (codes "miner") 50 1 (omega arith)

abbrev blank : Transaction
blank = record { tx_hash = []; inputs = []; outputs = []; timestamp = pos 5; is_coinbase = false }

calculate_hash_ambiguous_example :
    (calculate_hash (paying blank 12 (codes "34X") [])
      ≡ calculate_hash (paying blank 1 (codes "234X") []))
    × (paying blank 12 (codes "34X") [] ≢ paying blank 1 (codes "234X") [])
calculate_hash_ambiguous_example =
    calculate_hash_ambiguous blank 1 2 (codes "34X") [] (omega arith) (omega arith)
