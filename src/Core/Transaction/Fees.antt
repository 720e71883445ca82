-- ===== src/Core/Transaction/Fees.antt =====
-- src/core/transaction.cpp: the amounts of a transaction.
use rex_coin.Base.{ℕ, ◌*◌, ◌<◌, ◌^◌, ◌≡◌, refl, true, arith, Bytes}
use rex_coin.Base.Int.{ℤ}
use rex_coin.Hasher.{Hasher}
use rex_coin.Core.Transaction.{
  Transaction, total_input, total_output, fee, is_valid, calculate_hash, create_coinbase,
  digest_text, satoshis,
}

-- No transaction has a fee, whatever it takes in and pays out.
pub fee_zero : (tx : Transaction) → fee tx ≡ 0
unfolding fee total_input
fee_zero tx = ground arith

-- A coinbase whose reward fits 64 bits in the small unit is valid, pays out exactly the reward,
-- has no fee, and carries the hash of its own contents.
pub create_coinbase_lem :
    ⦃h : Hasher⦄
    → (now : ℤ) (miner : Bytes) (reward height : ℕ) → reward * satoshis < 2 ^ 64
    → let tx = create_coinbase now miner reward height in
      (is_valid tx ≡ true)
      × (total_output tx ≡ reward * satoshis)
      × (fee tx ≡ 0)
      × (tx.tx_hash ≡ calculate_hash tx)
unfolding create_coinbase is_valid total_output calculate_hash
create_coinbase_lem now miner reward height fits =
    (refl, omega arith, fee_zero _, unfold digest_text in refl)
