-- ===== src/Core/Transaction/Digest.antt =====
-- src/core/transaction.cpp, `Transaction::calculateHash`: the hashed text has no separators.
use mathlib.Core.List.{append_assoc}
use rex_coin.Base.{ℕ, ◌+◌, ◌*◌, ◌<◌, ◌≡◌, ◌≢◌, ap, [], ◌∷◌, ◌++◌, arith, Bytes}
use rex_coin.Base.Decimal.{decimal, decimal_snoc}
use rex_coin.Base.Int.{decimal_ℤ}
use rex_coin.Hasher.{Hasher, double_sha256}
use rex_coin.Core.Transaction.{
  Transaction, bool_text, digest_text, inputs_text, outputs_text, calculate_hash,
}

-- The transaction `tx` with one output.
abbrev pub paying : Transaction → ℕ → Bytes → Bytes → Transaction
paying tx amount address script = record tx {
  outputs = record { amount = amount; address = address; script_pub_key = script } ∷ [];
}

one_output :
    (a d : ℕ) (address script : Bytes)
    → 0 < a
    → d < 10
    → outputs_text (record { amount = a * 10 + d; address = address; script_pub_key = script } ∷ [])
      ≡ outputs_text
          (record { amount = a; address = (48 + d) ∷ address; script_pub_key = script } ∷ [])
unfolding outputs_text
one_output a d address script some_coins digit =
    rw (decimal_snoc a d some_coins digit, append_assoc (decimal a) ((48 + d) ∷ []) address)

abbrev first_amount : Transaction → ℕ
first_amount tx = elim tx.outputs [ [] ↦ 0 | o ∷ outs ↦ o.amount ]

-- Two transactions that differ only in an output hash alike: one pays ten times the amount (and a
-- digit more) that the other pays, to an address without the digit in front of it.
pub calculate_hash_ambiguous :
    ⦃h : Hasher⦄
    → (tx : Transaction) (a d : ℕ) (address script : Bytes) → 0 < a
    → d < 10
    → (calculate_hash (paying tx (a * 10 + d) address script)
        ≡ calculate_hash (paying tx a ((48 + d) ∷ address) script))
      × (paying tx (a * 10 + d) address script ≢ paying tx a ((48 + d) ∷ address) script)
unfolding calculate_hash digest_text
calculate_hash_ambiguous tx a d address script some_coins digit = (
  ap double_sha256 (
      ap
        (λ outs.
          (decimal_ℤ tx.timestamp ++ bool_text tx.is_coinbase) ++ (inputs_text tx.inputs ++ outs))
        (one_output a d address script some_coins digit)),
  λ e. omega (arith, ap first_amount e),
)
