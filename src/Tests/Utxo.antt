-- ===== src/Tests/Utxo.antt =====
-- src/core/utxo.cpp: the theorems on a set of two outputs.
use rex_coin.Base.Text.{eqb}
use rex_coin.Base.{ℕ, ◌≡◌, ◌+◌, refl, inr, false, none, some, [], ◌∷◌, Bytes, codes, arith, u64}
use rex_coin.Dict.{lookup}
use rex_coin.Base.Decimal.{decimal}
use rex_coin.Core.Utxo.{
  Utxo, UtxoSet, output_key, spend_utxo, get_balance, is_unspent, get_utxo, size,
}
use rex_coin.Core.Utxo.Keys.{output_key_injective}
use rex_coin.Core.Utxo.Balance.{spend_utxo-is_unspent, get_balance-spend_utxo}

abbrev paid_to : Bytes → ℕ → ℕ → Utxo
paid_to address i amount = record {
  tx_hash = codes "aa";
  output_index = i;
  address = address;
  amount = amount;
  spent = false;
}

abbrev two_outputs : UtxoSet
two_outputs =
    (codes "aa:0", paid_to (codes "alice") 0 50) ∷ (codes "aa:1", paid_to (codes "bob") 1 7) ∷ []

found : get_utxo (codes "aa") 0 two_outputs ≡ some (paid_to (codes "alice") 0 50)
unfolding get_utxo output_key lookup eqb decimal
found = refl

absent : get_utxo (codes "aa") 2 two_outputs ≡ none
unfolding get_utxo output_key lookup eqb decimal
absent = refl

output_key_injective_example : (codes "aa" ≡ codes "aa") × (◌≡◌ {A = ℕ} 3 3)
output_key_injective_example = output_key_injective (codes "aa") (codes "aa") 3 3 refl

spend_utxo-is_unspent_example :
    ((spend_utxo (codes "aa") 0 two_outputs).1 ≡ is_unspent (codes "aa") 0 two_outputs)
    × (is_unspent (codes "aa") 0 (spend_utxo (codes "aa") 0 two_outputs).0 ≡ false)
    × (get_utxo (codes "aa") 1 (spend_utxo (codes "aa") 0 two_outputs).0
        ≡ get_utxo (codes "aa") 1 two_outputs)
    × (size (spend_utxo (codes "aa") 0 two_outputs).0 ≡ size two_outputs)
spend_utxo-is_unspent_example =
    spend_utxo-is_unspent (codes "aa") (codes "aa") 0 1 two_outputs (inr (omega arith))

get_balance-spend_utxo_example :
    get_balance (codes "alice") two_outputs
    ≡ u64 (get_balance (codes "alice") (spend_utxo (codes "aa") 0 two_outputs).0 + 50)
unfolding eqb
get_balance-spend_utxo_example =
    get_balance-spend_utxo (codes "aa") 0 two_outputs (paid_to (codes "alice") 0 50) (codes "alice")
      found refl
