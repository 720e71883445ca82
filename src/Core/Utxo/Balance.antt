-- ===== src/Core/Utxo/Balance.antt =====
-- src/core/utxo.cpp: spending and adding against `isUnspent` and `getBalance`.
use rex_coin.Base.{
  ℕ, suc, ◌+◌, ◌^◌, ◌<◌, ◌≡◌, ◌≢◌, refl, ap, sym, ◌∙◌, ◌⊎◌, inl, inr, true, false, none, some, [],
  ◌∷◌, arith, if◌then◌else◌, Bytes, eqb, u64, sum_by, Bool-cases, Option-cases,
}
use rex_coin.Dict.{
  lookup, insert, lookup-insert_self, lookup-insert_ne, length-insert_old, sum_by-insert_old,
  sum_by-insert_new,
}
use rex_coin.Core.Utxo.{
  Utxo, UtxoSet, output_key, add_utxo, spend_utxo, owns, get_utxos, balance_loop, get_balance,
  is_unspent, get_utxo, size,
}
use rex_coin.Core.Utxo.Keys.{eqb-output_key_ne}

-- The amount that an entry adds to the balance of an address.
abbrev pub owned_amount : Bytes → Bytes × Utxo → ℕ
owned_amount address (key, u) = if owns address u then u.amount else 0

balance_loop-sum_by :
    (address : Bytes) (total : ℕ) (utxos : UtxoSet)
    → total < 2 ^ 64
    → balance_loop address total utxos ≡ u64 (total + sum_by (owned_amount address) utxos)
unfolding balance_loop
balance_loop-sum_by address total [] h = omega arith
balance_loop-sum_by address total ((key, u) ∷ utxos) h = elim (Bool-cases (owns address u)) [
  | inl mine ↦
      rw mine
        (balance_loop-sum_by address (u64 (total + u.amount)) utxos (omega arith) ∙ omega arith)
  | inr other ↦ rw other (balance_loop-sum_by address total utxos h ∙ omega arith)
]

pub get_balance-sum_by :
    (address : Bytes) (utxos : UtxoSet)
    → get_balance address utxos ≡ u64 (sum_by (owned_amount address) utxos)
unfolding get_balance
get_balance-sum_by address utxos = balance_loop-sum_by address 0 utxos (omega arith) ∙ omega arith

sum_by-get_utxos :
    (address : Bytes) (s : UtxoSet)
    → sum_by (owned_amount address) s ≡ sum_by (λ u. u.amount) (get_utxos address s)
unfolding get_utxos
sum_by-get_utxos address [] = refl
sum_by-get_utxos address ((key, u) ∷ s) = elim (Bool-cases (owns address u)) [
  | inl mine ↦ rw mine (omega (arith, sum_by-get_utxos address s))
  | inr other ↦ rw other (omega (arith, sum_by-get_utxos address s))
]

-- The balance is the sum of what `getUTXOs` lists, in `uint64_t` arithmetic.
get_balance-get_utxos :
    (address : Bytes) (utxos : UtxoSet)
    → get_balance address utxos ≡ u64 (sum_by (λ u. u.amount) (get_utxos address utxos))
get_balance-get_utxos address utxos =
    get_balance-sum_by address utxos ∙ ap (λ (n : ℕ). u64 n) (sum_by-get_utxos address utxos)

-- The two ways that `spendUTXO` can go.
spend_utxo_unspent :
    (tx : Bytes) (i : ℕ) (utxos : UtxoSet) (u : Utxo)
    → get_utxo tx i utxos ≡ some u
    → u.spent ≡ false
    → spend_utxo tx i utxos ≡ (insert (output_key tx i) (record u { spent = true }) utxos, true)
unfolding spend_utxo get_utxo
spend_utxo_unspent tx i utxos u found unspent = rw (found, unspent, spend_utxo)

spend_utxo_refused :
    (tx : Bytes) (i : ℕ) (utxos : UtxoSet)
    → is_unspent tx i utxos ≡ false
    → spend_utxo tx i utxos ≡ (utxos, false)
unfolding spend_utxo is_unspent
spend_utxo_refused tx i utxos h = ground arith

is_unspent_cases :
    (tx : Bytes) (i : ℕ) (utxos : UtxoSet)
    → (is_unspent tx i utxos ≡ false)
      ⊎ ((u : Utxo) × (get_utxo tx i utxos ≡ some u)
          × (u.spent ≡ false)
          × (is_unspent tx i utxos ≡ true))
unfolding is_unspent get_utxo
is_unspent_cases tx i utxos = elim (Option-cases (lookup (output_key tx i) utxos)) [
  | inl absent ↦ inl (rw (absent, is_unspent))
  | inr (u, found) ↦ elim (Bool-cases u.spent) [
    | inl gone ↦ inl (rw (found, is_unspent, gone))
    | inr unspent ↦ inr (u, found, unspent, rw (found, is_unspent, unspent))
  ]
]

is_unspent_after_spend :
    (tx : Bytes) (i : ℕ) (utxos : UtxoSet) (u : Utxo)
    → is_unspent tx i (insert (output_key tx i) (record u { spent = true }) utxos) ≡ false
unfolding is_unspent
is_unspent_after_spend tx i utxos u =
    rw (lookup-insert_self (output_key tx i) (record u { spent = true }) utxos, is_unspent)

-- `spendUTXO` succeeds exactly on an unspent output; then that output is spent, any other is as it
-- was, and the size is the same.
pub spend_utxo-is_unspent :
    (tx tx' : Bytes) (i i' : ℕ) (utxos : UtxoSet)
    → (tx ≢ tx') ⊎ (i ≢ i')
    → let r = spend_utxo tx i utxos in
      (r.1 ≡ is_unspent tx i utxos)
      × (is_unspent tx i r.0 ≡ false)
      × (get_utxo tx' i' r.0 ≡ get_utxo tx' i' utxos)
      × (size r.0 ≡ size utxos)
spend_utxo-is_unspent tx tx' i i' utxos ne = elim (is_unspent_cases tx i utxos) [
  | inl refused ↦ rw (spend_utxo_refused tx i utxos refused) (sym refused, refused, refl, refl)
  | inr (u, found, unspent, before) ↦ rw (spend_utxo_unspent tx i utxos u found unspent) (
    sym before,
    is_unspent_after_spend tx i utxos u,
    unfold get_utxo in
        lookup-insert_ne (output_key tx i) (output_key tx' i') _ utxos
          (eqb-output_key_ne tx tx' i i' ne),
    unfold size get_utxo in
        length-insert_old (output_key tx i) (record u { spent = true }) u utxos found,
  )
]

-- A second `spendUTXO` of the same output fails and changes nothing.
pub spend_utxo_twice :
    (tx : Bytes) (i : ℕ) (utxos : UtxoSet)
    → spend_utxo tx i (spend_utxo tx i utxos).0 ≡ ((spend_utxo tx i utxos).0, false)
spend_utxo_twice tx i utxos =
    spend_utxo_refused tx i (spend_utxo tx i utxos).0
      (spend_utxo-is_unspent tx tx i (suc i) utxos (inr (omega arith))).1

-- Spending an unspent output takes its amount from the balance of its address, and leaves the
-- balance of every other address.
pub get_balance-spend_utxo :
    (tx : Bytes) (i : ℕ) (utxos : UtxoSet) (u : Utxo) (address : Bytes)
    → get_utxo tx i utxos ≡ some u
    → u.spent ≡ false
    → get_balance address utxos
      ≡ u64 (
          get_balance address (spend_utxo tx i utxos).0
          + (if eqb u.address address then u.amount else 0))
get_balance-spend_utxo tx i utxos u address found unspent =
    rw
      (
        spend_utxo_unspent tx i utxos u found unspent,
        get_balance-sum_by address utxos,
        get_balance-sum_by address (insert (output_key tx i) (record u { spent = true }) utxos),
      )
      (let step =
          sum_by-insert_old (owned_amount address) (output_key tx i) (record u { spent = true }) u
            utxos (unfold get_utxo in found) in
        ground arith)

-- Adding a new unspent output adds its amount to the balance of its address alone.
pub get_balance-add_utxo :
    (u : Utxo) (utxos : UtxoSet) (address : Bytes)
    → get_utxo u.tx_hash u.output_index utxos ≡ none
    → u.spent ≡ false
    → get_balance address (add_utxo u utxos)
      ≡ u64 (get_balance address utxos + (if eqb u.address address then u.amount else 0))
unfolding add_utxo get_utxo
get_balance-add_utxo u utxos address fresh unspent =
    let key = output_key u.tx_hash u.output_index in
    let step = sum_by-insert_new (owned_amount address) key u utxos fresh in
    rw (get_balance-sum_by address utxos, get_balance-sum_by address (insert key u utxos))
      (ground arith)
