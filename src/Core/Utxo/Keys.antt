-- ===== src/Core/Utxo/Keys.antt =====
-- src/core/utxo.h, `UTXO::key`: when two outputs have one key.
use rex_coin.Base.{
  ℕ, ◌≡◌, refl, [], ◌∷◌, ◌++◌, arith, All, Bytes, false, eqb, eqb_iff, ◌≢◌, ◌⊎◌, inl, inr,
}
use rex_coin.Base.Decimal.{decimal, decimal_injective, IsDigit, decimal-IsDigit}
use rex_coin.Core.Utxo.{output_key}

no_colon : (s t : Bytes) → All IsDigit (s ++ 58 ∷ t) → ⊥
no_colon [] t h = omega arith
no_colon (c ∷ s) t h = no_colon s t h.1

-- What follows the last colon is determined, if it holds digits only.
pub split_last_colon :
    (s t d e : Bytes)
    → All IsDigit d
    → All IsDigit e
    → s ++ 58 ∷ d ≡ t ++ 58 ∷ e
    → (s ≡ t) × (d ≡ e)
split_last_colon [] [] d e hd he p = (refl, cc)
split_last_colon [] (c ∷ t) d e hd he p =
    let q : d ≡ t ++ 58 ∷ e = cc in absurd (no_colon t e (rw q at hd))
split_last_colon (c ∷ s) [] d e hd he p =
    let q : e ≡ s ++ 58 ∷ d = cc in absurd (no_colon s d (rw q at he))
split_last_colon (c ∷ s) (c' ∷ t) d e hd he p =
    let ih = split_last_colon s t d e hd he (cc) in (cc (ih.0), ih.1)

-- Two outputs have one key only if they are the same output of the same transaction, whatever the
-- transaction hashes hold.
pub output_key_injective :
    (tx tx' : Bytes) (i i' : ℕ) → output_key tx i ≡ output_key tx' i' → (tx ≡ tx') × (i ≡ i')
unfolding output_key
output_key_injective tx tx' i i' p =
    let (t, d) =
      split_last_colon tx tx' (decimal i) (decimal i') (decimal-IsDigit i) (decimal-IsDigit i') p in
    (t, decimal_injective i i' d)

pub eqb-output_key_ne :
    (tx tx' : Bytes) (i i' : ℕ)
    → (tx ≢ tx') ⊎ (i ≢ i')
    → eqb (output_key tx i) (output_key tx' i') ≡ false
eqb-output_key_ne tx tx' i i' (inl ne) =
    ground (arith, eqb_iff (output_key tx i) (output_key tx' i'), output_key_injective tx tx' i i')
eqb-output_key_ne tx tx' i i' (inr ne) =
    ground (arith, eqb_iff (output_key tx i) (output_key tx' i'), output_key_injective tx tx' i i')
