-- ===== src/Crypto/Wallet.antt =====
-- src/crypto/wallet.h and src/crypto/wallet.cpp.
pub mod Signing
use rex_coin.Base.{ℕ, Bool, Option, some, [], ◌∷◌, ◌++◌, Bytes, codes, ◌>>=◌}
use rex_coin.Hasher.{Hasher}
use rex_coin.Crypto.Ecdsa
use rex_coin.Crypto.Ecdsa.{
  Curve, KeyPair, generate_key_pair, derive_public_key, public_key_to_address,
}
use rex_coin.Core.Transaction.{Signature}

-- `class Wallet`
pub record Wallet : Type 0 where
  pub key_pair : KeyPair
  pub address : Bytes
  pub balance : ℕ

module _ ⦃h : Hasher⦄ ⦃curve : Curve⦄ where
  -- `Wallet::Wallet()`, on some randomness
  pub new_wallet : ℕ → Option Wallet
  new_wallet seed = do
    let keys = generate_key_pair seed
    address ← public_key_to_address keys.public_key
    some (record { key_pair = keys; address = address; balance = 0 })

  -- `Wallet::Wallet(privKey)`
  unfoldable pub wallet_of : Bytes → Option Wallet
  wallet_of priv_key = do
    public_key ← derive_public_key priv_key
    let keys : KeyPair = record { private_key = priv_key; public_key = public_key }
    address ← public_key_to_address public_key
    some (record { key_pair = keys; address = address; balance = 0 })

  -- `Wallet::signTransaction`
  unfoldable pub sign_transaction : Bytes → Wallet → Option Signature
  sign_transaction tx_hash wallet = Ecdsa.sign wallet.key_pair.private_key tx_hash

  -- `Wallet::verifySignature`
  unfoldable pub verify_signature : Bytes → Signature → Wallet → Option Bool
  verify_signature tx_hash sig wallet = Ecdsa.verify wallet.key_pair.public_key tx_hash sig

-- `Wallet::setBalance`
pub set_balance : ℕ → Wallet → Wallet
set_balance bal wallet = record wallet { balance = bal }

-- `Wallet::exportJSON`
pub export_json : Wallet → Bytes
export_json wallet =
    codes "{"
    ++ 10 ∷ codes "  "
    ++ 34 ∷ codes "address"
    ++ 34 ∷ codes ": "
    ++ 34 ∷ wallet.address
    ++ 34 ∷ codes ","
    ++ 10 ∷ codes "  "
    ++ 34 ∷ codes "publicKey"
    ++ 34 ∷ codes ": "
    ++ 34 ∷ wallet.key_pair.public_key
    ++ 34 ∷ codes ","
    ++ 10 ∷ codes "  "
    ++ 34 ∷ codes "privateKey"
    ++ 34 ∷ codes ": "
    ++ 34 ∷ wallet.key_pair.private_key
    ++ 34 ∷ 10 ∷ codes "}"
