-- ===== src/Privacy/Stealth.antt =====
-- src/privacy/stealth.h and src/privacy/stealth.cpp. The key pair of the payment is an argument.
use rex_coin.Base.{Bool, Option, some, ◌++◌, Bytes, codes, eqb, substr, ◌>>=◌}
use rex_coin.Hasher.{Hasher, sha256}
use rex_coin.Crypto.Ecdsa.{Curve, KeyPair, derive_public_key}

-- `struct StealthAddress`
pub record StealthAddress : Type 0 where
  pub spend_pub_key : Bytes
  pub view_pub_key : Bytes

-- `struct OneTimeAddress`
pub record OneTimeAddress : Type 0 where
  pub address : Bytes
  pub tx_pub_key : Bytes

-- The address that a shared secret and a public key make.
pub one_time : ⦃h : Hasher⦄ → Bytes → Bytes → Bytes
one_time shared spend_pub = codes "RXC" ++ substr (sha256 (shared ++ spend_pub)) 0 33

-- `StealthAddressSystem::generateStealthAddress`
pub generate_stealth_address : ⦃curve : Curve⦄ → Bytes → Bytes → Option StealthAddress
generate_stealth_address spend_priv_key view_priv_key = do
  spend_pub_key ← derive_public_key spend_priv_key
  view_pub_key ← derive_public_key view_priv_key
  some (record { spend_pub_key = spend_pub_key; view_pub_key = view_pub_key })

-- `StealthAddressSystem::createOneTimeAddress`
pub create_one_time_address : ⦃h : Hasher⦄ → KeyPair → StealthAddress → OneTimeAddress
create_one_time_address ephemeral recipient = record {
  address =
      one_time (sha256 (ephemeral.private_key ++ recipient.view_pub_key)) recipient.spend_pub_key;
  tx_pub_key = ephemeral.public_key;
}

-- `StealthAddressSystem::scanTransaction`
pub scan_transaction : ⦃h : Hasher⦄ ⦃curve : Curve⦄ → Bytes → Bytes → Bytes → Option Bool
scan_transaction view_priv_key tx_pub_key output_address = do
  spend_pub ← derive_public_key view_priv_key
  some (eqb (one_time (sha256 (view_priv_key ++ tx_pub_key)) spend_pub) output_address)

-- `StealthAddressSystem::deriveSpendKey`
pub derive_spend_key : ⦃h : Hasher⦄ → Bytes → Bytes → Bytes → Bytes
derive_spend_key spend_priv_key view_priv_key tx_pub_key =
    sha256 (spend_priv_key ++ sha256 (view_priv_key ++ tx_pub_key))
