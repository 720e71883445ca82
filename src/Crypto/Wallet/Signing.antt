-- ===== src/Crypto/Wallet/Signing.antt =====
-- src/crypto/wallet.cpp: the address and the signatures of a wallet.
use rex_coin.Base.{
  ◌≡◌, ◌≢◌, refl, inl, inr, true, some, [], arith, Bytes, IsByte, All, Option-cases,
}
use rex_coin.Hasher.{Hasher}
use rex_coin.Crypto.Hex.{bytes_to_hex}
use rex_coin.Crypto.Hex.RoundTrip.{hex_to_bytes-bytes_to_hex}
use rex_coin.Crypto.Hash160.Address.{is_valid-to_address}
use rex_coin.Crypto.Base58.{is_valid}
use rex_coin.Crypto.Ecdsa.{Curve, KeyPair, derive_public_key, public_key_to_address}
use rex_coin.Crypto.Ecdsa.Address.{public_key_to_address-is_valid}
use rex_coin.Crypto.Ecdsa.Signing.{verify-sign}
use rex_coin.Crypto.Wallet.{Wallet, wallet_of, sign_transaction, verify_signature}
use rex_coin.Core.Transaction.{Signature}

module _ ⦃h : Hasher⦄ ⦃curve : Curve⦄ where
  -- The parts of a wallet that was made from a private key.
  pub wallet_of-parts :
      (priv_key : Bytes) (wallet : Wallet)
      → wallet_of priv_key ≡ some wallet
      → (wallet.key_pair.private_key ≡ priv_key)
        × (derive_public_key priv_key ≡ some wallet.key_pair.public_key)
        × (public_key_to_address wallet.key_pair.public_key ≡ some wallet.address)
  unfolding wallet_of
  wallet_of-parts priv_key wallet e = elim (Option-cases (derive_public_key priv_key)) [
    | inl none_made ↦ absurd (cc (rw (wallet_of, none_made) at e))
    | inr (key, made) ↦ elim (Option-cases (public_key_to_address key)) [
      | inl none_made ↦ absurd (cc (rw (wallet_of, made, none_made) at e))
      | inr (address, made') ↦
          let keys : KeyPair = record { private_key = priv_key; public_key = key } in
          let whole : Wallet = record { key_pair = keys; address = address; balance = 0 } in
          let same : whole ≡ wallet = cc (rw (wallet_of, made, made') at e) in
          rw (← same) (refl, made, made')
    ]
  ]

  -- Every private key in hex has a wallet.
  pub wallet_of-total :
      (pb : Bytes) → All IsByte pb → (wallet : Wallet) × (wallet_of (bytes_to_hex pb) ≡ some wallet)
  unfolding wallet_of derive_public_key public_key_to_address
  wallet_of-total pb all =
      let back = hex_to_bytes-bytes_to_hex pb all in
      let point = curve.public_point pb in
      let back' = hex_to_bytes-bytes_to_hex point (curve.public_point-IsByte pb) in
      let (text, _, made, _, _, _, _) =
        is_valid-to_address point 0x3C (0, []) (omega arith) (omega arith) in
      let keys : KeyPair = record {
        private_key = bytes_to_hex pb;
        public_key = bytes_to_hex point;
      } in
      (
        record { key_pair = keys; address = text; balance = 0 },
        rw (wallet_of, derive_public_key, back, public_key_to_address, back', made),
      )

  -- A wallet made from a private key has an address that `isValid` accepts, and accepts each signature
  -- that it gives on a transaction, unless the library fails and the fields stay empty.
  pub verify_signature-sign_transaction :
      (priv_key tx_hash : Bytes) (wallet : Wallet) (sig : Signature)
      → wallet_of priv_key ≡ some wallet
      → sign_transaction tx_hash wallet ≡ some sig
      → sig.r ≢ []
      → (is_valid wallet.address ≡ true) × (verify_signature tx_hash sig wallet ≡ some true)
  unfolding sign_transaction verify_signature
  verify_signature-sign_transaction priv_key tx_hash wallet sig e signed made =
      let (own, derived, addressed) = wallet_of-parts priv_key wallet e in
      (
        public_key_to_address-is_valid wallet.key_pair.public_key wallet.address addressed,
        verify-sign wallet.key_pair.private_key wallet.key_pair.public_key tx_hash sig
            (rw own derived) signed made,
      )
