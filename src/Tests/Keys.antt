-- ===== src/Tests/Keys.antt =====
-- src/crypto and src/core/script.cpp: addresses, wallets and signatures, over a curve with one
-- public key and one signature.
use rex_coin.Base.{
  ℕ, zero, suc, ◌≡◌, ◌≢◌, ◌<◌, refl, true, some, [], ◌∷◌, ◌++◌, codes, arith, replicate, All, Bytes,
  IsByte, length, if◌then◌else◌,
}
use rex_coin.Crypto.Sha256.Digest.{sha256_hasher}
use rex_coin.Crypto.Hex.{bytes_to_hex, byte_hex, hex_to_bytes}
use rex_coin.Crypto.Hex.RoundTrip.{hex_to_bytes-bytes_to_hex}
use rex_coin.Crypto.Base58.{encode, decode, is_valid, decode_check}
use rex_coin.Crypto.Base58.RoundTrip.{decode-encode, has_value}
use rex_coin.Crypto.Hash160
use rex_coin.Crypto.Hash160.{hash_bytes, to_address}
use rex_coin.Crypto.Hash160.Address.{is_valid-to_address, hash_total}
use rex_coin.Crypto.Ecdsa
use rex_coin.Crypto.Ecdsa.{Curve, derive_public_key}
use rex_coin.Crypto.Wallet.{Wallet, wallet_of, sign_transaction, verify_signature}
use rex_coin.Crypto.Wallet.Signing.{
  wallet_of-total, wallet_of-parts, verify_signature-sign_transaction,
}
use rex_coin.Core.Script.{build_p2pkh, build_unlock_p2pkh, verify_p2pkh}
use rex_coin.Core.Script.Unlock.{verify_p2pkh-sign}
use rex_coin.Core.Transaction.{Signature}

-- Two leading zeros, and the bytes behind them.
decode-encode_example :
    decode (encode (0 ∷ 0 ∷ 1 ∷ 255 ∷ []))
    ≡ some (
        if has_value (0 ∷ 0 ∷ 1 ∷ 255 ∷ []) then 0 ∷ 0 ∷ 1 ∷ 255 ∷ [] else 0 ∷ 0 ∷ 0 ∷ 1 ∷ 255 ∷ [])
decode-encode_example =
    decode-encode (0 ∷ 0 ∷ 1 ∷ 255 ∷ [])
      (omega arith, (omega arith, (omega arith, (omega arith, tt))))

is_valid-to_address_example :
    (text : Bytes) × (payload : Bytes) × (to_address (codes "key") 60 ≡ some text)
    × (hash_bytes (codes "key") ≡ some payload)
    × (length payload ≡ 20)
    × (is_valid text ≡ true)
    × (decode_check text (0, []) ≡ (true, (60, payload)))
is_valid-to_address_example =
    is_valid-to_address (codes "key") 60 (0, []) (omega arith) (omega arith)

same_bytes-IsByte : (n b : ℕ) → b < 256 → All IsByte (replicate n b)
same_bytes-IsByte zero b h = tt
same_bytes-IsByte (suc n) b h = (h, same_bytes-IsByte n b h)

instance small_curve : Curve
small_curve = record {
  generate = λ seed. 1 ∷ [];
  public_point = λ key. replicate 33 2;
  sign = λ key hash. some (replicate 32 1, (replicate 32 1, []));
  check = λ key hash numbers. true;
  public_point-IsByte = λ key. same_bytes-IsByte 33 2 (omega arith);
  length-sign = λ key hash r s der e.
      let er : replicate 32 1 ≡ r = cc e in
      let es : replicate 32 1 ≡ s = cc e in
      rw (← er) (
        rw (← es)
          (refl, refl, same_bytes-IsByte 32 1 (omega arith), same_bytes-IsByte 32 1 (omega arith)));
  check-sign = λ key hash r s der e. refl;
}

abbrev private_key : Bytes
private_key = bytes_to_hex (10 ∷ 11 ∷ [])

abbrev tx_hash : Bytes
tx_hash = bytes_to_hex (0 ∷ 255 ∷ [])

-- The only signature of that curve.
abbrev sig : Signature
sig = record { r = bytes_to_hex (replicate 32 1); s = bytes_to_hex (replicate 32 1); der = [] }

sign-sig : Ecdsa.sign private_key tx_hash ≡ some sig
unfolding Ecdsa.sign small_curve bytes_to_hex
sign-sig =
    let key = hex_to_bytes-bytes_to_hex (10 ∷ 11 ∷ []) (omega arith, (omega arith, tt)) in
    let hash = hex_to_bytes-bytes_to_hex (0 ∷ 255 ∷ []) (omega arith, (omega arith, tt)) in
    rw (Ecdsa.sign, key, hash)

sig-nonempty : sig.r ≢ []
unfolding bytes_to_hex byte_hex
sig-nonempty e = absurd (cc e)

key_wallet : (wallet : Wallet) × (wallet_of private_key ≡ some wallet)
key_wallet = wallet_of-total (10 ∷ 11 ∷ []) (omega arith, (omega arith, tt))

wallet_signs : sign_transaction tx_hash key_wallet.0 ≡ some sig
unfolding sign_transaction
wallet_signs =
    let own = (wallet_of-parts private_key key_wallet.0 key_wallet.1).0 in rw own sign-sig

verify_signature-sign_transaction_example :
    (is_valid key_wallet.0.address ≡ true) × (verify_signature tx_hash sig key_wallet.0 ≡ some true)
verify_signature-sign_transaction_example =
    verify_signature-sign_transaction private_key tx_hash key_wallet.0 sig key_wallet.1 wallet_signs
      sig-nonempty

abbrev public_key : Bytes
public_key = bytes_to_hex (replicate 33 2)

read_key : hex_to_bytes public_key ≡ some (replicate 33 2)
read_key = hex_to_bytes-bytes_to_hex (replicate 33 2) (same_bytes-IsByte 33 2 (omega arith))

derived : derive_public_key private_key ≡ some public_key
unfolding derive_public_key bytes_to_hex small_curve byte_hex
derived =
    let key = hex_to_bytes-bytes_to_hex (10 ∷ 11 ∷ []) (omega arith, (omega arith, tt)) in
    rw (derive_public_key, key)

key_hash : (text : Bytes) × (Hash160.hash (replicate 33 2) ≡ some text)
key_hash = hash_total (replicate 33 2)

verify_p2pkh-sign_example :
    verify_p2pkh (build_p2pkh key_hash.0) (build_unlock_p2pkh (sig.r ++ sig.s) public_key) tx_hash
    ≡ some true
verify_p2pkh-sign_example =
    verify_p2pkh-sign private_key public_key (replicate 33 2) key_hash.0 tx_hash sig derived
      read_key key_hash.1 sign-sig sig-nonempty
