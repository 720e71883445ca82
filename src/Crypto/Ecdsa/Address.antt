-- ===== src/Crypto/Ecdsa/Address.antt =====
-- src/crypto/ecdsa.cpp: `publicKeyToAddress`.
use rex_coin.Base.{◌≡◌, inl, inr, true, some, [], arith, Bytes, Option-cases}
use rex_coin.Hasher.{Hasher}
use rex_coin.Crypto.Hex.{hex_to_bytes}
use rex_coin.Crypto.Base58.{is_valid}
use rex_coin.Crypto.Hash160.Address.{is_valid-to_address}
use rex_coin.Crypto.Ecdsa.{public_key_to_address}

-- An address of a public key is one that `isValid` accepts.
pub public_key_to_address-is_valid :
    ⦃h : Hasher⦄ (pub_hex address : Bytes)
    → public_key_to_address pub_hex ≡ some address
    → is_valid address ≡ true
unfolding public_key_to_address
public_key_to_address-is_valid pub_hex address e = elim (Option-cases (hex_to_bytes pub_hex)) [
  | inl none_made ↦ absurd (cc (rw (public_key_to_address, none_made) at e))
  | inr (pb, made) ↦
      let (text, payload, made', _, _, valid, _) =
        is_valid-to_address pb 0x3C (0, []) (omega arith) (omega arith) in
      let same : text ≡ address = cc (made', rw (public_key_to_address, made) at e) in
      rw (← same) valid
]
