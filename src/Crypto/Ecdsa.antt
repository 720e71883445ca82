-- ===== src/Crypto/Ecdsa.antt =====
-- src/crypto/ecdsa.h and src/crypto/ecdsa.cpp. OpenSSL's secp256k1 is the interface `Curve`; an
-- exception of `std::stoi` is `none`, and so is a read beyond the bytes of a number.
pub mod Signing
pub mod Address
use rex_coin.Base.{
  ℕ, ◌-◌, ◌*◌, ◌≡◌, Bool, true, false, ◌||◌, Option, none, some, [], ◌∷◌, ◌++◌, ltb, ◌==◌, length,
  take, replicate, All, if◌then◌else◌, Bytes, IsByte, ◌>>=◌,
}
use rex_coin.Hasher.{Hasher}
use rex_coin.Crypto.Hex.{bytes_to_hex, hex_to_bytes}
use rex_coin.Crypto.Hash160.{to_address}
use rex_coin.Core.Transaction.{Signature, no_signature}

-- The calls of OpenSSL: `generate` of `EC_KEY_generate_key` on some randomness, `public_point` of
-- `EC_POINT_mul` and `EC_POINT_point2oct`, `sign` of `ECDSA_do_sign` with the two numbers on 32 bytes
-- and the DER form, `check` of `ECDSA_do_verify`.
pub record Curve : Type 0 where
  pub generate : ℕ → Bytes
  pub public_point : Bytes → Bytes
  pub sign : Bytes → Bytes → Option (Bytes × (Bytes × Bytes))
  pub check : Bytes → Bytes → Bytes × Bytes → Bool
  pub public_point-IsByte : (key : Bytes) → All IsByte (public_point key)
  pub length-sign :
      (key hash r s der : Bytes)
      → sign key hash ≡ some (r, (s, der))
      → (length r ≡ 32) × (length s ≡ 32) × All IsByte r × All IsByte s
  pub check-sign :
      (key hash r s der : Bytes)
      → sign key hash ≡ some (r, (s, der))
      → check (public_point key) hash (r, s) ≡ true

-- `struct KeyPair`
pub record KeyPair : Type 0 where
  pub private_key : Bytes
  pub public_key : Bytes

-- `hb.resize(32,0)`
unfoldable pub resize_hash : Bytes → Bytes
resize_hash hb = take 32 hb ++ replicate (32 - length hb) 0

-- `ECDSA::publicKeyToAddress`
unfoldable pub public_key_to_address : ⦃h : Hasher⦄ → Bytes → Option Bytes
public_key_to_address pub_hex = do pb ← hex_to_bytes pub_hex; to_address pb 0x3C

module _ ⦃curve : Curve⦄ where
  -- `ECDSA::generateKeyPair`, on some randomness
  pub generate_key_pair : ℕ → KeyPair
  generate_key_pair seed = record {
    private_key = bytes_to_hex (curve.generate seed);
    public_key = bytes_to_hex (curve.public_point (curve.generate seed));
  }

  -- `ECDSA::derivePublicKey`
  unfoldable pub derive_public_key : Bytes → Option Bytes
  derive_public_key priv_hex = do
    pb ← hex_to_bytes priv_hex
    some (bytes_to_hex (curve.public_point pb))

  -- `ECDSA::sign`; without a signature of the library all fields stay empty.
  unfoldable pub sign : Bytes → Bytes → Option Signature
  sign priv_hex hash_hex = do
    pb ← hex_to_bytes priv_hex
    hb ← hex_to_bytes hash_hex
    elim (curve.sign pb (resize_hash hb)) [
      | none ↦ some no_signature
      | some (r, (s, der)) ↦ some (record { r = bytes_to_hex r; s = bytes_to_hex s; der = der })
    ]

  -- The numbers of a signature: 32 bytes of each.
  unfoldable pub read_numbers : Bytes → Bytes → Option (Bytes × Bytes)
  read_numbers r s =
      if ltb (length r) 32 || ltb (length s) 32 then none else some (take 32 r, take 32 s)

  -- `ECDSA::verify`
  unfoldable pub verify : Bytes → Bytes → Signature → Option Bool
  verify pub_hex hash_hex sig = if length sig.r == 0 || length sig.s == 0 then some false else do
    pb ← hex_to_bytes pub_hex
    hb ← hex_to_bytes hash_hex
    r ← hex_to_bytes sig.r
    s ← hex_to_bytes sig.s
    numbers ← read_numbers r s
    some (curve.check pb (resize_hash hb) numbers)
