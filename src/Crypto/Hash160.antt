-- ===== src/Crypto/Hash160.antt =====
-- src/crypto/hash160.cpp: the hash of a public key, and its address.
pub mod Address
use rex_coin.Base.{ℕ, Option, some, Bytes, ◌>>=◌}
use rex_coin.Hasher.{Hasher, sha256}
use rex_coin.Crypto.Hex.{bytes_to_hex, hex_to_bytes}
use rex_coin.Crypto.Ripemd160
use rex_coin.Crypto.Base58.{encode_check}

-- `Hash160::hashBytes`
pub hash_bytes : ⦃h : Hasher⦄ → Bytes → Option Bytes
hash_bytes input = do sha_bytes ← hex_to_bytes (sha256 input); some (Ripemd160.hash_bytes sha_bytes)

-- `Hash160::hash`
unfoldable pub hash : ⦃h : Hasher⦄ → Bytes → Option Bytes
hash input = do
  sha_bytes ← hex_to_bytes (sha256 input)
  some (bytes_to_hex (Ripemd160.hash_bytes sha_bytes))

-- `Hash160::toAddress`
pub to_address : ⦃h : Hasher⦄ → Bytes → ℕ → Option Bytes
to_address pub_key_bytes version = do h160 ← hash_bytes pub_key_bytes; encode_check version h160
