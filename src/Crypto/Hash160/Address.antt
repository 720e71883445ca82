-- ===== src/Crypto/Hash160/Address.antt =====
-- src/crypto/hash160.cpp and src/crypto/base58.cpp: the addresses of public keys.
use rex_coin.Base.{ℕ, ◌<◌, ◌≡◌, refl, true, some, Bytes, IsByte, length, All}
use rex_coin.Hasher.{Hasher, IsHexDigit, sha256}
use rex_coin.Crypto.Hex.RoundTrip.{hex_to_bytes-IsHexDigit, bytes_to_hex-IsHexDigit}
use rex_coin.Crypto.Hex.{bytes_to_hex}
use rex_coin.Crypto.Ripemd160
use rex_coin.Crypto.Ripemd160.Length.{length-hash_bytes}
use rex_coin.Crypto.Base58.{decode_check, is_valid}
use rex_coin.Crypto.Base58.Check.{decode_check-encode_check, is_valid-encode_check}
use rex_coin.Crypto.Hash160.{hash_bytes, hash, to_address}

hash_bytes_total :
    ⦃h : Hasher⦄ (input : Bytes)
    → (sha_bytes : Bytes) × (hash_bytes input ≡ some (Ripemd160.hash_bytes sha_bytes))
unfolding hash_bytes
hash_bytes_total ⦃h⦄ input =
    let (sha_bytes, e, _, _) =
      hex_to_bytes-IsHexDigit 32 (sha256 input) (h.length-hash input) (h.hash-IsHexDigit input) in
    (sha_bytes, rw e refl)

-- Every public key has an address, under each version from 1 to 255: a text that `isValid` accepts,
-- and from which `decodeCheck` reads the version and the 20 bytes of `hashBytes`.
pub is_valid-to_address :
    ⦃h : Hasher⦄ (key : Bytes) (version : ℕ) (before : ℕ × Bytes)
    → 0 < version
    → IsByte version
    → (text : Bytes) × (payload : Bytes) × (to_address key version ≡ some text)
      × (hash_bytes key ≡ some payload)
      × (length payload ≡ 20)
      × (is_valid text ≡ true)
      × (decode_check text before ≡ (true, (version, payload)))
unfolding to_address
is_valid-to_address key version before positive byte =
    let (sha_bytes, e) = hash_bytes_total key in
    let (len, all) = length-hash_bytes sha_bytes in
    let payload = Ripemd160.hash_bytes sha_bytes in
    let (text, made, back) = decode_check-encode_check version payload before positive byte all in
    let valid = is_valid-encode_check version payload text positive byte all made in
    (text, payload, rw (to_address, e, made), e, len, valid, back)

pub hash_total : ⦃h : Hasher⦄ (input : Bytes) → (text : Bytes) × (hash input ≡ some text)
unfolding hash
hash_total ⦃h⦄ input =
    let (sha_bytes, made, _, _) =
      hex_to_bytes-IsHexDigit 32 (sha256 input) (h.length-hash input) (h.hash-IsHexDigit input) in
    (bytes_to_hex (Ripemd160.hash_bytes sha_bytes), rw (hash, made))

-- `Hash160::hash` is a text of hex digits.
pub hash-IsHexDigit :
    ⦃h : Hasher⦄ (input text : Bytes) → hash input ≡ some text → All IsHexDigit text
unfolding hash
hash-IsHexDigit ⦃h⦄ input text e =
    let (sha_bytes, made, _, _) =
      hex_to_bytes-IsHexDigit 32 (sha256 input) (h.length-hash input) (h.hash-IsHexDigit input) in
    let result : Bytes = bytes_to_hex (Ripemd160.hash_bytes sha_bytes) in
    let same : result ≡ text = cc (rw (hash, made) at e) in
    let (_, all) = bytes_to_hex-IsHexDigit (Ripemd160.hash_bytes sha_bytes) in rw (← same) all
