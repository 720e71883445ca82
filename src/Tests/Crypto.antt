-- ===== src/Tests/Crypto.antt =====
-- Known answers of src/crypto.
use rex_coin.Base.{◌≡◌, refl, codes, []}
use rex_coin.Crypto.Hex.{hex_digit, byte_hex, bytes_to_hex}
use rex_coin.Crypto.Sha256.{hash}
use rex_coin.Crypto.Sha3.{hash256}
use rex_coin.Crypto.Ripemd160

sha256_abc :
    hash (codes "abc") ≡ codes "ba7816bf8f01cfea414140de5dae2223b00361a396177a9cb410ff61f20015ad"
unfolding hash hex_digit
sha256_abc = refl

sha3_abc :
    hash256 (codes "abc") ≡ codes "3a985da74fe225b2045c172d6bd390bd855f086e3e9d525b46bfe24511431532"
unfolding hash256 bytes_to_hex byte_hex hex_digit
sha3_abc = refl

ripemd160_abc : Ripemd160.hash (codes "abc") ≡ codes "8eb208f7e05d987a9b044a8e98c6b087f15a0bfc"
unfolding Ripemd160.hash bytes_to_hex byte_hex hex_digit
ripemd160_abc = refl

ripemd160_empty : Ripemd160.hash [] ≡ codes "9c1185a5c5e9fc54612808977ee8f548b2258d31"
unfolding Ripemd160.hash bytes_to_hex byte_hex hex_digit
ripemd160_empty = refl
