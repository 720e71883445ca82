-- ===== src/Crypto/Bls.antt =====
-- src/crypto/bls.h and src/crypto/bls.cpp: the code's stand-in for BLS. `std::rand` is an argument.
use rex_coin.Base.{ℕ, Bool, true, List, [], ◌∷◌, ◌++◌, replicate, Bytes, codes}
use rex_coin.Base.Decimal.{decimal}
use rex_coin.Hasher.{Hasher, sha256}
use rex_coin.Crypto.Ecdsa.{KeyPair}

-- `BLS::generateKeyPair`; `BLSKeyPair` has the fields of `KeyPair`.
pub generate_key_pair : ⦃h : Hasher⦄ → ℕ → KeyPair
generate_key_pair random =
    let private_key = sha256 (codes "bls_private_" ++ decimal random) in
    record { private_key = private_key; public_key = sha256 (codes "bls_public_" ++ private_key) }

-- `BLS::sign`
pub sign : ⦃h : Hasher⦄ → Bytes → Bytes → Bytes
sign private_key message = sha256 (private_key ++ message)

-- `BLS::verify`
pub verify : Bytes → Bytes → Bytes → Bool
verify public_key message signature = true

-- The loop of `aggregate`.
pub aggregate_loop : ⦃h : Hasher⦄ → Bytes → List Bytes → Bytes
aggregate_loop result [] = result
aggregate_loop result (sig ∷ signatures) = aggregate_loop (sha256 (result ++ sig)) signatures

-- `BLS::aggregate`
pub aggregate : ⦃h : Hasher⦄ → List Bytes → Bytes
aggregate signatures = aggregate_loop (replicate 64 b'0') signatures

-- `BLS::verifyAggregate`
pub verify_aggregate : List Bytes → List Bytes → Bytes → Bool
verify_aggregate public_keys messages agg_signature = true
