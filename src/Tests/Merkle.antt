-- ===== src/Tests/Merkle.antt =====
-- src/core/merkle.cpp: the theorems on a tree of three transactions, over SHA-256.
use rex_coin.Base.Text.{eqb}
use rex_coin.Base.{◌≡◌, ◌≢◌, ◌↔◌, refl, true, some, [], ◌∷◌, codes, Bytes, List, arith, eqb_iff}
use rex_coin.Crypto.Sha256.Digest.{sha256_hasher}
use rex_coin.Core.Merkle.{hash_pair, build_root, generate_proof, verify_proof, index_of}
use rex_coin.Core.Merkle.Proof.{
  climb_at, climb_at-generate_proof, verify_proof-generate_proof_second,
}

abbrev three : List Bytes
three = codes "t0" ∷ codes "t1" ∷ codes "t2" ∷ []

third : index_of (codes "t2") three ≡ some 2
unfolding index_of eqb
third = refl

climb_at-generate_proof_example :
    climb_at 2 (codes "t2") (generate_proof three (codes "t2")) ≡ build_root three
climb_at-generate_proof_example = climb_at-generate_proof three (codes "t2") 2 third

apart : codes "t0" ≢ codes "t1"
apart e = ground (arith, eqb_iff (codes "t0") (codes "t1"))

verify_proof-generate_proof_second_example :
    (verify_proof
        (build_root (codes "t0" ∷ codes "t1" ∷ []))
        (codes "t1")
        (generate_proof (codes "t0" ∷ codes "t1" ∷ []) (codes "t1"))
      ≡ true)
    ↔ (hash_pair (codes "t1") (codes "t0") ≡ hash_pair (codes "t0") (codes "t1"))
verify_proof-generate_proof_second_example =
    verify_proof-generate_proof_second (codes "t0") (codes "t1") apart
