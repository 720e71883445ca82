-- ===== src/Privacy/ZkProof.antt =====
-- src/privacy/zkproof.h and src/privacy/zkproof.cpp: hashes in the place of proofs. The random text of
-- `randomBytes` is an argument.
use rex_coin.Base.{ℕ, ◌≡◌, Bool, true, ◌++◌, Bytes, codes, eqb, eqb_refl}
use rex_coin.Base.Decimal.{decimal}
use rex_coin.Hasher.{Hasher, sha256, double_sha256}

-- `struct ZKProof`
pub record ZkProof : Type 0 where
  pub pi_a : Bytes
  pub pi_b : Bytes
  pub pi_c : Bytes
  pub public_input : Bytes

-- `struct ShieldedTx`
pub record ShieldedTx : Type 0 where
  pub nullifier : Bytes
  pub commitment : Bytes
  pub proof : ZkProof
  pub fee : ℕ

module _ ⦃h : Hasher⦄ where
  -- `ZKProofSystem::generateProof`
  unfoldable pub generate_proof : Bytes → Bytes → ZkProof
  generate_proof secret public_input =
      let pi_a = sha256 (secret ++ public_input ++ codes "A") in
      let pi_b = sha256 (secret ++ public_input ++ codes "B") in
      record { pi_a = pi_a; pi_b = pi_b; pi_c = sha256 (pi_a ++ pi_b); public_input = public_input }

  -- `ZKProofSystem::verify`
  unfoldable pub verify : ZkProof → Bool
  verify proof = eqb (sha256 (proof.pi_a ++ proof.pi_b)) proof.pi_c

  -- `ZKProofSystem::generateNullifier`
  pub generate_nullifier : Bytes → Bytes → Bytes
  generate_nullifier secret tx_hash = double_sha256 (secret ++ tx_hash)

  -- `ZKProofSystem::generateCommitment`
  pub generate_commitment : ℕ → Bytes → Bytes
  generate_commitment amount randomness = sha256 (decimal amount ++ randomness)

  -- `ZKProofSystem::createShieldedTx`
  unfoldable pub create_shielded_tx : Bytes → Bytes → Bytes → ℕ → ℕ → ShieldedTx
  create_shielded_tx rand sender_priv_key recipient_addr amount fee =
      let commitment = generate_commitment amount rand in
      record {
        nullifier = generate_nullifier sender_priv_key commitment;
        commitment = commitment;
        proof = generate_proof sender_priv_key (commitment ++ recipient_addr);
        fee = fee;
      }

  -- `ZKProofSystem::verifyShieldedTx`
  unfoldable pub verify_shielded_tx : ShieldedTx → Bool
  verify_shielded_tx tx = verify tx.proof

  -- Every transaction that is created is accepted.
  pub verify_shielded_tx-create_shielded_tx :
      (rand sender_priv_key recipient_addr : Bytes) (amount fee : ℕ)
      → verify_shielded_tx (create_shielded_tx rand sender_priv_key recipient_addr amount fee)
        ≡ true
  unfolding verify_shielded_tx verify create_shielded_tx generate_proof
  verify_shielded_tx-create_shielded_tx rand key addr amount fee = eqb_refl _
