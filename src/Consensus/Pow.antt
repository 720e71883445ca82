-- ===== src/Consensus/Pow.antt =====
-- src/consensus/pow.h and src/consensus/pow.cpp. Each round of the mining loop is one unit of fuel:
-- `none` means that the fuel ran out. `estimateHashRate`, a product of doubles, is left out.
use rex_coin.Base.{
  ℕ, zero, suc, ◌+◌, ◌≡◌, Bool, true, false, ◌&&◌, Option, none, some, ◌++◌, arith, ltb, length,
  length-take, take, replicate, if◌then◌else◌, Bytes, eqb, eqb_iff, eqb_refl, u64, Bool-cases, inl,
  inr, ap, length-replicate,
}
use rex_coin.Base.Decimal.{decimal}
use rex_coin.Hasher.{Hasher, double_sha256}

-- `SHA256::hash(SHA256::hash(blockData + std::to_string(nonce)))`
unfoldable pub attempt : ⦃h : Hasher⦄ → Bytes → ℕ → Bytes
attempt block_data nonce = double_sha256 (block_data ++ decimal nonce)

-- `outHash.substr(0, difficulty) == target`
abbrev has_zeros : Bytes → ℕ → Bool
has_zeros hash difficulty = eqb (take difficulty hash) (replicate difficulty b'0')

-- The loop of `ProofOfWork::mine`, from a nonce on: the nonce and the hash.
unfoldable pub mine_from : ⦃h : Hasher⦄ → ℕ → Bytes → ℕ → ℕ → Option (ℕ × Bytes)
mine_from zero block_data difficulty nonce = none
mine_from (suc fuel) block_data difficulty nonce =
    elim (has_zeros (attempt block_data nonce) difficulty) [
      | true ↦ some (nonce, attempt block_data nonce)
      | false ↦ mine_from fuel block_data difficulty (u64 (nonce + 1))
    ]

-- `ProofOfWork::mine`
unfoldable pub mine : ⦃h : Hasher⦄ → ℕ → Bytes → ℕ → Option (ℕ × Bytes)
mine fuel block_data difficulty = mine_from fuel block_data difficulty 0

-- `ProofOfWork::meetsTarget`
pub meets_target : Bytes → ℕ → Bool
meets_target hash difficulty =
    if ltb (length hash) difficulty then false else has_zeros hash difficulty

-- `ProofOfWork::verify`
pub verify : ⦃h : Hasher⦄ → Bytes → ℕ → ℕ → Bytes → Bool
verify block_data difficulty nonce hash =
    eqb (attempt block_data nonce) hash && meets_target hash difficulty

-- The length test of `meetsTarget` changes nothing: a shorter text is not the target.
meets_target_lem :
    (hash : Bytes) (difficulty : ℕ) → meets_target hash difficulty ≡ has_zeros hash difficulty
unfolding meets_target
meets_target_lem hash difficulty = elim (Bool-cases (has_zeros hash difficulty)) [
  | inl hit ↦
      let e = (eqb_iff (take difficulty hash) (replicate difficulty b'0')).0 hit in
      ground (
        arith,
        ap length e,
        length-take difficulty hash,
        length-replicate {A = ℕ} difficulty b'0',
        hit,
      )
  | inr miss ↦ ground (arith, miss)
]

verify-mine_from :
    ⦃h : Hasher⦄
    → (fuel : ℕ) (block_data : Bytes) (difficulty start nonce : ℕ) (hash : Bytes)
    → mine_from fuel block_data difficulty start ≡ some (nonce, hash)
    → verify block_data difficulty nonce hash ≡ true
unfolding mine_from verify
verify-mine_from zero block_data difficulty start nonce hash e = cc
verify-mine_from (suc fuel) block_data difficulty start nonce hash e =
    elim (Bool-cases (has_zeros (attempt block_data start) difficulty)) [
      | inl hit ↦
          let found = rw (hit, mine_from) at e in
          let same : start ≡ nonce = cc in
          let hashed : attempt block_data start ≡ hash = cc in
          rw (← same, ← hashed, meets_target_lem (attempt block_data start) difficulty, hit)
            (rw (eqb_refl (attempt block_data start)))
      | inr miss ↦
          verify-mine_from fuel block_data difficulty (u64 (start + 1)) nonce hash
            (rw (miss, mine_from) at e)
    ]

-- Whatever `mine` returns, `verify` accepts it.
verify-mine :
    ⦃h : Hasher⦄
    → (fuel : ℕ) (block_data : Bytes) (difficulty nonce : ℕ) (hash : Bytes)
    → mine fuel block_data difficulty ≡ some (nonce, hash)
    → verify block_data difficulty nonce hash ≡ true
unfolding mine
verify-mine fuel block_data difficulty nonce hash e =
    verify-mine_from fuel block_data difficulty 0 nonce hash e
