-- ===== src/Core/Block/Mining.antt =====
-- src/core/block.cpp, `Block::mine` and `Block::isValid`.
use rex_coin.Base.{
  ℕ, zero, suc, ◌<◌, ◌≡◌, ◌≢◌, refl, ap, true, false, none, some, List, inl, inr, arith, length,
  take, replicate, length-take, length-replicate, Bytes, eqb_iff, Bool-cases,
}
use rex_coin.Base.Int.{ℤ}
use rex_coin.Hasher.{Hasher}
use rex_coin.Core.Transaction.{Transaction}
use rex_coin.Core.Block.{Block, header_hash, new_block, meets_target, next_nonce, mine, is_valid}

-- The block after some rounds of the mining loop.
unfoldable pub after_rounds : ⦃h : Hasher⦄ → ℕ → Block → Block
after_rounds zero b = b
after_rounds (suc n) b = after_rounds n (next_nonce b)

-- Two blocks differ at most in the nonce and the hash.
pub record SameContent (b b' : Block) : Type 0 where
  pub index : b'.index ≡ b.index
  pub transactions : b'.transactions ≡ b.transactions
  pub version : b'.header.version ≡ b.header.version
  pub previous_hash : b'.header.previous_hash ≡ b.header.previous_hash
  pub merkle_root : b'.header.merkle_root ≡ b.header.merkle_root
  pub timestamp : b'.header.timestamp ≡ b.header.timestamp
  pub difficulty : b'.header.difficulty ≡ b.header.difficulty

module _ ⦃h : Hasher⦄ where
  -- The stored hash is that of the header.
  abbrev pub IsHashed : Block → Type 0
  IsHashed b = b.hash ≡ header_hash b.header

  module _ (now : ℤ) (index : ℕ) (prev : Bytes) (txs : List Transaction) (difficulty : ℕ) where
    pub new_block-IsHashed : IsHashed (new_block now index prev txs difficulty)
    unfolding new_block
    new_block-IsHashed = refl

    pub new_block_lem :
        let b = new_block now index prev txs difficulty in
        (b.index ≡ index)
        × (b.header.previous_hash ≡ prev)
        × (b.transactions ≡ txs)
        × (b.header.difficulty ≡ difficulty)
    unfolding new_block
    new_block_lem = (refl, refl, refl, refl)

  next_nonce-SameContent : (b b' : Block) → SameContent (next_nonce b) b' → SameContent b b'
  unfolding next_nonce
  next_nonce-SameContent b b' s = record {
    index = s.index;
    transactions = s.transactions;
    version = s.version;
    previous_hash = s.previous_hash;
    merkle_root = s.merkle_root;
    timestamp = s.timestamp;
    difficulty = s.difficulty;
  }

  next_nonce-IsHashed : (b : Block) → IsHashed (next_nonce b)
  unfolding next_nonce
  next_nonce-IsHashed b = refl

  -- What mining gives: a valid block that differs from the given one in nonce and hash only.
  abbrev pub Mines : ℕ → Block → Type 0
  Mines fuel b = (b' : Block) × (mine fuel b ≡ some b') × (is_valid b' ≡ true) × SameContent b b'

  mined_now : (fuel : ℕ) (b : Block) → IsHashed b → meets_target b ≡ true → Mines (suc fuel) b
  unfolding mine is_valid
  mined_now fuel b hashed now = (
    b,
    rw (now, mine),
    rw (now, (eqb_iff b.hash (header_hash b.header)).1 hashed),
    record {
      index = refl;
      transactions = refl;
      version = refl;
      previous_hash = refl;
      merkle_root = refl;
      timestamp = refl;
      difficulty = refl;
    },
  )

  mined_later :
      (fuel : ℕ) (b : Block)
      → meets_target b ≡ false
      → Mines fuel (next_nonce b)
      → Mines (suc fuel) b
  unfolding mine
  mined_later fuel b later (b', e, v, s) =
      (b', rw (later, mine) e, v, next_nonce-SameContent b b' s)

  -- If the hash meets the target after `n` rounds, mining ends within `n + 1` rounds, with a block
  -- that `isValid` accepts and that has the content of the given one.
  pub mine-after_rounds :
      (fuel n : ℕ) (b : Block)
      → n < fuel
      → IsHashed b
      → meets_target (after_rounds n b) ≡ true
      → Mines fuel b
  unfolding after_rounds
  mine-after_rounds zero n b p hashed hit = absurd (omega arith)
  mine-after_rounds (suc fuel) zero b p hashed hit = mined_now fuel b hashed hit
  mine-after_rounds (suc fuel) (suc n) b p hashed hit = elim (Bool-cases (meets_target b)) [
    | inl now ↦ mined_now fuel b hashed now
    | inr later ↦
        mined_later fuel b later
          (mine-after_rounds fuel n (next_nonce b) (omega arith) (next_nonce-IsHashed b) hit)
  ]

  -- What mining returns is valid and has the content of the block that it began with.
  pub mine-returned :
      (fuel : ℕ) (b b' : Block)
      → IsHashed b
      → mine fuel b ≡ some b'
      → (is_valid b' ≡ true) × SameContent b b'
  unfolding mine
  mine-returned zero b b' hashed e = absurd (cc e)
  mine-returned (suc fuel) b b' hashed e = elim (Bool-cases (meets_target b)) [
    | inl now ↦
        let (found, e', v, s) = mined_now fuel b hashed now in
        let same : found ≡ b' = cc in rw (← same) (v, s)
    | inr later ↦
        let (v, s) =
          mine-returned fuel (next_nonce b) b' (next_nonce-IsHashed b) (rw (mine, later) at e) in
        (v, next_nonce-SameContent b b' s)
  ]

  -- A target that is longer than a digest is never met.
  over_target : (b : Block) → IsHashed b → 64 < b.header.difficulty → meets_target b ≡ false
  unfolding meets_target header_hash
  over_target b hashed hard = ground (
    arith,
    eqb_iff (take b.header.difficulty b.hash) (replicate b.header.difficulty b'0'),
    too_short,
  )
    where
      too_short : take b.header.difficulty b.hash ≢ replicate b.header.difficulty b'0'
      too_short e = omega (
        arith,
        ap length e,
        length-take b.header.difficulty b.hash,
        length-replicate {A = ℕ} b.header.difficulty b'0',
        ap length hashed,
        h.length-hash,
      )

  -- With a difficulty above 64 the mining loop never ends, whatever the block.
  pub mine_over_target :
      (fuel : ℕ) (b : Block) → IsHashed b → 64 < b.header.difficulty → mine fuel b ≡ none
  unfolding mine
  mine_over_target zero b hashed hard = refl
  mine_over_target (suc fuel) b hashed hard =
      rw (over_target b hashed hard, mine)
        (mine_over_target fuel (next_nonce b) (next_nonce-IsHashed b) (unfold next_nonce in hard))
