-- ===== src/Core/Blockchain/Reward.antt =====
-- src/core/blockchain.cpp, `Blockchain::getBlockReward`: the schedule and the supply.
use native.Mathlib.Nat.{pow-suc}
use rex_coin.Base.{
  ℕ, zero, suc, ◌+◌, ◌-◌, ◌*◌, ◌/◌, ◌^◌, ◌≤◌, ◌<◌, ◌≡◌, arith, ltb, leb, Bool-cases, inl, inr,
  if◌then◌else◌, u32, min,
}
use rex_coin.Core.Blockchain.{reward_at, initial_reward, max_supply}

-- The coins, in whole RXC, that the rewards of the blocks below a height bring.
pub supply : ℕ → ℕ
supply zero = 0
supply (suc n) = supply n + reward_at n

sixty_four-le-pow : (k : ℕ) → 64 ≤ 2 ^ (k + 6)
sixty_four-le-pow zero = omega arith
sixty_four-le-pow (suc k) =
    let e : suc k + 6 ≡ suc (k + 6) = omega arith in
    rw e (omega (arith, pow-suc 2 (k + 6), sixty_four-le-pow k))

-- From the sixth halving on the reward is nothing.
spent_out : (p : ℕ) → 6 ≤ p → initial_reward / 2 ^ p ≡ 0
spent_out p h =
    let e : p ≡ (p - 6) + 6 = omega arith in rw e (grind (arith, sixty_four-le-pow (p - 6)))

-- The reward within the halving period `p`, as long as the count of periods fits 32 bits.
reward_at-period : (n p : ℕ) → n / 210000 ≡ p → p < 64 → reward_at n ≡ initial_reward / 2 ^ p
unfolding reward_at
reward_at-period n p e small =
    let fits : u32 (n / 210000) ≡ p = omega arith in rw (fits, reward_at) (ground arith)

reward_at-late : (n : ℕ) → n < 210000 * 2 ^ 32 → 1260000 ≤ n → reward_at n ≡ 0
unfolding reward_at
reward_at-late n h late = ground (arith, spent_out (n / 210000))

-- The rewards at the six periods that pay.
module _ (n : ℕ) where
  reward_at_lem :
      n < 210000 * 2 ^ 32
      → reward_at n ≡ (
          if ltb n 210000
          then 50
          else if ltb n 420000
          then 25
          else if ltb n 630000
          then 12
          else if ltb n 840000
          then 6
          else if ltb n 1050000
          then 3
          else if ltb n 1260000
          then 1
          else 0)
  reward_at_lem h = ground (
    arith,
    reward_at-period n 0,
    reward_at-period n 1,
    reward_at-period n 2,
    reward_at-period n 3,
    reward_at-period n 4,
    reward_at-period n 5,
    reward_at-late n h,
  )

-- The blocks of the period that begins at `from` among the first `n`.
abbrev pub in_period : ℕ → ℕ → ℕ
in_period from n = min (n - from) 210000

-- The supply is the sum over the periods, each halving the reward of the one before it.
pub supply_schedule :
    (n : ℕ)
    → n ≤ 210000 * 2 ^ 32
    → supply n
      ≡ 50 * in_period 0 n
        + 25 * in_period 210000 n
        + 12 * in_period 420000 n
        + 6 * in_period 630000 n
        + 3 * in_period 840000 n
        + in_period 1050000 n
unfolding supply
supply_schedule zero h = omega arith
supply_schedule (suc n) h =
    ground (arith, supply_schedule n (omega arith), reward_at_lem n (omega arith))

-- At any height whose count of halvings fits 32 bits, the rewards of the blocks below it are within
-- the supply that the code names, and are 50, 25, 12, 6, 3 and 1 RXC in the first six periods of
-- 210,000 blocks, whole numbers, and then nothing: from height 1,260,000 on they are together exactly
-- 20,370,000 RXC, which is 630,000 less than that supply, and before it they are less.
pub supply-le-max_supply :
    (n : ℕ)
    → n ≤ 210000 * 2 ^ 32
    → (supply n ≤ max_supply)
      × (supply n
          ≡ 50 * in_period 0 n
            + 25 * in_period 210000 n
            + 12 * in_period 420000 n
            + 6 * in_period 630000 n
            + 3 * in_period 840000 n
            + in_period 1050000 n)
      × (if leb 1260000 n
          then (supply n ≡ 20370000) × (supply n + 630000 ≡ max_supply)
          else (supply n < 20370000))
supply-le-max_supply n h =
    let e = supply_schedule n h in
    (
      omega arith,
      e,
      elim (Bool-cases (leb 1260000 n)) [
        | inl late ↦ let passed : 1260000 ≤ n = ground arith in rw late (omega arith, omega arith)
        | inr early ↦ let below : n < 1260000 = ground arith in rw early (omega arith)
      ],
    )
