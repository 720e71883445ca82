-- ===== src/Consensus/Pos/Rewards.antt =====
-- src/consensus/pos.cpp: what `distributeRewards` pays.
use native.Mathlib.Nat.{le_of_mul-le-mul_left, mod-lt}
use native.Mathlib.Omega.{div_any}
use rex_coin.Base.{
  ℕ, ◌+◌, ◌*◌, ◌/◌, ◌%◌, ◌^◌, ◌≡◌, ◌∙◌, ◌≤◌, ◌<◌, inl, inr, false, [], ◌∷◌, arith, ◌==◌,
  if◌then◌else◌, sum_by, Bytes, Bool-cases,
}
use rex_coin.Consensus.Pos.Selection.{active_stake, total_staked-sum_by}
use rex_coin.Consensus.Pos.{
  Validator, ProofOfStake, total_staked, share, reward_all, distribute_rewards,
}

-- One for a validator that counts.
abbrev pub active_count : Bytes × Validator → ℕ
active_count e = if e.1.active then 1 else 0

-- What a validator has been paid.
abbrev pub held_rewards : Bytes × Validator → ℕ
held_rewards e = e.1.rewards

-- What a validator is to be paid.
abbrev due : ℕ → ℕ → Bytes × Validator → ℕ
due reward total e = if e.1.active then share reward e.1.stake total else 0

-- How often the product of the reward and a stake that counts wraps around.
abbrev pub wraps : ℕ → Bytes × Validator → ℕ
wraps reward e = if e.1.active then reward * e.1.stake / 2 ^ 64 else 0

module _ (reward total : ℕ) (some_stake : 0 < total) where
  -- A share, between the product that wraps around and its rounding.
  share-bounds :
      (stake : ℕ)
      → (total * share reward stake total + 2 ^ 64 * (reward * stake / 2 ^ 64) ≤ reward * stake)
        × (reward * stake
            ≤ total * share reward stake total + total + 2 ^ 64 * (reward * stake / 2 ^ 64))
        × (total * share reward stake total ≤ 2 ^ 64)
  unfolding share
  share-bounds stake =
      let kept = reward * stake % 2 ^ 64 in
      let d = div_any kept total in
      let m = mod-lt kept some_stake in (omega arith, omega arith, omega arith)

  -- Shares rounded down pay no more than the reward.
  due-le :
      (vs : ProofOfStake) → total * sum_by (due reward total) vs ≤ reward * sum_by active_stake vs
  due-le [] = omega arith
  due-le ((address, v) ∷ vs) = elim (Bool-cases v.active) [
    | inl on ↦ let b = share-bounds v.stake in let ih = due-le vs in rw on (omega (arith, b.0))
    | inr off ↦ let ih = due-le vs in rw off (omega arith)
  ]

  -- They pay less by at most one unit for each share, and by what the products lose.
  le-due :
      (vs : ProofOfStake)
      → reward * sum_by active_stake vs
        ≤ total * (sum_by (due reward total) vs + sum_by active_count vs)
          + 2 ^ 64 * sum_by (wraps reward) vs
  le-due [] = omega arith
  le-due ((address, v) ∷ vs) = elim (Bool-cases v.active) [
    | inl on ↦ let b = share-bounds v.stake in let ih = le-due vs in rw on (omega (arith, b.1))
    | inr off ↦ let ih = le-due vs in rw off (omega arith)
  ]

  -- A product that wraps around is less than 2^64.
  due-cap :
      (vs : ProofOfStake) → total * sum_by (due reward total) vs ≤ 2 ^ 64 * sum_by active_count vs
  due-cap [] = omega arith
  due-cap ((address, v) ∷ vs) = elim (Bool-cases v.active) [
    | inl on ↦ let b = share-bounds v.stake in let ih = due-cap vs in rw on (omega (arith, b.2))
    | inr off ↦ let ih = due-cap vs in rw off (omega arith)
  ]

  -- No sum wraps around where the rewards paid fit into 64 bits.
  reward_all-due :
      (vs : ProofOfStake)
      → sum_by held_rewards vs + sum_by (due reward total) vs < 2 ^ 64
      → sum_by held_rewards (reward_all reward total vs)
        ≡ sum_by held_rewards vs + sum_by (due reward total) vs
  unfolding reward_all
  reward_all-due [] fits = omega arith
  reward_all-due ((address, v) ∷ vs) fits = elim (Bool-cases v.active) [
    | inl on ↦
        let fits' = rw on at fits in let ih = reward_all-due vs (omega arith) in rw on (omega arith)
    | inr off ↦
        let fits' = rw off at fits in
        let ih = reward_all-due vs (omega arith) in rw off (omega arith)
  ]

-- Where validators have something at stake, the active stakes fit into 64 bits, and so do the rewards
-- held and the reward together, whether or not the product of the reward and a stake wraps around:
-- the validators are paid no more than the reward. They are paid less by at most one unit for each
-- active validator, and by 2^64 / stakes for each time that a product wraps around, so by at most the
-- roundings where none does. And they are paid at most 2^64 / stakes for each active validator,
-- however large the reward is.
pub distribute_rewards_bounds :
    (reward : ℕ) (vs : ProofOfStake)
    → 0 < sum_by active_stake vs
    → sum_by active_stake vs < 2 ^ 64
    → sum_by held_rewards vs + reward < 2 ^ 64
    → let paid = sum_by held_rewards (distribute_rewards reward vs) in
      let total = sum_by active_stake vs in
      let held = sum_by held_rewards vs in
      (paid ≤ held + reward)
      × (total * (held + reward)
          ≤ total * (paid + sum_by active_count vs) + 2 ^ 64 * sum_by (wraps reward) vs)
      × (total * paid ≤ total * held + 2 ^ 64 * sum_by active_count vs)
unfolding distribute_rewards
distribute_rewards_bounds reward vs some_stake small_stake fits =
    let total = sum_by active_stake vs in
    let e : total_staked vs ≡ total = total_staked-sum_by vs ∙ omega arith in
    let some_total : (total == 0) ≡ false = ground arith in
    let paid = sum_by (due reward total) vs in
    let over = due-le reward total some_stake vs in
    let under = le-due reward total some_stake vs in
    let cap = due-cap reward total some_stake vs in
    let upper : paid ≤ reward = le_of_mul-le-mul_left {k = total} (omega arith) some_stake in
    let sum = reward_all-due reward total some_stake vs (omega arith) in
    rw (distribute_rewards, e, some_total, sum) (omega arith, omega arith, omega arith)
