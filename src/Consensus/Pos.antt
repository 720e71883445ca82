-- ===== src/Consensus/Pos.antt =====
-- src/consensus/pos.h and src/consensus/pos.cpp. The order of the list is the one in which the
-- program happens to iterate over its map.
pub mod Selection
pub mod Rewards
use rex_coin.Base.{
  ℕ, zero, suc, ◌+◌, ◌*◌, ◌/◌, ◌%◌, Bool, true, false, ◌&&◌, ◌||◌, Option, none, some, List, [],
  ◌∷◌, ltb, ◌==◌, take, if◌then◌else◌, Bytes, u64,
}
use rex_coin.Dict.{Dict, lookup, insert}
use rex_coin.Hasher.{Hasher, sha256}

-- `struct Validator`
pub record Validator : Type 0 where
  pub address : Bytes
  pub stake : ℕ
  pub rewards : ℕ
  pub active : Bool

-- `class ProofOfStake`
abbrev pub ProofOfStake : Type 0
ProofOfStake = Dict Validator

abbrev pub min_stake : ℕ
min_stake = 1000 * 100000000

-- `ProofOfStake::addValidator`; `none` for the exception.
pub add_validator : Bytes → ℕ → ProofOfStake → Option ProofOfStake
add_validator address stake validators =
    if ltb stake min_stake
    then none
    else some (
        insert address (record { address = address; stake = stake; rewards = 0; active = true })
          validators)

-- `ProofOfStake::removeValidator`
pub remove_validator : Bytes → ProofOfStake → ProofOfStake
remove_validator address validators = elim (lookup address validators) [
  | none ↦ validators
  | some v ↦ insert address (record v { active = false }) validators
]

unfoldable pub staked_from : ℕ → ProofOfStake → ℕ
staked_from total [] = total
staked_from total ((address, v) ∷ validators) =
    staked_from (if v.active then u64 (total + v.stake) else total) validators

-- `ProofOfStake::totalStaked`
unfoldable pub total_staked : ProofOfStake → ℕ
unfolding staked_from
total_staked validators = staked_from 0 validators

-- `pick = (pick << 8) | (uint8_t) h[i]` over some characters
pub pick_from : ℕ → Bytes → ℕ
pick_from pick [] = pick
pick_from pick (c ∷ h) = pick_from (u64 (pick * 256) + c % 256) h

-- The loop of `selectValidator`; `none` if it runs to the end.
pub select_loop : ℕ → ℕ → ProofOfStake → Option Bytes
select_loop pick cumulative [] = none
select_loop pick cumulative ((address, v) ∷ validators) =
    let skipped = select_loop pick cumulative validators in
    let counted = select_loop pick (u64 (cumulative + v.stake)) validators in
    if v.active
    then if ltb pick (u64 (cumulative + v.stake)) then some address else counted
    else skipped

-- `ProofOfStake::selectValidator`
pub select_validator : ⦃h : Hasher⦄ → Bytes → ProofOfStake → Bytes
select_validator seed [] = []
select_validator seed ((first, v) ∷ validators) =
    let total = total_staked ((first, v) ∷ validators) in
    if total == 0
    then []
    else elim (select_loop (pick_from 0 (take 8 (sha256 seed)) % total) 0
        ((first, v) ∷ validators)) [ none ↦ first | some address ↦ address ]

-- `ProofOfStake::validateBlock`
unfoldable pub validate_block : Bytes → Bytes → ProofOfStake → Bool
validate_block validator_address block_hash validators =
    elim (lookup validator_address validators) [ none ↦ false | some v ↦ v.active ]

-- The reward of a validator in `distributeRewards`.
unfoldable pub share : ℕ → ℕ → ℕ → ℕ
share total_reward stake total = u64 (total_reward * stake) / total

unfoldable pub reward_all : ℕ → ℕ → ProofOfStake → ProofOfStake
reward_all total_reward total [] = []
reward_all total_reward total ((address, v) ∷ validators) =
    (
      address,
      if v.active
          then record v { rewards = u64 (v.rewards + share total_reward v.stake total) }
          else v,
    )
    ∷ reward_all total_reward total validators

-- `ProofOfStake::distributeRewards`
unfoldable pub distribute_rewards : ℕ → ProofOfStake → ProofOfStake
distribute_rewards total_reward validators =
    let total = total_staked validators in
    if total == 0 then validators else reward_all total_reward total validators

-- `ProofOfStake::getValidators`
unfoldable pub get_validators : ProofOfStake → List Validator
get_validators [] = []
get_validators ((address, v) ∷ validators) = v ∷ get_validators validators
