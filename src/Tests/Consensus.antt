-- ===== src/Tests/Consensus.antt =====
-- src/consensus: the theorems at concrete inputs.
use rex_coin.Base.Text.{eqb}
use rex_coin.Base.{
  ℕ, ◌≡◌, ◌≤◌, ◌+◌, ◌*◌, ◌^◌, refl, Bool, true, false, [], ◌∷◌, codes, arith, sum_by,
}
use rex_coin.Dict.{lookup}
use rex_coin.Crypto.Sha256.Digest.{sha256_hasher}
use rex_coin.Consensus.Pos.{
  Validator, ProofOfStake, distribute_rewards, select_validator, validate_block, get_validators,
}
use rex_coin.Consensus.Pos.Selection.{active_stake, has_active, select_validator-has_active}
use rex_coin.Consensus.Pos.Rewards.{held_rewards, wraps, distribute_rewards_bounds}
use rex_coin.Consensus.Hybrid.{
  HybridConsensus, count_active, finalize_block, is_confirmed, finalize_block_repeated,
}

abbrev staking : ℕ → Bool → Validator
staking stake active = record { address = codes "v"; stake = stake; rewards = 0; active = active }

abbrev three_validators : ProofOfStake
three_validators =
    (codes "v1", staking 100000000000 true)
    ∷ (codes "v2", staking 300000000000 false)
    ∷ (codes "v3", staking 200000000000 true)
    ∷ []

abbrev young_network : HybridConsensus
young_network = record { pos = three_validators; vote_count = []; finalized = [] }

-- A reward of 50 RXC, with stakes of 1,000 and 2,000 RXC: the products wrap around.
distribute_rewards_bounds_example :
    (sum_by held_rewards (distribute_rewards 5000000000 three_validators) ≤ 0 + 5000000000)
    × (sum_by active_stake three_validators * (0 + 5000000000)
        ≤ sum_by active_stake three_validators
            * (sum_by held_rewards (distribute_rewards 5000000000 three_validators) + 2)
          + 2 ^ 64 * sum_by (wraps 5000000000) three_validators)
    × (sum_by active_stake three_validators
          * sum_by held_rewards (distribute_rewards 5000000000 three_validators)
        ≤ sum_by active_stake three_validators * 0 + 2 ^ 64 * 2)
distribute_rewards_bounds_example =
    distribute_rewards_bounds 5000000000 three_validators (omega arith) (omega arith) (omega arith)

select_validator-has_active_example :
    has_active (select_validator (codes "seed") three_validators) three_validators ≡ true
select_validator-has_active_example =
    select_validator-has_active (codes "seed") three_validators (omega arith) (omega arith)

votes : validate_block (codes "v3") (codes "ff") young_network.pos ≡ true
unfolding validate_block lookup eqb
votes = refl

finalize_block_repeated_example :
    is_confirmed
      (codes "ff")
      (finalize_block (codes "ff") (codes "v3" ∷ codes "v3" ∷ codes "v3" ∷ []) young_network).0
    ≡ true
unfolding get_validators count_active
finalize_block_repeated_example =
    finalize_block_repeated (codes "ff") (codes "v3") young_network votes refl
