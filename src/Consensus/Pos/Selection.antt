-- ===== src/Consensus/Pos/Selection.antt =====
-- src/consensus/pos.cpp, `ProofOfStake::selectValidator`: whom it selects.
use rex_coin.Base.{
  ℕ, ◌+◌, ◌%◌, ◌≤◌, ◌<◌, ◌^◌, ◌≡◌, ◌∙◌, Bool, true, false, ◌&&◌, ◌||◌, some, [], ◌∷◌, inl, inr,
  arith, ltb, ◌==◌, take, if◌then◌else◌, Bytes, eqb, eqb_refl, u64, sum_by, Bool-cases,
}
use rex_coin.Hasher.{Hasher, sha256}
use rex_coin.Consensus.Pos.{
  Validator, ProofOfStake, staked_from, total_staked, pick_from, select_loop, select_validator,
}

-- What a validator has at stake.
abbrev pub active_stake : Bytes × Validator → ℕ
active_stake (address, v) = if v.active then v.stake else 0

-- An active validator of that address is in the map.
pub has_active : Bytes → ProofOfStake → Bool
has_active address [] = false
has_active address ((a, v) ∷ validators) =
    (eqb a address && v.active) || has_active address validators

staked_from-sum_by :
    (total : ℕ) (validators : ProofOfStake)
    → total < 2 ^ 64
    → staked_from total validators ≡ u64 (total + sum_by active_stake validators)
unfolding staked_from
staked_from-sum_by total [] h = omega arith
staked_from-sum_by total ((a, v) ∷ validators) h = elim (Bool-cases v.active) [
  | inl up ↦
      rw up (staked_from-sum_by (u64 (total + v.stake)) validators (omega arith) ∙ omega arith)
  | inr down ↦ rw down (staked_from-sum_by total validators h ∙ omega arith)
]

pub total_staked-sum_by :
    (validators : ProofOfStake) → total_staked validators ≡ u64 (sum_by active_stake validators)
unfolding total_staked
total_staked-sum_by validators = staked_from-sum_by 0 validators (omega arith) ∙ omega arith

-- The loop ends at an active validator if the pick lies below the stake that is left.
select_loop_found :
    (pick cumulative : ℕ) (validators : ProofOfStake)
    → cumulative ≤ pick
    → pick < cumulative + sum_by active_stake validators
    → cumulative + sum_by active_stake validators < 2 ^ 64
    → (address : Bytes) × (select_loop pick cumulative validators ≡ some address)
      × (has_active address validators ≡ true)
unfolding select_loop has_active
select_loop_found pick cumulative [] low high fits = absurd (omega arith)
select_loop_found pick cumulative ((a, v) ∷ validators) low high fits = elim (Bool-cases v.active) [
  | inr down ↦
      let (address, e, there) =
        select_loop_found pick cumulative validators low (ground arith) (ground arith) in
      (address, rw (down, e), rw down (ground (arith, there)))
  | inl up ↦ elim (Bool-cases (ltb pick (u64 (cumulative + v.stake)))) [
    | inl hit ↦ (a, rw (up, hit), rw (up, eqb_refl a))
    | inr past ↦
        let exact : u64 (cumulative + v.stake) ≡ cumulative + v.stake = ground arith in
        let (address, e, there) =
          select_loop_found pick (cumulative + v.stake) validators (ground arith) (ground arith)
            (ground arith) in
        (address, rw (up, past, exact, e), ground (arith, there))
  ]
]

-- If something is staked and all of it is a 64-bit number, the selected address is that of an active
-- validator, whatever the seed.
pub select_validator-has_active :
    ⦃h : Hasher⦄
    → (seed : Bytes) (validators : ProofOfStake) → 0 < sum_by active_stake validators
    → sum_by active_stake validators < 2 ^ 64
    → has_active (select_validator seed validators) validators ≡ true
unfolding select_validator
select_validator-has_active seed [] some_stake fits = absurd (omega arith)
select_validator-has_active seed ((a, v) ∷ validators) some_stake fits =
    let all = (a, v) ∷ validators in
    let total : total_staked all ≡ sum_by active_stake all =
      total_staked-sum_by all ∙ omega arith in
    let nonzero : (sum_by active_stake all == 0) ≡ false = ground arith in
    let (address, e, there) =
      select_loop_found (pick_from 0 (take 8 (sha256 seed)) % sum_by active_stake all) 0 all
        (omega arith) (omega arith) (omega arith) in
    rw (total, nonzero, e) there
