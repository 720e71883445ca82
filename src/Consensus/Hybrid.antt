-- ===== src/Consensus/Hybrid.antt =====
-- src/consensus/hybrid.h and src/consensus/hybrid.cpp. For two counts of at most 31 bits the double
-- `votes / totalActive` is at least the double 0.67 exactly if the fraction is at least 67/100: the
-- fraction and 67/100 are equal or differ by more than the rounding.
use rex_coin.Base.{
  ℕ, suc, ◌*◌, Bool, true, false, Option, none, some, List, [], ◌∷◌, leb, ◌==◌, if◌then◌else◌,
  Bytes, ◌>>=◌, ◌≡◌, arith,
}
use rex_coin.Dict.{Dict, lookup, insert, lookup-insert_self}
use rex_coin.Hasher.{Hasher}
use rex_coin.Consensus.Pow
use rex_coin.Consensus.Pos.{Validator, ProofOfStake, add_validator, get_validators, validate_block}

-- `class HybridConsensus`
pub record HybridConsensus : Type 0 where
  pub pos : ProofOfStake
  pub vote_count : Dict ℕ
  pub finalized : Dict Bool

-- `HybridConsensus::proposeBlock`
pub propose_block : ⦃h : Hasher⦄ → Bytes → ℕ → ℕ → Bytes → Bool
propose_block block_data difficulty nonce hash = Pow.verify block_data difficulty nonce hash

-- `for (v : validators) if (v.active) totalActive++;`
unfoldable pub count_active : List Validator → ℕ
count_active [] = 0
count_active (v ∷ vs) = let rest = count_active vs in if v.active then suc rest else rest

-- `for (voter : voters) if (pos.validateBlock(voter, blockHash)) votes++;`
pub count_votes : Bytes → List Bytes → ProofOfStake → ℕ
count_votes block_hash [] pos = 0
count_votes block_hash (voter ∷ voters) pos =
    let rest = count_votes block_hash voters pos in
    if validate_block voter block_hash pos then suc rest else rest

-- `ratio >= FINALITY_THRESHOLD`
abbrev pub reaches : ℕ → ℕ → Bool
reaches votes total_active = leb (67 * total_active) (100 * votes)

-- `HybridConsensus::finalizeBlock`
pub finalize_block : Bytes → List Bytes → HybridConsensus → HybridConsensus × Bool
finalize_block block_hash voters c =
    let total_active = count_active (get_validators c.pos) in
    let votes = count_votes block_hash voters c.pos in
    if total_active == 0
    then (record c { finalized = insert block_hash true c.finalized }, true)
    else (let counted : HybridConsensus = record c {
      vote_count = insert block_hash votes c.vote_count;
    } in
        if reaches votes total_active
        then (record counted { finalized = insert block_hash true c.finalized }, true)
        else (counted, false))

-- `HybridConsensus::addValidator`
pub add_hybrid_validator : Bytes → ℕ → HybridConsensus → Option HybridConsensus
add_hybrid_validator address stake c = do
  pos ← add_validator address stake c.pos
  some (record c { pos = pos })

-- `HybridConsensus::isConfirmed`
pub is_confirmed : Bytes → HybridConsensus → Bool
is_confirmed block_hash c = elim (lookup block_hash c.finalized) [ none ↦ false | some f ↦ f ]

-- An active validator who is named three times makes three votes: where at most four validators are
-- active, that finalizes any block.
pub finalize_block_repeated :
    (block_hash voter : Bytes) (c : HybridConsensus)
    → validate_block voter block_hash c.pos ≡ true
    → leb (count_active (get_validators c.pos)) 4 ≡ true
    → is_confirmed block_hash (finalize_block block_hash (voter ∷ voter ∷ voter ∷ []) c).0 ≡ true
unfolding finalize_block count_votes is_confirmed
finalize_block_repeated block_hash voter c votes few =
    let set = lookup-insert_self block_hash true c.finalized in rw votes (ground (arith, set))
