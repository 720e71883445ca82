-- ===== src/Governance/Proposal.antt =====
-- src/governance/proposal.h and src/governance/proposal.cpp. The comparison of a ratio of stakes
-- with the threshold is floating-point arithmetic, a parameter with the laws that IEEE 754 gives it.
pub mod Voting
use rex_coin.Base.{
  ℕ, zero, suc, ◌+◌, ◌*◌, ◌<◌, ◌≡◌, Bool, true, false, not, Option, none, some, List, [], ◌∷◌, ◌++◌,
  ltb, ◌==◌, length, take, if◌then◌else◌, Bytes, codes, u64,
}
use rex_coin.Base.Decimal.{decimal}
use rex_coin.Base.Int.{ℤ, ◌+ℤ◌}
use rex_coin.Hasher.{Hasher, sha256}
use rex_coin.Dict.{Dict, lookup, insert, contains}

-- `(double) part / total >= PASS_THRESHOLD` on 64-bit numbers: a whole passes, nothing does not.
pub record Threshold : Type 0 where
  pub reaches : ℕ → ℕ → Bool
  pub reaches_whole : (n : ℕ) → 0 < n → reaches n n ≡ true
  pub reaches_nothing : (n : ℕ) → 0 < n → reaches 0 n ≡ false

-- `enum class ProposalStatus`
pub data ProposalStatus : Type 0 where
  active passed rejected expired : ProposalStatus

-- `struct Proposal`
pub record Proposal : Type 0 where
  pub id : Bytes
  pub title : Bytes
  pub description : Bytes
  pub proposer : Bytes
  pub votes_for : ℕ
  pub votes_against : ℕ
  pub status : ProposalStatus
  pub expires_at : ℤ
  pub change_param : Bytes
  pub change_value : Bytes

-- `class GovernanceSystem`
pub record GovernanceSystem : Type 0 where
  pub proposals : Dict Proposal
  pub voted : Dict Bytes

abbrev pub min_stake_vote : ℕ
min_stake_vote = 100 * 100000000

-- `p.status == ProposalStatus::ACTIVE`
abbrev pub is_active : ProposalStatus → Bool
is_active active = true
is_active _ = false

-- `GovernanceSystem::generateProposalId`
pub generate_proposal_id : ⦃h : Hasher⦄ → Bytes → Bytes → GovernanceSystem → Bytes
generate_proposal_id proposer title g =
    take 12 (sha256 (proposer ++ title ++ decimal (length g.proposals)))

-- `GovernanceSystem::submitProposal` at the time `now`.
pub submit_proposal :
    ⦃h : Hasher⦄
    → ℤ
    → Bytes
    → Bytes
    → Bytes
    → Bytes
    → Bytes
    → ℤ
    → GovernanceSystem
    → GovernanceSystem × Bytes
submit_proposal now proposer title description change_param change_value duration g =
    let id = generate_proposal_id proposer title g in
    let p : Proposal = record {
      id = id;
      title = title;
      description = description;
      proposer = proposer;
      votes_for = 0;
      votes_against = 0;
      status = active;
      expires_at = now +ℤ duration;
      change_param = change_param;
      change_value = change_value;
    } in
    (record g { proposals = insert id p g.proposals }, id)

-- `GovernanceSystem::tally`
pub tally : ⦃t : Threshold⦄ → Bytes → GovernanceSystem → GovernanceSystem
tally ⦃t⦄ id g = elim (lookup id g.proposals) [
  | none ↦ g
  | some p ↦
      let total = u64 (p.votes_for + p.votes_against) in
      if total == 0
      then g
      else if t.reaches p.votes_for total
      then record g { proposals = insert id (record p { status = passed }) g.proposals }
      else g
]

-- `if (inFavor) votesFor += voterStake; else votesAgainst += voterStake;`
pub count_vote : ℕ → Bool → Proposal → Proposal
count_vote stake in_favor p =
    if in_favor
    then record p { votes_for = u64 (p.votes_for + stake) }
    else record p { votes_against = u64 (p.votes_against + stake) }

-- What `vote` records once its tests have passed.
pub record_vote : Bytes → Bytes → ℕ → Bool → Proposal → GovernanceSystem → GovernanceSystem
record_vote id voter stake in_favor p g = record g {
  proposals = insert id (count_vote stake in_favor p) g.proposals;
  voted = insert (voter ++ id) (if in_favor then codes "yes" else codes "no") g.voted;
}

-- `GovernanceSystem::vote`
unfoldable pub vote :
    ⦃t : Threshold⦄ → Bytes → Bytes → ℕ → Bool → GovernanceSystem → GovernanceSystem × Bool
vote id voter stake in_favor g = elim (lookup id g.proposals) [
  | none ↦ (g, false)
  | some p ↦
      if not (is_active p.status)
      then (g, false)
      else if ltb stake min_stake_vote
      then (g, false)
      else if contains (voter ++ id) g.voted
      then (g, false)
      else (tally id (record_vote id voter stake in_favor p g), true)
]

-- `GovernanceSystem::getProposal`
pub get_proposal : Bytes → GovernanceSystem → Option Proposal
get_proposal id g = lookup id g.proposals

active_among : Dict Proposal → List Proposal
active_among [] = []
active_among ((id, p) ∷ proposals) =
    let rest = active_among proposals in if is_active p.status then p ∷ rest else rest

-- `GovernanceSystem::getActiveProposals`
pub get_active_proposals : GovernanceSystem → List Proposal
unfolding active_among
get_active_proposals g = active_among g.proposals
