-- ===== src/Governance/Proposal/Voting.antt =====
-- src/governance/proposal.cpp, `GovernanceSystem::vote`: who can vote, and what a vote does.
use rex_coin.Base.{
  ℕ, ◌≤◌, ◌≡◌, Bool, true, false, some, ◌++◌, inl, inr, ◌⊎◌, arith, ltb, if◌then◌else◌, Bytes,
  codes, Bool-cases, Option-cases, List, [], ◌∷◌, eqb, refl,
}
use rex_coin.Base.Int.{ℤ}
use rex_coin.Hasher.{Hasher}
use rex_coin.Dict.{Dict, lookup, insert, lookup-insert, lookup-insert_self, contains}
use rex_coin.Governance.Proposal.{
  Threshold, Proposal, GovernanceSystem, min_stake_vote, is_active, submit_proposal, tally,
  record_vote, vote, get_proposal,
}

contains-insert :
    (k j : Bytes) (v : Bytes) (d : Dict Bytes)
    → contains j d ≡ true
    → contains j (insert k v d) ≡ true
contains-insert k j v d kept = elim (Bool-cases (eqb k j)) [
  | inl same ↦ rw (lookup-insert k j v d, same) refl
  | inr other ↦ rw (lookup-insert k j v d, other) kept
]

module _ ⦃t : Threshold⦄ (id : Bytes) where
  tally-voted : (g : GovernanceSystem) → (tally id g).voted ≡ g.voted
  unfolding tally
  tally-voted g = elim (Option-cases (lookup id g.proposals)) [
    | inl absent ↦ rw (absent, tally)
    | inr (p, found) ↦ rw (found, tally) (ground arith)
  ]

  module _ (voter : Bytes) where
    vote_refused :
        (stake : ℕ) (in_favor : Bool) (g : GovernanceSystem)
        → contains (voter ++ id) g.voted ≡ true
        → vote id voter stake in_favor g ≡ (g, false)
    unfolding vote
    vote_refused stake in_favor g done = elim (Option-cases (lookup id g.proposals)) [
      | inl absent ↦ rw (absent, vote)
      | inr (p, found) ↦ rw (found, vote, done) (ground arith)
    ]

    -- The two ways that `vote` can go.
    vote_cases :
        (stake : ℕ) (in_favor : Bool) (g : GovernanceSystem)
        → (vote id voter stake in_favor g ≡ (g, false))
          ⊎ ((p : Proposal) × (get_proposal id g ≡ some p)
              × (is_active p.status ≡ true)
              × (min_stake_vote ≤ stake)
              × (contains (voter ++ id) g.voted ≡ false)
              × (vote id voter stake in_favor g
                  ≡ (tally id (record_vote id voter stake in_favor p g), true)))
    unfolding vote get_proposal
    vote_cases stake in_favor g = elim (Option-cases (lookup id g.proposals)) [
      | inl absent ↦ inl (rw (absent, vote))
      | inr (p, found) ↦ elim (Bool-cases (is_active p.status)) [
        | inr idle ↦ inl (rw (found, vote, idle))
        | inl up ↦ elim (Bool-cases (ltb stake min_stake_vote)) [
          | inl low ↦ inl (rw (found, vote, up, low))
          | inr enough ↦ elim (Bool-cases (contains (voter ++ id) g.voted)) [
            | inl done ↦ inl (vote_refused stake in_favor g done)
            | inr fresh ↦
                inr (p, found, up, ground arith, fresh, rw (found, vote, up, enough, fresh))
          ]
        ]
      ]
    ]

    -- A vote that counts is written down under its voter and its proposal.
    vote-contains :
        (stake : ℕ) (in_favor : Bool) (g : GovernanceSystem)
        → (vote id voter stake in_favor g).1 ≡ true
        → contains (voter ++ id) (vote id voter stake in_favor g).0.voted ≡ true
    vote-contains stake in_favor g counted = elim (vote_cases stake in_favor g) [
      | inl refused ↦ absurd (let e = rw refused at counted in cc)
      | inr (p, found, up, enough, fresh, e) ↦
          rw (e, tally-voted (record_vote id voter stake in_favor p g))
            (unfold record_vote in
              rw (
                lookup-insert_self (voter ++ id) (if in_favor then codes "yes" else codes "no")
                  g.voted))
    ]

    -- What has been written down stays so when a vote is cast.
    vote-voted :
        (key : Bytes) (stake : ℕ) (in_favor : Bool) (g : GovernanceSystem)
        → contains key g.voted ≡ true
        → contains key (vote id voter stake in_favor g).0.voted ≡ true
    vote-voted key stake in_favor g kept = elim (vote_cases stake in_favor g) [
      | inl refused ↦ rw refused kept
      | inr (p, found, up, enough, fresh, e) ↦
          rw (e, tally-voted (record_vote id voter stake in_favor p g))
            (unfold record_vote in
              contains-insert (voter ++ id) key (if in_favor then codes "yes" else codes "no")
                g.voted kept)
    ]

-- A call of the system: a proposal, a vote or a count.
pub data Call : Type 0 where
  submits : ℤ → Bytes → Bytes → Bytes → Bytes → Bytes → ℤ → Call
  votes : Bytes → Bytes → ℕ → Bool → Call
  tallies : Bytes → Call

module _ ⦃t : Threshold⦄ ⦃h : Hasher⦄ where
  step : GovernanceSystem → Call → GovernanceSystem
  step g (submits now proposer title description change_param change_value duration) =
      (submit_proposal now proposer title description change_param change_value duration g).0
  step g (votes id voter stake in_favor) = (vote id voter stake in_favor g).0
  step g (tallies id) = tally id g

  pub run : GovernanceSystem → List Call → GovernanceSystem
  unfolding step
  run g [] = g
  run g (c ∷ cs) = run (step g c) cs

  step-voted :
      (key : Bytes) (g : GovernanceSystem) (c : Call)
      → contains key g.voted ≡ true
      → contains key (step g c).voted ≡ true
  unfolding step submit_proposal
  step-voted key g (submits now proposer title description change_param change_value duration)
        kept =
      kept
  step-voted key g (votes id voter stake in_favor) kept =
      vote-voted id voter key stake in_favor g kept
  step-voted key g (tallies id) kept = rw (tally-voted id g) kept

  run-voted :
      (key : Bytes) (g : GovernanceSystem) (cs : List Call)
      → contains key g.voted ≡ true
      → contains key (run g cs).voted ≡ true
  unfolding run
  run-voted key g [] kept = kept
  run-voted key g (c ∷ cs) kept = run-voted key (step g c) cs (step-voted key g c kept)

  -- Whoever has voted on a proposal cannot vote on it again, with any stake and in any direction,
  -- after any proposals, votes and counts in between: the call fails and changes nothing.
  pub vote_twice :
      (id voter : Bytes) (stake stake' : ℕ) (in_favor in_favor' : Bool) (g : GovernanceSystem)
      (between : List Call)
      → (vote id voter stake in_favor g).1 ≡ true
      → let later = run (vote id voter stake in_favor g).0 between in
        vote id voter stake' in_favor' later ≡ (later, false)
  vote_twice id voter stake stake' in_favor in_favor' g between counted =
      let later = run (vote id voter stake in_favor g).0 between in
      vote_refused id voter stake' in_favor' later (
        run-voted (voter ++ id) (vote id voter stake in_favor g).0 between
          (vote-contains id voter stake in_favor g counted))
