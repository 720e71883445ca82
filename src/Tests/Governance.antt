-- ===== src/Tests/Governance.antt =====
-- src/governance, src/core/mempool.cpp and src/vm/compiler.cpp at concrete inputs.
use rex_coin.Base.Text.{eqb}
use rex_coin.Base.{
  ◌≡◌, ◌≤◌, ◌+◌, ◌*◌, refl, true, false, not, ◌&&◌, some, List, [], ◌∷◌, codes, arith, leb, ltb,
  if◌then◌else◌,
}
use rex_coin.Base.Int.{pos}
use rex_coin.Dict.{lookup}
use rex_coin.Crypto.Sha256.Digest.{sha256_hasher}
use rex_coin.Core.Transaction.{Transaction, create_coinbase}
use rex_coin.Core.Transaction
use rex_coin.Core.Mempool.{max_size, add, get, holds, size, add_lem}
use rex_coin.Governance.Proposal.{Threshold, Proposal, active, GovernanceSystem, vote}
use rex_coin.Governance.Proposal.Voting.{Call, submits, votes, tallies, run, vote_twice}
use rex_coin.Governance.Dao.{Dao}

-- The exact comparison with 67/100.
instance exact_threshold : Threshold
exact_threshold = record {
  reaches = λ part total. leb (67 * total) (100 * part);
  reaches_whole = λ n p. ground arith;
  reaches_nothing = λ n p. ground arith;
}

abbrev open_proposal : Proposal
open_proposal = record {
  id = codes "p1";
  title = codes "blocks";
  description = codes "larger blocks";
  proposer = codes "alice";
  votes_for = 0;
  votes_against = 30000000000;
  status = active;
  expires_at = pos 604800;
  change_param = codes "MAX_BLOCK_SIZE";
  change_value = codes "2000000";
}

abbrev one_proposal : GovernanceSystem
one_proposal = record { proposals = (codes "p1", open_proposal) ∷ []; voted = [] }

counted : (vote (codes "p1") (codes "bob") 10000000000 true one_proposal).1 ≡ true
unfolding vote lookup eqb
counted = refl

-- Between the two votes of `bob`, `eve` votes, and a proposal comes in.
abbrev between : List Call
between =
    votes (codes "p1") (codes "eve") 40000000000 false
    ∷ submits (pos 9) (codes "eve") (codes "fees") [] [] [] (pos 86400)
    ∷ tallies (codes "p1")
    ∷ []

abbrev voted_once : GovernanceSystem
voted_once = run (vote (codes "p1") (codes "bob") 10000000000 true one_proposal).0 between

vote_twice_example :
    vote (codes "p1") (codes "bob") 20000000000 false voted_once ≡ (voted_once, false)
vote_twice_example =
    vote_twice (codes "p1") (codes "bob") 10000000000 20000000000 true false one_proposal between
      counted

abbrev rich_dao : Dao
rich_dao = record { treasury = 1000; gov = one_proposal }

abbrev payment : Transaction
payment = create_coinbase (pos 5) (codes "miner") 50 1

add_lem_example :
    ((add payment []).1 ≡ (
      ltb (size []) max_size && (Transaction.is_valid payment && not (holds payment.tx_hash []))))
    × (get payment.tx_hash (add payment []).0
        ≡ (if (add payment []).1 then some payment else get payment.tx_hash []))
    × (size (add payment []).0 ≡ size [] + (if (add payment []).1 then 1 else 0))
    × (size (add payment []).0 ≤ max_size)
unfolding size
add_lem_example = add_lem payment [] (omega arith)
