-- ===== src/Network/Peers.antt =====
-- src/network/peer.h and src/network/peer.cpp. The time is an argument, and `sort` stands for
-- `std::sort` by descending score.
use rex_coin.Base.{ℕ, List, [], ◌∷◌, ◌++◌, ltb, length, take, if◌then◌else◌, Bytes, eqb}
use rex_coin.Base.Int.{ℤ, pos, ◌+ℤ◌}

-- `struct PeerScore`
pub record PeerScore : Type 0 where
  pub node_id : Bytes
  pub score : ℤ
  pub last_seen : ℕ
  pub bytes_recv : ℕ
  pub bytes_sent : ℕ

-- `class PeerManager`
abbrev pub PeerManager : Type 0
PeerManager = List PeerScore

-- `PeerManager::addPeer`
pub add_peer : ℕ → Bytes → PeerManager → PeerManager
add_peer now node_id peers =
    peers
    ++ record {
      node_id = node_id;
      score = pos 100;
      last_seen = now;
      bytes_recv = 0;
      bytes_sent = 0;
    }
      ∷ []

-- `PeerManager::removePeer`
pub remove_peer : Bytes → PeerManager → PeerManager
remove_peer node_id [] = []
remove_peer node_id (p ∷ peers) =
    let rest = remove_peer node_id peers in if eqb p.node_id node_id then rest else p ∷ rest

-- `PeerManager::updateScore`; the sum stays within an `int`.
pub update_score : Bytes → ℤ → PeerManager → PeerManager
update_score node_id delta [] = []
update_score node_id delta (p ∷ peers) =
    let rest = update_score node_id delta peers in
    if eqb p.node_id node_id then record p { score = p.score +ℤ delta } ∷ peers else p ∷ rest

-- `PeerManager::getBestPeers`, for a count that is not negative.
pub get_best_peers :
    (sort : List PeerScore → List PeerScore) (count : ℕ) → PeerManager → List PeerScore
get_best_peers sort count peers =
    let sorted = sort peers in if ltb count (length sorted) then take count sorted else sorted

-- `PeerManager::count`
pub count : PeerManager → ℕ
count peers = length peers
