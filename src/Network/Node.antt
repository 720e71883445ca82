-- ===== src/Network/Node.antt =====
-- src/network/node.h and src/network/node.cpp: the node and the table of its peers. The system's
-- calls are `Sockets`, `dial` stands for `socket`, `gethostbyname` and `connect`, and `clock` for
-- `system_clock`. `held` says whether the calling thread holds `peersMutex`; `none` is a thread that
-- waits for a lock which it holds itself.
pub mod Deadlock
pub mod Table
pub mod Steps
pub mod Threads
pub mod Broadcast
use rex_coin.Base.{
  ℕ, zero, suc, Bool, true, false, not, ◌&&◌, Option, none, some, List, [], ◌∷◌, ◌++◌, length, map,
  if◌then◌else◌, Bytes, codes, eqb, ◌>>=◌,
}
use rex_coin.Base.Decimal.{decimal}
use rex_coin.Base.Int.{ℤ, pos, ltb_ℤ}
use rex_coin.Dict.{Dict, lookup, insert, erase, contains}
use rex_coin.Hasher.{Hasher}
use rex_coin.Network.Frame.{make_peer_id, frame, unframe}
use rex_coin.Network.Socket.{Sockets, send_raw, recv_raw}

-- `struct PeerConn`
pub record PeerConn : Type 0 where
  pub fd : ℤ
  pub ip : Bytes
  pub port : ℕ
  pub node_id : Bytes
  pub outbound : Bool
  pub last_seen : ℕ
  pub active : Bool

-- `class Node`: the handler of `onMessage` acts on the state of the system.
pub record Node (W : Type 0) : Type 0 where
  pub listen_ip : Bytes
  pub listen_port : ℕ
  pub node_id : Bytes
  pub running : Bool
  pub peers : Dict PeerConn
  pub msg_handler : Option (Bytes → Bytes → Bytes → W → W)

-- `std::lock_guard<std::mutex> lock(peersMutex);` before the rest of a function.
unfoldable pub lock {ℓ} : {A : Type ℓ} → Bool → Option A → Option A
lock held action = if held then none else action

-- What a node says of itself when it connects.
pub version_text : Bytes → Bytes
version_text node_id = codes "version=1,agent=RexCoin/0.2,nodeId=" ++ node_id

module _ {W : Type 0} where
  -- `Node::Node`
  unfoldable pub new_node : ⦃h : Hasher⦄ → Bytes → ℕ → Node W
  new_node ip port = record {
    listen_ip = ip;
    listen_port = port;
    node_id = make_peer_id ip port;
    running = false;
    peers = [];
    msg_handler = none;
  }

  -- `Node::start`; `listen` stands for `socket`, `bind` and `listen`. The thread that accepts is one of
  -- the threads of a node.
  unfoldable pub start_node : (listen : ℕ → W → Bool × W) → Node W → W → Bool × (Node W × W)
  start_node listen node w =
      let (bound, w') = listen node.listen_port w in
      if bound then (true, (record node { running = true }, w')) else (false, (node, w'))

  -- `Node::addPeer`
  unfoldable pub add_peer : Bool → PeerConn → Node W → Option (Node W)
  add_peer held peer node =
      lock held (some (record node { peers = insert peer.node_id peer node.peers }))

  -- `Node::onMessage`
  pub on_message : (Bytes → Bytes → Bytes → W → W) → Node W → Node W
  on_message handler node = record node { msg_handler = some handler }

  -- `Node::peerCount`
  pub peer_count : Bool → Node W → Option ℕ
  peer_count held node = lock held (some (length node.peers))

  -- `Node::getPeers`
  pub get_peers : Bool → Node W → Option (List PeerConn)
  get_peers held node = lock held (some (map (λ (e : Bytes × PeerConn). e.1) node.peers))

  -- `if (msgHandler) msgHandler(peer.nodeId, type, payload);`
  pub call_handler : Node W → Bytes → Bytes → Bytes → W → W
  call_handler node id type payload w = elim node.msg_handler [
    | none ↦ w
    | some handler ↦ handler id type payload w
  ]

-- `for (const auto& [id,p] : peers) addrList += p.ip + ":" + std::to_string(p.port) + ",";`
pub addr_list : Dict PeerConn → Bytes
addr_list [] = []
addr_list ((id, p) ∷ peers) = p.ip ++ codes ":" ++ decimal p.port ++ codes "," ++ addr_list peers

module _ {W : Type 0} ⦃sys : Sockets W⦄ where
  -- `if (p.fd>=0) ::close(p.fd);`
  pub close_fd : ℤ → W → W
  close_fd fd w = if ltb_ℤ fd (pos 0) then w else sys.close fd w

  -- `Node::removePeer`
  unfoldable pub remove_peer : Bool → Bytes → Node W → W → Option (Node W × W)
  remove_peer held id node w = lock held (elim (lookup id node.peers) [
    | none ↦ some (node, w)
    | some p ↦ some (record node { peers = erase id node.peers }, close_fd p.fd w)
  ])

  -- `Node::sendToPeer`
  unfoldable pub send_to_peer : Bool → Bytes → Bytes → Bytes → Node W → W → Option (Bool × W)
  send_to_peer held id type payload node w = lock held (elim (lookup id node.peers) [
    | none ↦ some (false, w)
    | some p ↦ if p.active then some (send_raw p.fd (frame type payload) w) else some (false, w)
  ])

  -- The loop of `broadcast`: the number of the peers that the message was sent to.
  unfoldable pub broadcast_loop : Bytes → Dict PeerConn → W → ℕ × W
  broadcast_loop msg [] w = (0, w)
  broadcast_loop msg ((id, p) ∷ peers) w =
      let (sent, w') : Bool × W = if p.active then send_raw p.fd msg w else (false, w) in
      let (count, w'') = broadcast_loop msg peers w' in (if sent then suc count else count, w'')

  -- `Node::broadcast`, with the number that it prints.
  unfoldable pub broadcast : Bool → Bytes → Bytes → Node W → W → Option (ℕ × W)
  broadcast held type payload node w =
      lock held (some (broadcast_loop (frame type payload) node.peers w))

  -- `for (auto& [id,p] : peers) if (p.fd>=0) ::close(p.fd);`
  pub close_all : Dict PeerConn → W → W
  close_all [] w = w
  close_all ((id, p) ∷ peers) w = close_all peers (close_fd p.fd w)

  -- `Node::stop`, after the listening socket is closed and its thread joined.
  unfoldable pub stop : Bool → Node W → W → Option (Node W × W)
  stop held node w =
      if not node.running
      then some (node, w)
      else lock held (some (record node { running = false; peers = [] }, close_all node.peers w))

  -- The built-in handlers of `handlePeer`.
  unfoldable pub answer : Bool → PeerConn → Bytes → Bytes → Node W → W → Option (Bool × W)
  answer held peer type payload node w =
      if eqb type (codes "PING")
      then send_to_peer held peer.node_id (codes "PONG") payload node w
      else if eqb type (codes "VERSION")
      then send_to_peer held peer.node_id (codes "VERACK") [] node w
      else if eqb type (codes "GETADDR")
      then lock held (send_to_peer true peer.node_id (codes "ADDR") (addr_list node.peers) node w)
      else some (true, w)

module _ {W : Type 0} ⦃sys : Sockets W⦄ (clock : W → ℕ) where
  -- `handlePeer` on what was received; the Boolean says whether the loop goes on.
  unfoldable pub handle_raw :
      Bool → Bytes → PeerConn → Bytes → Node W → W → Option (Bool × (Node W × W))
  handle_raw held id peer [] node w = do
    (node', w') ←
        remove_peer held peer.node_id
          (record node { peers = insert id (record peer { active = false }) node.peers }) w
    some (false, (node', w'))
  handle_raw held id peer (c ∷ raw) node w = elim (unframe (c ∷ raw)) [
    | none ↦ some (true, (node, w))
    | some (type, payload) ↦ do
      let node' = record node { peers = insert id (record peer { last_seen = clock w }) node.peers }
      (_, w') ← answer held peer type payload node' w
      some (true, (node', call_handler node' peer.node_id type payload w'))
  ]

  -- `Node::handlePeer` for the peer that stands under `id`, for a number of rounds; nothing is done
  -- where there is none, as in the threads that call it.
  unfoldable pub handle_peer : ℕ → Bool → Bytes → Node W → W → Option (Node W × W)
  handle_peer zero held id node w = some (node, w)
  handle_peer (suc rounds) held id node w = elim (lookup id node.peers) [
    | none ↦ some (node, w)
    | some peer ↦
        if not (node.running && peer.active)
        then some (node, w)
        else let (raw, w') = recv_raw peer.fd w in
          elim (handle_raw held id peer raw node w') [
            | none ↦ none
            | some (more, (node', w'')) ↦ elim more [
              | true ↦ handle_peer rounds held id node' w''
              | false ↦ some (node', w'')
            ]
          ]
  ]

  -- The thread that `acceptLoop` and `connectToPeer` detach: it takes the lock for as long as it runs.
  unfoldable pub receive_thread : ℕ → Bytes → Node W → W → Option (Node W × W)
  receive_thread rounds id node w = lock false (handle_peer rounds true id node w)

  -- The new connection in `acceptLoop`, up to its thread.
  unfoldable pub accept_peer : ⦃h : Hasher⦄ → ℤ → Bytes → ℕ → Node W → W → Option (Node W × W)
  accept_peer fd ip port node w = do
    let peer : PeerConn = record {
      fd = fd;
      ip = ip;
      port = port;
      node_id = make_peer_id ip port;
      outbound = false;
      last_seen = clock w;
      active = true;
    }
    node' ← add_peer false peer node
    (_, w') ← send_to_peer false peer.node_id (codes "VERSION") (version_text node.node_id) node' w
    some (node', w')

  -- `connectToPeer` once the connection is there, up to its thread.
  unfoldable pub greet : Bytes → Bytes → ℕ → ℤ → Node W → W → Option (Bool × (Node W × W))
  greet id ip port fd node w = do
    let peer : PeerConn = record {
      fd = fd;
      ip = ip;
      port = port;
      node_id = id;
      outbound = true;
      last_seen = clock w;
      active = true;
    }
    node' ← add_peer false peer node
    (_, w') ← send_to_peer false id (codes "VERSION") (version_text node.node_id) node' w
    some (true, (node', w'))

  -- `Node::connectToPeer`, up to its thread; `dial` gives the socket, and closes it on failure.
  unfoldable pub connect_to_peer :
      ⦃h : Hasher⦄
      → (dial : Bytes → ℕ → W → Option ℤ × W) → Bytes
      → ℕ
      → Node W
      → W
      → Option (Bool × (Node W × W))
  connect_to_peer dial ip port node w = do
    let id = make_peer_id ip port
    known ← lock false (some (contains id node.peers))
    if known
        then some (true, (node, w))
        else let (connected, w') = dial ip port w in
          elim connected [ none ↦ some (false, (node, w')) | some fd ↦ greet id ip port fd node w' ]
