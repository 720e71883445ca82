-- ===== src/Network/Node/Steps.antt =====
-- src/network/node.cpp: the table of the peers over every run of a node.
use rex_coin.Base.{
  ℕ, ◌≡◌, refl, sym, ap, ◌∙◌, ◌⊎◌, inl, inr, Bool, true, false, Option, none, some, Bytes, codes,
  Bool-cases, Option-cases,
}
use rex_coin.Base.Int.{ℤ}
use rex_coin.Dict.{insert, contains, is_some, lookup-insert_self}
use rex_coin.Hasher.{Hasher}
use rex_coin.Network.Frame.{make_peer_id}
use rex_coin.Network.Socket.{Sockets}
use rex_coin.Network.Node.{
  PeerConn, Node, lock, version_text, new_node, start_node, on_message, add_peer, remove_peer,
  send_to_peer, stop, handle_peer, accept_peer, greet, connect_to_peer,
}
use rex_coin.Network.Node.Table.{
  IsTable, HasTable, HasTableWith, IsTable-insert, remove_peer-IsTable, stop-IsTable,
  handle_peer-IsTable,
}

module _ {W : Type 0} ⦃sys : Sockets W⦄ ⦃h : Hasher⦄ (clock : W → ℕ) where
  accept_peer-IsTable :
      (fd : ℤ) (ip : Bytes) (port : ℕ) (node : Node W) (w : W)
      → IsTable node.peers
      → HasTable (accept_peer clock fd ip port node w)
  unfolding accept_peer add_peer lock
  accept_peer-IsTable fd ip port node w t =
      let peer : PeerConn = record {
        fd = fd;
        ip = ip;
        port = port;
        node_id = make_peer_id ip port;
        outbound = false;
        last_seen = clock w;
        active = true;
      } in
      let node' : Node W = record node { peers = insert peer.node_id peer node.peers } in
      elim (Option-cases
        (send_to_peer false peer.node_id (codes "VERSION") (version_text node.node_id) node' w)) [
          | inl e ↦ rw (accept_peer, add_peer, lock, e) tt
          | inr (r, e) ↦
              rw (accept_peer, add_peer, lock, e)
                (IsTable-insert peer.node_id peer node.peers refl t)
        ]

  -- What a greeting leaves: the table with the new peer.
  greet-cases :
      (id ip : Bytes) (port : ℕ) (fd : ℤ) (node : Node W) (w : W)
      → (peer : PeerConn) × (peer.node_id ≡ id)
        × ((greet clock id ip port fd node w ≡ none)
            ⊎ ((w' : W) × (greet clock id ip port fd node w
                  ≡ some (true, (record node { peers = insert id peer node.peers }, w')))))
  unfolding greet add_peer lock
  greet-cases id ip port fd node w =
      let peer : PeerConn = record {
        fd = fd;
        ip = ip;
        port = port;
        node_id = id;
        outbound = true;
        last_seen = clock w;
        active = true;
      } in
      let node' : Node W = record node { peers = insert id peer node.peers } in
      (
        peer,
        refl,
        elim (Option-cases
            (send_to_peer false id (codes "VERSION") (version_text node.node_id) node' w)) [
              | inl e ↦ inl (rw (greet, add_peer, lock, e) refl)
              | inr (r, e) ↦ inr (r.1, rw (greet, add_peer, lock, e) refl)
            ],
      )

  connect_to_peer-IsTable :
      (dial : Bytes → ℕ → W → Option ℤ × W) (ip : Bytes) (port : ℕ) (node : Node W) (w : W)
      → IsTable node.peers
      → HasTableWith (connect_to_peer clock dial ip port node w)
  unfolding connect_to_peer lock
  connect_to_peer-IsTable dial ip port node w t =
      let id = make_peer_id ip port in
      elim (Bool-cases (contains id node.peers)) [
        | inl known ↦ rw (connect_to_peer, lock, known) t
        | inr new ↦ elim (Option-cases (dial ip port w).0) [
          | inl e ↦ rw (connect_to_peer, lock, new, e) t
          | inr (fd, e) ↦
              let (peer, own, cases) = greet-cases id ip port fd node (dial ip port w).1 in
              elim cases [
                | inl stuck ↦ rw (connect_to_peer, lock, new, e, stuck) tt
                | inr (w', made) ↦
                    rw (connect_to_peer, lock, new, e, made)
                      (IsTable-insert id peer node.peers own t)
              ]
        ]
      ]

  connected-contains :
      (dial : Bytes → ℕ → W → Option ℤ × W) (ip : Bytes) (port : ℕ) (node node' : Node W) (w w' : W)
      → connect_to_peer clock dial ip port node w ≡ some (true, (node', w'))
      → contains (make_peer_id ip port) node'.peers ≡ true
  unfolding connect_to_peer lock
  connected-contains dial ip port node node' w w' done =
      let id = make_peer_id ip port in
      elim (Bool-cases (contains id node.peers)) [
        | inl known ↦
            let same : node ≡ node' = cc (rw (connect_to_peer, lock, known) at done) in
            ap (λ (n : Node W). contains id n.peers) (sym same) ∙ known
        | inr new ↦ elim (Option-cases (dial ip port w).0) [
          | inl e ↦ absurd (cc (rw (connect_to_peer, lock, new, e) at done))
          | inr (fd, e) ↦
              let (peer, own, cases) = greet-cases id ip port fd node (dial ip port w).1 in
              elim cases [
                | inl stuck ↦ absurd (cc (rw (connect_to_peer, lock, new, e, stuck) at done))
                | inr (w'', made) ↦
                    let made' : Node W = record node { peers = insert id peer node.peers } in
                    let same : made' ≡ node' =
                      cc (rw (connect_to_peer, lock, new, e, made) at done) in
                    ap (λ (n : Node W). contains id n.peers) (sym same)
                    ∙ ap is_some (lookup-insert_self id peer node.peers)
              ]
        ]
      ]

  -- A second connection to the same address is a success at any later time, and changes nothing.
  pub connect_to_peer-again :
      (dial : Bytes → ℕ → W → Option ℤ × W) (ip : Bytes) (port : ℕ) (node node' : Node W)
      (w w' later : W)
      → connect_to_peer clock dial ip port node w ≡ some (true, (node', w'))
      → connect_to_peer clock dial ip port node' later ≡ some (true, (node', later))
  unfolding connect_to_peer lock
  connect_to_peer-again dial ip port node node' w w' later done =
      rw (connect_to_peer, lock, connected-contains dial ip port node node' w w' done)

  start_node-peers :
      (listen : ℕ → W → Bool × W) (node : Node W) (w : W)
      → (start_node listen node w).1.0.peers ≡ node.peers
  unfolding start_node
  start_node-peers listen node w = elim (Bool-cases (listen node.listen_port w).0) [
    | inl bound ↦ rw (start_node, bound) refl
    | inr busy ↦ rw (start_node, busy) refl
  ]

  -- The runs of a node from its constructor: its start and its handler, at any time, inbound and
  -- outbound connections, rounds of a thread that receives, and its end.
  -- `bound` says whether the port could be bound.
  pub data Run : Node W → W → Type 0 where
    made : (ip : Bytes) (port : ℕ) (w : W) → Run (new_node ip port) w
    started :
        (listen : ℕ → W → Bool × W) (bound : Bool) (node node' : Node W) (w w' : W)
        → Run node w
        → start_node listen node w ≡ (bound, (node', w'))
        → Run node' w'
    handled :
        (handler : Bytes → Bytes → Bytes → W → W) (node : Node W) (w : W)
        → Run node w
        → Run (on_message handler node) w
    accepted :
        (fd : ℤ) (ip : Bytes) (port : ℕ) (node node' : Node W) (w w' : W)
        → Run node w
        → accept_peer clock fd ip port node w ≡ some (node', w')
        → Run node' w'
    connected :
        (dial : Bytes → ℕ → W → Option ℤ × W) (ip : Bytes) (port : ℕ) (ok : Bool)
        (node node' : Node W) (w w' : W)
        → Run node w
        → connect_to_peer clock dial ip port node w ≡ some (ok, (node', w'))
        → Run node' w'
    received :
        (rounds : ℕ) (held : Bool) (id : Bytes) (node node' : Node W) (w w' : W)
        → Run node w
        → handle_peer clock rounds held id node w ≡ some (node', w')
        → Run node' w'
    removed :
        (held : Bool) (id : Bytes) (node node' : Node W) (w w' : W)
        → Run node w
        → remove_peer held id node w ≡ some (node', w')
        → Run node' w'
    stopped :
        (held : Bool) (node node' : Node W) (w w' : W)
        → Run node w
        → stop held node w ≡ some (node', w')
        → Run node' w'

  -- In every run, from the constructor over any starts, handlers, connections, received messages,
  -- removals and stops, the ids of the table are distinct, and each peer stands under its own.
  pub Run-IsTable : (node : Node W) (w : W) → Run node w → IsTable node.peers
  unfolding new_node on_message
  Run-IsTable _ _ (made ip port w) = (tt, tt)
  Run-IsTable _ _ (started listen bound node node' w w' r e) =
      let same : (start_node listen node w).1.0 ≡ node' =
        ap (λ (x : Bool × (Node W × W)). x.1.0) e in
      rw (← same, start_node-peers listen node w) (Run-IsTable node w r)
  Run-IsTable _ _ (handled handler node w r) = Run-IsTable node w r
  Run-IsTable _ _ (accepted fd ip port node node' w w' r e) =
      rw e at (accept_peer-IsTable fd ip port node w (Run-IsTable node w r))
  Run-IsTable _ _ (connected dial ip port ok node node' w w' r e) =
      rw e at (connect_to_peer-IsTable dial ip port node w (Run-IsTable node w r))
  Run-IsTable _ _ (received rounds held id node node' w w' r e) =
      rw e at (handle_peer-IsTable clock rounds held id node w (Run-IsTable node w r))
  Run-IsTable _ _ (removed held id node node' w w' r e) =
      rw e at (remove_peer-IsTable held id node w (Run-IsTable node w r))
  Run-IsTable _ _ (stopped held node node' w w' r e) =
      rw e at (stop-IsTable held node w (Run-IsTable node w r))
