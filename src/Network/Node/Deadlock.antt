-- ===== src/Network/Node/Deadlock.antt =====
-- src/network/node.cpp: the thread that receives from a peer holds `peersMutex`, which the handlers
-- lock again.
use rex_coin.Base.{
  ℕ, suc, ◌+◌, ◌≤◌, ◌≡◌, refl, ◌⊎◌, inl, inr, true, false, ◌&&◌, none, some, [], ◌∷◌, ◌++◌, arith,
  ltb, length, length-append, Bytes, codes,
}
use rex_coin.Base.Text.{eqb}
use rex_coin.Dict.{lookup}
use rex_coin.Network.Frame.{frame, unframe}
use rex_coin.Network.Frame.RoundTrip.{IsType}
use rex_coin.Network.Socket.{Sockets, recv_raw}
use rex_coin.Network.Socket.Transmit.{recv_raw-frame}
use rex_coin.Network.Node.{
  PeerConn, Node, lock, version_text, remove_peer, send_to_peer, answer, handle_raw, handle_peer,
  receive_thread,
}

-- The messages to which `handlePeer` itself replies.
abbrev pub IsAnswered : Bytes → Type 0
IsAnswered type = (type ≡ codes "PING") ⊎ ((type ≡ codes "VERSION") ⊎ (type ≡ codes "GETADDR"))

-- What a thread has read that makes it look up the peers: a lost connection or a message that it
-- replies to.
abbrev pub NeedsLock : Bytes → Type 0
NeedsLock raw =
    (raw ≡ [])
    ⊎ ((type : Bytes) × (payload : Bytes) × (unframe raw ≡ some (type, payload)) × IsAnswered type)

version-IsType : IsType (codes "VERSION")
version-IsType = record { short = omega arith; unpadded = λ e. absurd (cc e) }

length-version_text : (id : Bytes) → length id ≤ 64 → 16 + length (version_text id) ≤ 4194304
unfolding version_text
length-version_text id h =
    let e = length-append (codes "version=1,agent=RexCoin/0.2,nodeId=") id in omega arith

module _ {W : Type 0} ⦃sys : Sockets W⦄ where
  answer-none :
      (peer : PeerConn) (type payload : Bytes) (node : Node W) (w : W)
      → IsAnswered type
      → answer true peer type payload node w ≡ none
  unfolding answer send_to_peer lock eqb
  answer-none peer type payload node w (inl e) = rw e refl
  answer-none peer type payload node w (inr (inl e)) = rw e refl
  answer-none peer type payload node w (inr (inr e)) = rw e refl

module _ {W : Type 0} ⦃sys : Sockets W⦄ (clock : W → ℕ) where
  pub handle_raw-none :
      (id : Bytes) (peer : PeerConn) (raw : Bytes) (node : Node W) (w : W)
      → NeedsLock raw
      → handle_raw clock true id peer raw node w ≡ none
  unfolding handle_raw remove_peer lock unframe
  handle_raw-none id peer [] node w h = refl
  handle_raw-none id peer (c ∷ raw) node w (inl e) = absurd (cc e)
  handle_raw-none id peer (c ∷ raw) node w (inr (type, payload, e, answered)) =
      rw (handle_raw, e) (rw (answer-none peer type payload _ w answered) refl)

  -- A thread that receives from an active peer in the table of a running node, and holds the lock for
  -- as long as it runs, waits for that lock for ever when the connection is lost or a PING, a VERSION
  -- or a GETADDR arrives.
  receive_thread-blocks :
      (rounds : ℕ) (id : Bytes) (peer : PeerConn) (node : Node W) (w : W)
      → lookup id node.peers ≡ some peer
      → node.running ≡ true
      → peer.active ≡ true
      → NeedsLock (recv_raw peer.fd w).0
      → receive_thread clock (suc rounds) id node w ≡ none
  unfolding receive_thread handle_peer lock
  receive_thread-blocks rounds id peer node w known running active h =
      let go : (node.running && peer.active) ≡ true = rw (running, active) refl in
      rw (
        receive_thread,
        lock,
        handle_peer,
        known,
        go,
        handle_raw-none id peer (recv_raw peer.fd w).0 node (recv_raw peer.fd w).1 h,
      )

  -- The greeting that each node sends first on a new connection blocks the thread that reads it.
  receive_thread-version_text :
      (rounds : ℕ) (id : Bytes) (peer : PeerConn) (node : Node W) (w : W) (node_id rest : Bytes)
      → lookup id node.peers ≡ some peer
      → node.running ≡ true
      → peer.active ≡ true
      → length node_id ≤ 64
      → sys.incoming peer.fd w ≡ frame (codes "VERSION") (version_text node_id) ++ rest
      → receive_thread clock (suc rounds) id node w ≡ none
  receive_thread-version_text rounds id peer node w node_id rest known running active short e =
      let small : 16 + length (version_text node_id) ≤ 4194304 =
        length-version_text node_id short in
      let fits : ltb 4194304 (16 + length (version_text node_id)) ≡ false = ground arith in
      let read = rw fits at (
        recv_raw-frame peer.fd (codes "VERSION") (version_text node_id) rest w version-IsType
          (omega arith) e) in
      receive_thread-blocks rounds id peer node w known running active
        (inr (codes "VERSION", version_text node_id, read.0, inr (inl refl)))
