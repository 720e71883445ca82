-- ===== src/Network/Node/Threads.antt =====
-- src/network/node.cpp: the threads of a node over one `peersMutex`, interleaved in any order. Each
-- peer has a thread that holds the lock while it receives; other threads call the functions that take
-- the lock for themselves. A thread that starts may call any functions, as `acceptLoop`,
-- `connectToPeer` and the rest of the program do.
pub mod Rounds
pub mod Exclusion
pub mod Standstill
use rex_coin.Base.{
  ℕ, ◌≡◌, Bool, true, false, not, ◌&&◌, ◌==◌, Option, none, some, List, [], ◌∷◌, if◌then◌else◌,
  Bytes, ◌>>=◌,
}
use rex_coin.Dict.{lookup, insert}
use rex_coin.Network.Frame.{unframe}
use rex_coin.Network.Socket.{Sockets, recv_raw}
use rex_coin.Network.Node.{
  PeerConn, Node, add_peer, remove_peer, send_to_peer, broadcast, close_all, handle_raw,
}

-- A call of a function that takes the lock; `clear` is the part of `stop` under the lock.
pub data Call : Type 0 where
  add : PeerConn → Call
  remove : Bytes → Call
  send : Bytes → Bytes → Bytes → Call
  broadcast_to_all : Bytes → Bytes → Call
  clear : Call

-- Where a thread stands: a detached thread waits for the lock, receives from its peer with it, or
-- waits for it while it holds it; any other thread has calls to make.
pub data Pc : Type 0 where
  idle : Pc
  detached : Bytes → Pc
  receiving : Bytes → Pc
  blocked : Bytes → Pc
  calling : List Call → Pc

pub record System (W : Type 0) : Type 0 where
  pub node : Node W
  pub world : W
  pub owner : Option ℕ
  pub pc : ℕ → Pc

unfoldable pub update : (ℕ → Pc) → ℕ → Pc → ℕ → Pc
update pc i p j = if j == i then p else pc j

-- A thread starts with a peer to receive from or with calls.
abbrev pub IsStart : Pc → Type 0
IsStart Pc.idle = ⊥
IsStart (Pc.detached id) = Unit {0}
IsStart (Pc.receiving id) = ⊥
IsStart (Pc.blocked id) = ⊥
IsStart (Pc.calling calls) = Unit {0}

-- What `handlePeer` has written when it waits for the lock in a round.
pub before_lock : {W : Type 0} → (now : ℕ) → Bytes → PeerConn → Bytes → Node W → Node W
before_lock now id peer [] node = record node {
  peers = insert id (record peer { active = false }) node.peers;
}
before_lock now id peer (c ∷ raw) node = elim (unframe (c ∷ raw)) [
  | none ↦ node
  | some message ↦ record node { peers = insert id (record peer { last_seen = now }) node.peers }
]

module _ {W : Type 0} ⦃sys : Sockets W⦄ where
  -- A call by a thread that does not hold the lock.
  unfoldable pub perform : Call → Node W → W → Option (Node W × W)
  perform (Call.add peer) node w = do node' ← add_peer false peer node; some (node', w)
  perform (Call.remove id) node w = remove_peer false id node w
  perform (Call.send id type payload) node w = do
    (sent, w') ← send_to_peer false id type payload node w
    some (node, w')
  perform (Call.broadcast_to_all type payload) node w = do
    (count, w') ← broadcast false type payload node w
    some (node, w')
  perform Call.clear node w = some (record node { peers = [] }, close_all node.peers w)

module _ {W : Type 0} ⦃sys : Sockets W⦄ (clock : W → ℕ) where
  -- One round of `handlePeer`; the Boolean says whether the loop goes on.
  unfoldable pub serve_round : Bytes → Node W → W → Option (Bool × (Node W × W))
  serve_round id node w = elim (lookup id node.peers) [
    | none ↦ some (false, (node, w))
    | some peer ↦
        if not (node.running && peer.active)
        then some (false, (node, w))
        else let (raw, w') = recv_raw peer.fd w in handle_raw clock true id peer raw node w'
  ]

  -- One step of one thread. `halted` is the write to `running` with which `stop` begins.
  pub data Step (s : System W) : System W → Type 0 where
    begun :
        (i : ℕ) (p : Pc) → s.pc i ≡ Pc.idle → IsStart p → Step s (record s { pc = update s.pc i p })
    locked :
        (i : ℕ) (id : Bytes)
        → s.pc i ≡ Pc.detached id
        → s.owner ≡ none
        → Step s (record s { owner = some i; pc = update s.pc i (Pc.receiving id) })
    served :
        (i : ℕ) (id : Bytes) (node : Node W) (w : W)
        → s.pc i ≡ Pc.receiving id
        → serve_round id s.node s.world ≡ some (true, (node, w))
        → Step s (record s { node = node; world = w })
    released :
        (i : ℕ) (id : Bytes) (node : Node W) (w : W)
        → s.pc i ≡ Pc.receiving id
        → serve_round id s.node s.world ≡ some (false, (node, w))
        → Step s (record { node = node; world = w; owner = none; pc = update s.pc i Pc.idle })
    self_locked :
        (i : ℕ) (id : Bytes) (peer : PeerConn)
        → s.pc i ≡ Pc.receiving id
        → lookup id s.node.peers ≡ some peer
        → serve_round id s.node s.world ≡ none
        → Step s (record {
          node =
              let (raw, w) = recv_raw peer.fd s.world in before_lock (clock w) id peer raw s.node;
          world = (recv_raw peer.fd s.world).1;
          owner = s.owner;
          pc = update s.pc i (Pc.blocked id);
        })
    called :
        (i : ℕ) (call : Call) (calls : List Call) (node : Node W) (w : W)
        → s.pc i ≡ Pc.calling (call ∷ calls)
        → s.owner ≡ none
        → perform call s.node s.world ≡ some (node, w)
        → Step s
            (record { node = node; world = w; owner = none; pc = update s.pc i (Pc.calling calls) })
    halted : Step s (record s { node = record s.node { running = false } })

  -- The states that a node reaches from its start, before any of its threads has begun.
  pub data Reach (node : Node W) (w : W) : System W → Type 0 where
    start : Reach node w (record { node = node; world = w; owner = none; pc = λ _. Pc.idle })
    later : {s t : System W} → Reach node w s → Step s t → Reach node w t

  -- Any number of steps.
  pub data Steps (s : System W) : System W → Type 0 where
    stay : Steps s s
    go : {t u : System W} → Steps s t → Step t u → Steps s u
