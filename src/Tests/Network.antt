-- ===== src/Tests/Network.antt =====
-- src/network/node.cpp: the theorems over a system with one connection, whose state is what was sent
-- and what waits.
use rex_coin.Base.{
  ℕ, ◌≡◌, ◌≢◌, ◌≤◌, ◌<◌, ◌+◌, refl, Bool, true, false, eqb_refl, Option, none, some, [], ◌∷◌, ◌++◌,
  codes, arith, Bytes, length, take, drop, ltb, if◌then◌else◌, inl,
}
use rex_coin.Base.Text.{eqb}
use rex_coin.Base.Int.{ℤ, pos}
use rex_coin.Dict.{lookup, insert}
use rex_coin.Crypto.Sha256.Digest.{sha256_hasher}
use rex_coin.Network.Frame.{make_peer_id, resize, length_bytes, frame, unframe}
use rex_coin.Network.Frame.RoundTrip.{IsType}
use rex_coin.Network.Socket.{Sockets, send_loop, send_raw, recv_raw}
use rex_coin.Network.Socket.Transmit.{Sent, send_raw-Sent, recv_raw-frame, transmit}
use rex_coin.Network.Node.{
  PeerConn, Node, lock, new_node, start_node, add_peer, send_to_peer, accept_peer, version_text,
}
use rex_coin.Network.Node.Threads.{Pc, System, update, Step, Steps, Reach}
use rex_coin.Network.Node.Threads.Standstill.{StandsStill, receiving-StandsStill}
use rex_coin.Network.Node.Table.{IsTable}
use rex_coin.Network.Node.Steps.{Run, made, started, accepted, Run-IsTable}

abbrev Stream : Type 0
Stream = Bytes × Bytes

-- A system that takes one byte in each call.
instance slow_sockets : Sockets Stream
slow_sockets = record {
  send = one;
  recv = λ fd n w. (take n w.1, (w.0, drop n w.1));
  close = λ fd w. w;
  outgoing = λ fd w. w.0;
  incoming = λ fd w. w.1;
  send_taken = one_taken;
  send_failed = one_failed;
  recv_all = λ fd n w h. (refl, refl);
}
  where
    one : ℤ → Bytes → Stream → Option ℕ × Stream
    one fd [] w = (none, w)
    one fd (c ∷ s) w = (some 1, (w.0 ++ c ∷ [], w.1))

    one_taken :
        (fd : ℤ) (s : Bytes) (w : Stream) (n : ℕ)
        → (one fd s w).0 ≡ some n
        → (0 < n) × (n ≤ length s) × ((one fd s w).1.0 ≡ w.0 ++ take n s)
    one_taken fd [] w n e = absurd (cc e)
    one_taken fd (c ∷ s) w n e = let n1 : 1 ≡ n = cc e in rw (← n1) (omega arith, omega arith, refl)

    one_failed : (fd : ℤ) (s : Bytes) (w : Stream) → (one fd s w).0 ≡ none → (one fd s w).1.0 ≡ w.0
    one_failed fd [] w e = refl
    one_failed fd (c ∷ s) w e = absurd (cc e)

ping-IsType : IsType (codes "PING")
ping-IsType = record { short = omega arith; unpadded = λ e. absurd (cc e) }

abbrev fresh : Stream
fresh = ([], [])

send_raw-Sent_example :
    Sent {W = Stream}
      (pos 5)
      (codes "abc")
      fresh
      (send_raw {W = Stream} (pos 5) (codes "abc") fresh)
send_raw-Sent_example = send_raw-Sent {W = Stream} (pos 5) (codes "abc") fresh

abbrev waiting : Stream
waiting = ([], frame (codes "PING") (codes "17") ++ codes "more")

recv_raw-frame_example :
    if ltb 4194304 (16 + length (codes "17"))
    then (recv_raw {W = Stream} (pos 5) waiting).0 ≡ []
    else ((unframe (recv_raw {W = Stream} (pos 5) waiting).0 ≡ some (codes "PING", codes "17"))
        × (slow_sockets.incoming (pos 5) (recv_raw {W = Stream} (pos 5) waiting).1 ≡ codes "more"))
unfolding slow_sockets frame
recv_raw-frame_example =
    recv_raw-frame {W = Stream} (pos 5) (codes "PING") (codes "17") (codes "more") waiting
      ping-IsType (omega arith) refl

-- The end of a connection that sends, once it has sent, and the other end, where all of it waits.
abbrev sent : Bool × Stream
sent = send_raw {W = Stream} (pos 5) (frame (codes "PING") (codes "17")) fresh

abbrev arrived : Stream
arrived = ([], slow_sockets.outgoing (pos 5) sent.1)

transmit_example :
    (unframe (recv_raw {W = Stream} (pos 6) arrived).0 ≡ some (codes "PING", codes "17"))
    × (slow_sockets.incoming (pos 6) (recv_raw {W = Stream} (pos 6) arrived).1 ≡ [])
unfolding slow_sockets send_raw send_loop frame resize length_bytes
transmit_example =
    transmit {W = Stream} (pos 5) (pos 6) (codes "PING") (codes "17") fresh arrived ping-IsType
      (omega arith) refl refl refl

abbrev peer : PeerConn
peer = record {
  fd = pos 5;
  ip = codes "10.0.0.2";
  port = 8333;
  node_id = codes "peer";
  outbound = true;
  last_seen = 0;
  active = true;
}

abbrev node : Node Stream
node = record {
  listen_ip = codes "0.0.0.0";
  listen_port = 8333;
  node_id = codes "own";
  running = true;
  peers = (codes "peer", peer) ∷ [];
  msg_handler = none;
}

-- The thread of the peer has begun and taken the lock.
abbrev receiving_system : System Stream
receiving_system = record {
  node = node;
  world = fresh;
  owner = some 0;
  pc =
      update (update (λ _. Pc.idle) 0 (Pc.detached (codes "peer"))) 0 (Pc.receiving (codes "peer"));
}

receiving_reached : Reach {W = Stream} (λ w. 0) node fresh receiving_system
unfolding update
receiving_reached =
    Reach.later (Reach.later Reach.start (Step.begun 0 (Pc.detached (codes "peer")) refl tt))
      (Step.locked 0 (codes "peer") refl refl)

receiving-StandsStill_example :
    ((t : System Stream) × Step {W = Stream} (λ w. 0) receiving_system t
      × (t.pc 0 ≢ receiving_system.pc 0))
    × ((t u : System Stream)
        → Step {W = Stream} (λ w. 0) receiving_system t
        → t.pc 0 ≢ receiving_system.pc 0
        → Steps {W = Stream} (λ w. 0) t u
        → StandsStill t u)
unfolding slow_sockets lookup eqb recv_raw update
receiving-StandsStill_example =
    receiving-StandsStill {W = Stream} (λ w. 0) 0 (codes "peer") peer receiving_system refl refl
      refl refl (inl refl) node fresh receiving_reached

-- A node that has started and accepted a connection, on which a message waits.
abbrev quiet : Node Stream
quiet = new_node (codes "0.0.0.0") 8333

abbrev live : Node Stream
live = (start_node {W = Stream} (λ port w. (true, w)) quiet waiting).1.0

abbrev joined : Node Stream × Stream
joined = (
  record live {
    peers =
        (
          make_peer_id (codes "10.0.0.2") 4000,
          record {
            fd = pos 5;
            ip = codes "10.0.0.2";
            port = 4000;
            node_id = make_peer_id (codes "10.0.0.2") 4000;
            outbound = false;
            last_seen = 0;
            active = true;
          },
        )
        ∷ [];
  },
  (send_raw {W = Stream} (pos 5) (frame (codes "VERSION") (version_text live.node_id)) waiting).1,
)

joins : accept_peer {W = Stream} (λ w. 0) (pos 5) (codes "10.0.0.2") 4000 live waiting ≡ some joined
unfolding accept_peer add_peer lock send_to_peer insert lookup start_node new_node
joins = rw (eqb_refl (make_peer_id (codes "10.0.0.2") 4000)) refl

Run-joined : Run {W = Stream} (λ w. 0) joined.0 joined.1
unfolding start_node
Run-joined =
    accepted (pos 5) (codes "10.0.0.2") 4000 live joined.0 waiting joined.1
      (started (λ port w. (true, w)) true quiet live waiting waiting
        (made (codes "0.0.0.0") 8333 waiting) refl)
      joins

Run-IsTable_example : IsTable joined.0.peers
Run-IsTable_example = Run-IsTable (λ (w : Stream). 0) joined.0 joined.1 Run-joined
