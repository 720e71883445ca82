-- ===== src/Network/Node/Broadcast.antt =====
-- src/network/node.cpp, `Node::broadcast`: what each peer gets.
use rex_coin.Base.{
  ℕ, zero, suc, ◌≡◌, ◌≢◌, refl, sym, ap, ◌∙◌, ◌⊎◌, inl, inr, Bool, true, false, some, List, [], ◌∷◌,
  All, if◌then◌else◌, Bytes, length, drop, Bool-cases, Option-cases,
}
use rex_coin.Base.Int.{ℤ}
use rex_coin.Dict.{Dict}
use rex_coin.Network.Frame.{frame}
use rex_coin.Network.Socket.{Sockets, send_loop, send_raw}
use rex_coin.Network.Socket.Transmit.{FailedOn, Sent, send_raw-Sent}
use rex_coin.Network.Node.{PeerConn, Node, lock, broadcast_loop, broadcast}

-- The connections of a table are distinct.
abbrev pub IsApart : Dict PeerConn → Type 0
IsApart [] = Unit {0}
IsApart ((id, p) ∷ peers) = All (λ (e : Bytes × PeerConn). e.1.fd ≢ p.fd) peers × IsApart peers

abbrev pub trues : List Bool → ℕ
trues [] = 0
trues (sent ∷ flags) = if sent then suc (trues flags) else trues flags

module _ {W : Type 0} ⦃sys : Sockets W⦄ where
  -- A peer that is active has been sent the message, or a part of it where `send` has failed on the
  -- rest, any other nothing.
  abbrev pub Received : Bytes → W → W → PeerConn → Bool → Type 0
  Received msg w w' p sent =
      ((p.active ≡ true) × Sent p.fd msg w (sent, w'))
      ⊎ ((p.active ≡ false) × (sent ≡ false) × (sys.outgoing p.fd w' ≡ sys.outgoing p.fd w))

  abbrev pub AllReceived : Bytes → W → W → Dict PeerConn → List Bool → Type 0
  AllReceived msg w w' [] [] = Unit {0}
  AllReceived msg w w' [] (sent ∷ flags) = ⊥
  AllReceived msg w w' (e ∷ peers) [] = ⊥
  AllReceived msg w w' ((id, p) ∷ peers) (sent ∷ flags) =
      Received msg w w' p sent × AllReceived msg w w' peers flags

  -- A call of `send` writes to no other connection.
  module _
      (apart : (fd other : ℤ) (s : Bytes) (w : W)
        → other ≢ fd
        → sys.outgoing other (sys.send fd s w).1 ≡ sys.outgoing other w) where
    send_loop-other :
        (fuel : ℕ) (fd other : ℤ) (s : Bytes) (w : W)
        → other ≢ fd
        → sys.outgoing other (send_loop fuel fd s w).1 ≡ sys.outgoing other w
    unfolding send_loop
    send_loop-other fuel fd other [] w ne = refl
    send_loop-other zero fd other (c ∷ s) w ne = refl
    send_loop-other (suc fuel) fd other (c ∷ s) w ne =
        elim (Option-cases (sys.send fd (c ∷ s) w).0) [
          | inl failed ↦ rw (send_loop, failed) (apart fd other (c ∷ s) w ne)
          | inr (n, taken) ↦
              rw (send_loop, taken)
                (send_loop-other fuel fd other (drop n (c ∷ s)) (sys.send fd (c ∷ s) w).1 ne
                  ∙ apart fd other (c ∷ s) w ne)
        ]

    abbrev one_peer : Bytes → PeerConn → W → Bool × W
    one_peer msg p w = if p.active then send_raw p.fd msg w else (false, w)

    one_peer-other :
        (msg : Bytes) (p : PeerConn) (other : ℤ) (w : W)
        → other ≢ p.fd
        → sys.outgoing other (one_peer msg p w).1 ≡ sys.outgoing other w
    unfolding send_raw
    one_peer-other msg p other w ne = elim (Bool-cases p.active) [
      | inl on ↦ rw on (send_loop-other (length msg) p.fd other msg w ne)
      | inr off ↦ rw off refl
    ]

    one_peer-Received :
        (msg : Bytes) (p : PeerConn) (w : W)
        → Received msg w (one_peer msg p w).1 p (one_peer msg p w).0
    one_peer-Received msg p w = elim (Bool-cases p.active) [
      | inl on ↦ inl (on, rw on (send_raw-Sent p.fd msg w))
      | inr off ↦ inr (off, rw off refl, rw off refl)
    ]

    broadcast_loop-other :
        (msg : Bytes) (peers : Dict PeerConn) (other : ℤ) (w : W)
        → All (λ (e : Bytes × PeerConn). e.1.fd ≢ other) peers
        → sys.outgoing other (broadcast_loop msg peers w).1 ≡ sys.outgoing other w
    unfolding broadcast_loop
    broadcast_loop-other msg [] other w all = refl
    broadcast_loop-other msg ((id, p) ∷ peers) other w all =
        broadcast_loop-other msg peers other (one_peer msg p w).1 all.1
        ∙ one_peer-other msg p other w (λ e. all.0 (sym e))

    Received-same :
        (msg : Bytes) (p : PeerConn) (sent : Bool) (w0 w w' w2 : W)
        → sys.outgoing p.fd w ≡ sys.outgoing p.fd w0
        → sys.outgoing p.fd w2 ≡ sys.outgoing p.fd w'
        → Received msg w w' p sent
        → Received msg w0 w2 p sent
    Received-same msg p sent w0 w w' w2 before after (inl (on, inl (all, out))) =
        inl (on, inl (all, rw (← before) (after ∙ out)))
    Received-same msg p sent w0 w w' w2 before after (inl (on, inr (part, (k, lt, out, stop)))) =
        let stop' : FailedOn p.fd (drop k msg) w2 = record {
          world = stop.world;
          taken = stop.taken ∙ sym after;
          failed = stop.failed;
        } in
        inl (on, inr (part, (k, lt, rw (← before) (after ∙ out), stop')))
    Received-same msg p sent w0 w w' w2 before after (inr (off, none_sent, out)) =
        inr (off, none_sent, after ∙ out ∙ before)

    AllReceived-same :
        (msg : Bytes) (peers : Dict PeerConn) (flags : List Bool) (w0 w w' : W) (fd : ℤ)
        → All (λ (e : Bytes × PeerConn). e.1.fd ≢ fd) peers
        → ((other : ℤ) → other ≢ fd → sys.outgoing other w ≡ sys.outgoing other w0)
        → AllReceived msg w w' peers flags
        → AllReceived msg w0 w' peers flags
    AllReceived-same msg [] [] w0 w w' fd all same r = tt
    AllReceived-same msg [] (sent ∷ flags) w0 w w' fd all same r = absurd r
    AllReceived-same msg (e ∷ peers) [] w0 w w' fd all same r = absurd r
    AllReceived-same msg ((id, p) ∷ peers) (sent ∷ flags) w0 w w' fd all same r = (
      Received-same msg p sent w0 w w' w' (same p.fd all.0) refl r.0,
      AllReceived-same msg peers flags w0 w w' fd all.1 same r.1,
    )

    broadcast_loop-AllReceived :
        (msg : Bytes) (peers : Dict PeerConn) (w : W)
        → IsApart peers
        → (flags : List Bool) × AllReceived msg w (broadcast_loop msg peers w).1 peers flags
          × ((broadcast_loop msg peers w).0 ≡ trues flags)
    unfolding broadcast_loop
    broadcast_loop-AllReceived msg [] w distinct = ([], tt, refl)
    broadcast_loop-AllReceived msg ((id, p) ∷ peers) w distinct =
        let one = one_peer msg p w in
        let (flags, rest, counted) = broadcast_loop-AllReceived msg peers one.1 distinct.1 in
        (
          one.0 ∷ flags,
          (
            Received-same msg p one.0 w w one.1 (broadcast_loop msg peers one.1).1 refl
                (broadcast_loop-other msg peers p.fd one.1 distinct.0) (one_peer-Received msg p w),
            AllReceived-same msg peers flags w one.1 (broadcast_loop msg peers one.1).1 p.fd
                distinct.0 (λ other ne. one_peer-other msg p other w ne) rest,
          ),
          ap (λ n. if one.0 then suc n else n) counted,
        )

    -- Where the connections of the peers are distinct and `send` writes to its own connection only:
    -- `broadcast` without the lock held sends the frame to each active peer, whole unless `send` fails
    -- on what is left to send to that peer, where a shorter part has been sent; it sends nothing to any
    -- other peer; and it counts the peers that were sent all of it.
    pub broadcast-AllReceived :
        (type payload : Bytes) (node : Node W) (w : W)
        → IsApart node.peers
        → (count : ℕ) × (w' : W) × (flags : List Bool) × (broadcast false type payload node w
            ≡ some (count, w'))
          × AllReceived (frame type payload) w w' node.peers flags
          × (count ≡ trues flags)
    unfolding broadcast lock
    broadcast-AllReceived type payload node w distinct =
        let (flags, got, counted) =
          broadcast_loop-AllReceived (frame type payload) node.peers w distinct in
        (_, _, flags, refl, got, counted)
