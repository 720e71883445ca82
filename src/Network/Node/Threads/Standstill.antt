-- ===== src/Network/Node/Threads/Standstill.antt =====
-- src/network/node.cpp: a thread that waits for its own lock stops all others.
use rex_coin.Base.{
  ℕ, ◌≡◌, ◌≢◌, refl, sym, ◌∙◌, inl, inr, true, ◌&&◌, ◌==◌, ==_iff, none, some, Bool-cases, Bytes,
}
use rex_coin.Dict.{lookup}
use rex_coin.Network.Socket.{Sockets, recv_raw}
use rex_coin.Network.Node.{PeerConn, Node}
use rex_coin.Network.Node.Deadlock.{NeedsLock, handle_raw-none}
use rex_coin.Network.Node.Threads.{Pc, System, update, serve_round, Step, Reach, Steps}
use rex_coin.Network.Node.Threads.Exclusion.{
  IsExclusive, update_ne, update_self, update-cases, Step-IsExclusive, Reach-IsExclusive,
}

module _ {W : Type 0} where
  -- Nothing is sent or received, no peer comes or goes, and no thread that has begun moves.
  pub record StandsStill (s t : System W) : Type 0 where
    pub same_peers : t.node.peers ≡ s.node.peers
    pub same_world : t.world ≡ s.world
    pub same_pc : (j : ℕ) → s.pc j ≢ Pc.idle → t.pc j ≡ s.pc j

module _ {W : Type 0} ⦃sys : Sockets W⦄ (clock : W → ℕ) where
  -- The owner of the lock is the only thread that can move, where it neither waits for the lock.
  module _ (i : ℕ) (id : Bytes) (s : System W) (h : IsExclusive s)
      (b : s.pc i ≡ Pc.blocked id) where
    blocked-owner : s.owner ≡ some i
    blocked-owner = h i (rw b refl)

    none_receives : (k : ℕ) (id' : Bytes) → s.pc k ≡ Pc.receiving id' → ⊥
    none_receives k id' e =
        let own : s.owner ≡ some k = h k (rw e refl) in
        let same : i ≡ k = let o = blocked-owner in cc in cc

    Step-StandsStill : {t : System W} → Step clock s t → StandsStill s t
    Step-StandsStill (Step.begun k p e start) = record {
      same_peers = refl;
      same_world = refl;
      same_pc =
          update-cases s.pc k p (λ j q. s.pc j ≢ Pc.idle → q ≡ s.pc j) (λ ne. absurd (ne e))
            (λ j other ne. refl);
    }
    Step-StandsStill (Step.locked k id' e free) = absurd (let o = blocked-owner in cc)
    Step-StandsStill (Step.served k id' node w e r) = absurd (none_receives k id' e)
    Step-StandsStill (Step.released k id' node w e r) = absurd (none_receives k id' e)
    Step-StandsStill (Step.self_locked k id' peer e known r) = absurd (none_receives k id' e)
    Step-StandsStill (Step.called k call calls node w e free r) =
        absurd (let o = blocked-owner in cc)
    Step-StandsStill Step.halted = record {
      same_peers = refl;
      same_world = refl;
      same_pc = λ j ne. refl;
    }

  Steps-IsExclusive : {s t : System W} → IsExclusive s → Steps clock s t → IsExclusive t
  Steps-IsExclusive h Steps.stay = h
  Steps-IsExclusive h (Steps.go steps step) =
      Step-IsExclusive clock (Steps-IsExclusive h steps) step

  Steps-StandsStill :
      (i : ℕ) (id : Bytes) {s t : System W}
      → IsExclusive s
      → s.pc i ≡ Pc.blocked id
      → Steps clock s t
      → StandsStill s t
  Steps-StandsStill i id h b Steps.stay = record {
    same_peers = refl;
    same_world = refl;
    same_pc = λ j ne. refl;
  }
  Steps-StandsStill i id {s = s} h b (Steps.go {t = t} {u = u} steps step) =
      let before = Steps-StandsStill i id h b steps in
      let b' : t.pc i ≡ Pc.blocked id = before.same_pc i (λ e. absurd (cc)) ∙ b in
      let after = Step-StandsStill i id t (Steps-IsExclusive h steps) b' step in
      record {
        same_peers = after.same_peers ∙ before.same_peers;
        same_world = after.same_world ∙ before.same_world;
        same_pc =
            λ j ne. after.same_pc j (λ e. ne (sym (before.same_pc j ne) ∙ e)) ∙ before.same_pc j ne;
      }

  module _ (i : ℕ) (id : Bytes) (peer : PeerConn) (s : System W) (e : s.pc i ≡ Pc.receiving id)
      (known : lookup id s.node.peers ≡ some peer) (running : s.node.running ≡ true)
      (active : peer.active ≡ true) (needs : NeedsLock (recv_raw peer.fd s.world).0) where
    serve_round-none : serve_round clock id s.node s.world ≡ none
    unfolding serve_round
    serve_round-none =
        let go : (s.node.running && peer.active) ≡ true = rw (running, active) refl in
        let (raw, w') = recv_raw peer.fd s.world in
        rw (serve_round, known, go) (handle_raw-none clock id peer raw s.node w' needs)

    moved_by :
        (k : ℕ) (p : Pc)
        → (i ≡ k → p ≡ Pc.blocked id)
        → update s.pc k p i ≢ s.pc i
        → update s.pc k p i ≡ Pc.blocked id
    moved_by k p own moved = elim (Bool-cases (i == k)) [
      | inl same ↦ let same' = (==_iff i k).0 same in rw (same', update_self) (own same')
      | inr other ↦ absurd (moved (update_ne s.pc k p i other))
    ]

    moved-blocked : {t : System W} → Step clock s t → t.pc i ≢ s.pc i → t.pc i ≡ Pc.blocked id
    moved-blocked (Step.begun k p idle start) = moved_by k p (λ same. absurd (cc))
    moved-blocked (Step.locked k id' waits free) =
        moved_by k (Pc.receiving id') (λ same. absurd (cc))
    moved-blocked (Step.served k id' node w e' r) = λ moved. absurd (moved refl)
    moved-blocked (Step.released k id' node w e' r) =
        moved_by k Pc.idle
          (λ same. let e'' : id' ≡ id = cc in absurd (let none' = serve_round-none in cc))
    moved-blocked (Step.self_locked k id' peer' e' known' r) =
        moved_by k (Pc.blocked id') (λ same. cc)
    moved-blocked (Step.called k call calls node w e' free r) =
        moved_by k (Pc.calling calls) (λ same. absurd (cc))
    moved-blocked Step.halted = λ moved. absurd (moved refl)

    -- In every state that a node reaches from its start, with its threads interleaved in any order: a
    -- thread that receives from an active peer of the running node, and reads a lost connection, a
    -- PING, a VERSION or a GETADDR, can go on; but once it has, the node stands still for ever:
    -- nothing is sent or received, no peer comes or goes, and no thread that has begun moves.
    pub receiving-StandsStill :
        (node : Node W) (w : W)
        → Reach clock node w s
        → ((t : System W) × Step clock s t × (t.pc i ≢ s.pc i))
          × ((t u : System W)
              → Step clock s t
              → t.pc i ≢ s.pc i
              → Steps clock t u
              → StandsStill t u)
    receiving-StandsStill node w reach =
        let h = Reach-IsExclusive clock reach in
        (
          (
            _,
            Step.self_locked i id peer e known serve_round-none,
            λ same. absurd (let b = update_self s.pc i (Pc.blocked id) in cc),
          ),
          λ t u step moved steps.
              Steps-StandsStill i id (Step-IsExclusive clock h step) (moved-blocked step moved)
                steps,
        )
