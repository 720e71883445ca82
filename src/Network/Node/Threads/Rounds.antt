-- ===== src/Network/Node/Threads/Rounds.antt =====
-- src/network/node.cpp: the loop of `handlePeer` makes the rounds that the threads take as steps.
use rex_coin.Base.{
  ℕ, suc, ◌≡◌, refl, inl, inr, true, false, not, ◌&&◌, none, some, Bool-cases, Option-cases, Bytes,
}
use rex_coin.Dict.{lookup}
use rex_coin.Network.Socket.{Sockets}
use rex_coin.Network.Node.{Node, handle_peer}
use rex_coin.Network.Node.Threads.{serve_round}

module _ {W : Type 0} ⦃sys : Sockets W⦄ (clock : W → ℕ) where
  handle_peer-serve_round :
      (rounds : ℕ) (id : Bytes) (node : Node W) (w : W)
      → handle_peer clock (suc rounds) true id node w ≡ elim (serve_round clock id node w) [
        | none ↦ none
        | some (more, (node', w')) ↦ elim more [
          | true ↦ handle_peer clock rounds true id node' w'
          | false ↦ some (node', w')
        ]
      ]
  unfolding handle_peer serve_round
  handle_peer-serve_round rounds id node w = elim (Option-cases (lookup id node.peers)) [
    | inl e ↦ rw (handle_peer, serve_round, e) refl
    | inr (peer, e) ↦ elim (Bool-cases (not (node.running && peer.active))) [
      | inl over ↦ rw (handle_peer, serve_round, e, over) refl
      | inr more ↦ rw (handle_peer, serve_round, e, more) refl
    ]
  ]
