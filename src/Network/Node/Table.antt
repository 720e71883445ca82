-- ===== src/Network/Node/Table.antt =====
-- src/network/node.cpp: the table of the peers, over the operations that change it.
use rex_coin.Base.{
  ℕ, zero, suc, ◌≡◌, sym, ◌∙◌, inl, inr, Bool, true, false, not, ◌&&◌, Option, none, some, [], ◌∷◌,
  All, Bytes, eqb_iff, Bool-cases, Option-cases,
}
use rex_coin.Base.Text.{eqb}
use rex_coin.Dict.{Dict, lookup, insert, erase, NodupKeys, NodupKeys-insert, NodupKeys-erase}
use rex_coin.Network.Frame.{unframe}
use rex_coin.Network.Socket.{Sockets, recv_raw}
use rex_coin.Network.Node.{PeerConn, Node, lock, remove_peer, stop, answer, handle_raw, handle_peer}

-- Each peer stands under its own id.
abbrev pub IsKeyed : Dict PeerConn → Type 0
IsKeyed peers = All (λ (e : Bytes × PeerConn). e.1.node_id ≡ e.0) peers

-- A table: the ids are distinct and each is that of its peer.
abbrev pub IsTable : Dict PeerConn → Type 0
IsTable peers = NodupKeys peers × IsKeyed peers

IsKeyed-insert :
    (id : Bytes) (p : PeerConn) (peers : Dict PeerConn)
    → p.node_id ≡ id
    → IsKeyed peers
    → IsKeyed (insert id p peers)
unfolding insert
IsKeyed-insert id p [] e h = (e, tt)
IsKeyed-insert id p ((j, q) ∷ peers) e h = elim (Bool-cases (eqb j id)) [
  | inl hit ↦ rw (insert, hit) (e ∙ sym ((eqb_iff j id).0 hit), h.1)
  | inr other ↦ rw (insert, other) (h.0, IsKeyed-insert id p peers e h.1)
]

IsKeyed-erase : (id : Bytes) (peers : Dict PeerConn) → IsKeyed peers → IsKeyed (erase id peers)
unfolding erase
IsKeyed-erase id [] h = tt
IsKeyed-erase id ((j, q) ∷ peers) h = elim (Bool-cases (eqb j id)) [
  | inl hit ↦ rw (erase, hit) h.1
  | inr other ↦ rw (erase, other) (h.0, IsKeyed-erase id peers h.1)
]

pub IsKeyed-lookup :
    (id : Bytes) (p : PeerConn) (peers : Dict PeerConn)
    → IsKeyed peers
    → lookup id peers ≡ some p
    → p.node_id ≡ id
unfolding lookup
IsKeyed-lookup id p [] h e = absurd (cc e)
IsKeyed-lookup id p ((j, q) ∷ peers) h e = elim (Bool-cases (eqb j id)) [
  | inl hit ↦ let same : q ≡ p = cc (rw (lookup, hit) at e) in cc (h.0, (eqb_iff j id).0 hit, same)
  | inr other ↦ IsKeyed-lookup id p peers h.1 (rw (lookup, other) at e)
]

pub IsTable-insert :
    (id : Bytes) (p : PeerConn) (peers : Dict PeerConn)
    → p.node_id ≡ id
    → IsTable peers
    → IsTable (insert id p peers)
IsTable-insert id p peers e h = (NodupKeys-insert id p peers h.0, IsKeyed-insert id p peers e h.1)

IsTable-erase : (id : Bytes) (peers : Dict PeerConn) → IsTable peers → IsTable (erase id peers)
IsTable-erase id peers h = (NodupKeys-erase id peers h.0, IsKeyed-erase id peers h.1)

-- The result of an operation that may block has a table.
abbrev pub HasTable : {W : Type 0} → Option (Node W × W) → Type 0
HasTable none = Unit {0}
HasTable (some (node, w)) = IsTable node.peers

module _ {W : Type 0} ⦃sys : Sockets W⦄ where
  pub remove_peer-IsTable :
      (held : Bool) (id : Bytes) (node : Node W) (w : W)
      → IsTable node.peers
      → HasTable (remove_peer held id node w)
  unfolding remove_peer lock
  remove_peer-IsTable true id node w h = tt
  remove_peer-IsTable false id node w h = elim (Option-cases (lookup id node.peers)) [
    | inl e ↦ rw (remove_peer, lock, e) h
    | inr (p, e) ↦ rw (remove_peer, lock, e) (IsTable-erase id node.peers h)
  ]

  pub stop-IsTable :
      (held : Bool) (node : Node W) (w : W) → IsTable node.peers → HasTable (stop held node w)
  unfolding stop lock
  stop-IsTable held node w h = elim (Bool-cases node.running) [
    | inl e ↦ elim (Bool-cases held) [
      | inl e' ↦ rw (stop, lock, e, e') tt
      | inr e' ↦ rw (stop, lock, e, e') (tt, tt)
    ]
    | inr e ↦ rw (stop, lock, e) h
  ]

-- The same for a result that carries one more value.
abbrev pub HasTableWith : {W : Type 0} → Option (Bool × (Node W × W)) → Type 0
HasTableWith none = Unit {0}
HasTableWith (some (b, (node, w))) = IsTable node.peers

module _ {W : Type 0} ⦃sys : Sockets W⦄ (clock : W → ℕ) where
  handle_raw-IsTable :
      (held : Bool) (id : Bytes) (peer : PeerConn) (raw : Bytes) (node : Node W) (w : W)
      → peer.node_id ≡ id
      → IsTable node.peers
      → HasTableWith (handle_raw clock held id peer raw node w)
  unfolding handle_raw
  handle_raw-IsTable held id peer [] node w e h =
      let gone : PeerConn = record peer { active = false } in
      let node' : Node W = record node { peers = insert id gone node.peers } in
      let kept =
        remove_peer-IsTable held peer.node_id node' w (IsTable-insert id gone node.peers e h) in
      elim (Option-cases (remove_peer held peer.node_id node' w)) [
        | inl stuck ↦ rw (handle_raw, stuck) tt
        | inr (r, done) ↦ rw (handle_raw, done) (rw done at kept)
      ]
  handle_raw-IsTable held id peer (c ∷ raw) node w e h =
      let seen : PeerConn = record peer { last_seen = clock w } in
      let node' : Node W = record node { peers = insert id seen node.peers } in
      elim (Option-cases (unframe (c ∷ raw))) [
        | inl bad ↦ rw (handle_raw, bad) h
        | inr ((type, payload), read) ↦
            elim (Option-cases (answer held peer type payload node' w)) [
              | inl stuck ↦ rw (handle_raw, read) (rw stuck tt)
              | inr (r, done) ↦
                  rw (handle_raw, read) (rw done (IsTable-insert id seen node.peers e h))
            ]
      ]

  pub handle_peer-IsTable :
      (rounds : ℕ) (held : Bool) (id : Bytes) (node : Node W) (w : W)
      → IsTable node.peers
      → HasTable (handle_peer clock rounds held id node w)
  unfolding handle_peer
  handle_peer-IsTable zero held id node w h = h
  handle_peer-IsTable (suc rounds) held id node w h = elim (Option-cases (lookup id node.peers)) [
    | inl e ↦ rw (handle_peer, e) h
    | inr (peer, e) ↦ elim (Bool-cases (not (node.running && peer.active))) [
      | inl over ↦ rw (handle_peer, e, over) h
      | inr going ↦
          let raw = (recv_raw peer.fd w).0 in
          let w' = (recv_raw peer.fd w).1 in
          let own = IsKeyed-lookup id peer node.peers h.1 e in
          let kept = handle_raw-IsTable held id peer raw node w' own h in
          elim (Option-cases (handle_raw clock held id peer raw node w')) [
            | inl stuck ↦ rw (handle_peer, e, going, stuck) tt
            | inr ((more, (node', w'')), done) ↦
                let kept' : IsTable node'.peers = rw done at kept in
                elim (Bool-cases more) [
                  | inl e' ↦
                      rw (handle_peer, e, going, done, e')
                        (handle_peer-IsTable rounds held id node' w'' kept')
                  | inr e' ↦ rw (handle_peer, e, going, done, e') kept'
                ]
          ]
    ]
  ]
