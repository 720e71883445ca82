-- ===== src/Layer2/Lightning/Named.antt =====
-- src/layer2/lightning.cpp: `addChannel` between nodes with names keeps the names of the graph.
use rex_coin.Base.{◌≡◌, ◌≢◌, inl, inr, true, List, [], ◌∷◌, ◌++◌, Bytes, eqb, Bool-cases}
use rex_coin.Dict.{Dict, lookup, insert, lookup-insert}
use rex_coin.Layer2.Lightning.{LightningNetwork, neighbours, add_neighbour, add_channel}
use rex_coin.Layer2.Lightning.Routes.{listed}
use rex_coin.Layer2.Lightning.Walks.{IsNamed}
use rex_coin.Layer2.Lightning.Queues.{listed-append_or}

pub bare-IsNamed : IsNamed []
unfolding neighbours lookup listed
bare-IsNamed v w l = absurd (cc l)

module _ (graph : Dict (List Bytes)) (named : IsNamed graph) where
  neighbours-insert :
      (node v w : Bytes) (nodes : List Bytes)
      → ((x : Bytes) → listed x nodes ≡ true → x ≢ [])
      → listed w (neighbours v (insert node nodes graph)) ≡ true
      → w ≢ []
  unfolding neighbours
  neighbours-insert node v w nodes all l = elim (Bool-cases (eqb node v)) [
    | inl same ↦ all w (rw (neighbours, lookup-insert node v nodes graph, same) at l)
    | inr other ↦ named v w (rw (neighbours, lookup-insert node v nodes graph, other) at l)
  ]

  add_neighbour-IsNamed :
      (node other : Bytes) → other ≢ [] → IsNamed (add_neighbour node other graph)
  unfolding add_neighbour
  add_neighbour-IsNamed node other ne v w l =
      neighbours-insert node v w (neighbours node graph ++ other ∷ [])
        (λ x h. elim (listed-append_or x other (neighbours node graph) h) [
          | inl old ↦ named node x old
          | inr new ↦ rw new ne
        ])
        l

pub add_channel-IsNamed :
    (channel_id node_a node_b : Bytes) (net : LightningNetwork)
    → node_a ≢ []
    → node_b ≢ []
    → IsNamed net.graph
    → IsNamed (add_channel channel_id node_a node_b net).graph
unfolding add_channel
add_channel-IsNamed channel_id node_a node_b net ne_a ne_b named =
    add_neighbour-IsNamed (add_neighbour node_a node_b net.graph)
      (add_neighbour-IsNamed net.graph named node_a node_b ne_b) node_b node_a ne_a
