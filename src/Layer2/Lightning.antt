-- ===== src/Layer2/Lightning.antt =====
-- src/layer2/lightning.h and src/layer2/lightning.cpp. The search takes one unit of fuel for each node
-- that it takes from the queue; the way back takes one for each node that has been reached.
pub mod Routes
pub mod Fuel
pub mod Walks
pub mod Queues
pub mod Depths
pub mod Visits
pub mod Fronts
pub mod Shortest
pub mod Named
use rex_coin.Base.{
  ℕ, zero, suc, ◌+◌, ◌-◌, ◌*◌, Bool, true, false, Option, none, some, List, [], ◌∷◌, ◌++◌, ltb,
  length, if◌then◌else◌, Bytes, eqb,
}
use rex_coin.Dict.{Dict, lookup, insert, contains}

-- `class LightningNetwork`
pub record LightningNetwork : Type 0 where
  pub graph : Dict (List Bytes)
  pub channel_map : Dict Bytes

-- `struct Route`; the code leaves the fee of an empty route unset, here it is 0.
pub record Route : Type 0 where
  pub hops : List Bytes
  pub total_fee : ℕ

-- `LightningNetwork::registerNode`
pub register_node : Bytes → LightningNetwork → LightningNetwork
register_node addr net =
    if contains addr net.graph then net else record net { graph = insert addr [] net.graph }

-- What stands at a node of the graph.
unfoldable pub neighbours : Bytes → Dict (List Bytes) → List Bytes
neighbours node graph = elim (lookup node graph) [ none ↦ [] | some nodes ↦ nodes ]

-- `graph[node].push_back(other);`
unfoldable pub add_neighbour : Bytes → Bytes → Dict (List Bytes) → Dict (List Bytes)
add_neighbour node other graph = insert node (neighbours node graph ++ other ∷ []) graph

-- `LightningNetwork::addChannel`
unfoldable pub add_channel : Bytes → Bytes → Bytes → LightningNetwork → LightningNetwork
add_channel channel_id node_a node_b net = record {
  graph = add_neighbour node_b node_a (add_neighbour node_a node_b net.graph);
  channel_map =
      insert (node_b ++ node_a) channel_id (insert (node_a ++ node_b) channel_id net.channel_map);
}

-- `if (parent.find(nb) == parent.end()) { parent[nb] = cur; q.push(nb); }`
unfoldable pub reach : Bytes → Bytes → Dict Bytes × List Bytes → Dict Bytes × List Bytes
reach cur nb (parent, q) =
    if contains nb parent then (parent, q) else (insert nb cur parent, q ++ nb ∷ [])

-- `for (const auto& nb : it->second)`
unfoldable pub visit : Bytes → List Bytes → Dict Bytes × List Bytes → Dict Bytes × List Bytes
visit cur [] found = found
visit cur (nb ∷ nodes) found = visit cur nodes (reach cur nb found)

-- `while (!q.empty())`: the parents.
unfoldable pub search : ℕ → Dict (List Bytes) → Bytes → Dict Bytes × List Bytes → Dict Bytes
search fuel graph to (parent, []) = parent
search zero graph to (parent, cur ∷ q) = parent
search (suc fuel) graph to (parent, cur ∷ q) = elim (eqb cur to) [
  | true ↦ parent
  | false ↦ search fuel graph to (visit cur (neighbours cur graph) (parent, q))
]

-- `for (std::string cur = to; !cur.empty(); cur = parent[cur])`
unfoldable pub way_back : ℕ → Dict Bytes → Bytes → List Bytes → List Bytes
way_back fuel parent [] hops = hops
way_back zero parent (c ∷ cur) hops = hops
way_back (suc fuel) parent (c ∷ cur) hops =
    let next : Bytes = elim (lookup (c ∷ cur) parent) [ none ↦ [] | some node ↦ node ] in
    way_back fuel parent next ((c ∷ cur) ∷ hops)

-- The neighbours of all nodes, counted.
unfoldable pub entries : Dict (List Bytes) → ℕ
entries [] = 0
entries ((node, nodes) ∷ graph) = length nodes + entries graph

-- `LightningNetwork::findRoute`
unfoldable pub find_route : Bytes → Bytes → LightningNetwork → Route
find_route from to net =
    let parent = search (suc (entries net.graph)) net.graph to ((from, []) ∷ [], from ∷ []) in
    if contains to parent
    then (let hops = way_back (suc (length parent)) parent to [] in
        record {
          hops = hops;
          total_fee = if ltb 2 (length hops) then (length hops - 2) * 10 else 0;
        })
    else record { hops = []; total_fee = 0 }

-- `LightningNetwork::sendPayment`
unfoldable pub send_payment : Bytes → Bytes → ℕ → LightningNetwork → Bool
send_payment from to amount net = ltb 0 (length (find_route from to net).hops)
