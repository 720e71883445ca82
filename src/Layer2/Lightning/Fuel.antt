-- ===== src/Layer2/Lightning/Fuel.antt =====
-- src/layer2/lightning.cpp: the route search ends.
use rex_coin.Base.{
  ℕ, zero, suc, ◌+◌, ◌≡◌, ◌≤◌, refl, inl, inr, true, false, List, [], ◌∷◌, arith, All, length,
  length-append, if◌then◌else◌, Bytes, eqb_iff, Bool-cases,
}
use rex_coin.Base.Text.{eqb}
use rex_coin.Dict.{Dict, lookup, insert, contains, lookup-insert_self, lookup-insert}
use rex_coin.Layer2.Lightning.{neighbours, reach, visit, search, entries}
use rex_coin.Layer2.Lightning.Routes.{listed, all_listed}

-- Whether a node has not been reached.
fresh : Dict Bytes → Bytes → ℕ
fresh parent k = if contains k parent then 0 else 1

-- The nodes of a list that have not been reached, and those of all lists.
missing : Dict Bytes → List Bytes → ℕ
missing parent [] = 0
missing parent (k ∷ nodes) = fresh parent k + missing parent nodes

pub unseen : Dict Bytes → Dict (List Bytes) → ℕ
unseen parent [] = 0
unseen parent ((node, nodes) ∷ graph) = missing parent nodes + unseen parent graph

fresh-le : (parent : Dict Bytes) (k : Bytes) → fresh parent k ≤ 1
unfolding fresh
fresh-le parent k = elim (Bool-cases (contains k parent)) [
  | inl e ↦ rw (fresh, e) (omega arith)
  | inr e ↦ rw (fresh, e) (omega arith)
]

module _ (k p : Bytes) (parent : Dict Bytes) where
  fresh-insert_self : fresh (insert k p parent) k ≡ 0
  unfolding fresh
  fresh-insert_self = rw (fresh, lookup-insert_self k p parent)

  fresh_new : contains k parent ≡ false → fresh parent k ≡ 1
  unfolding fresh
  fresh_new new = rw (fresh, new)

  fresh-insert : (j : Bytes) → fresh (insert k p parent) j ≤ fresh parent j
  unfolding fresh
  fresh-insert j = elim (Bool-cases (eqb k j)) [
    | inl same ↦ rw (fresh, lookup-insert k j p parent, same) (omega arith)
    | inr other ↦ rw (fresh, lookup-insert k j p parent, other) (omega arith)
  ]

  missing-insert : (nodes : List Bytes) → missing (insert k p parent) nodes ≤ missing parent nodes
  unfolding missing
  missing-insert [] = omega arith
  missing-insert (j ∷ nodes) =
      let h = fresh-insert j in let h' = missing-insert nodes in omega arith

  -- A node that was fresh is missed once less where it is listed.
  missing-insert_lt :
      (nodes : List Bytes)
      → contains k parent ≡ false
      → listed k nodes ≡ true
      → suc (missing (insert k p parent) nodes) ≤ missing parent nodes
  unfolding missing listed
  missing-insert_lt [] new h = absurd (cc h)
  missing-insert_lt (j ∷ nodes) new h = elim (Bool-cases (eqb k j)) [
    | inl same ↦
        let e : k ≡ j = (eqb_iff k j).0 same in
        let gone : fresh (insert k p parent) j ≡ 0 = rw (← e) fresh-insert_self in
        let was : fresh parent j ≡ 1 = rw (← e) (fresh_new new) in
        let rest = missing-insert nodes in omega arith
    | inr other ↦
        let rest = missing-insert_lt nodes new (rw (listed, other) at h) in
        let here = fresh-insert j in omega arith
  ]

  unseen-insert :
      (graph : Dict (List Bytes)) → unseen (insert k p parent) graph ≤ unseen parent graph
  unfolding unseen
  unseen-insert [] = omega arith
  unseen-insert ((node, nodes) ∷ graph) =
      let h = missing-insert nodes in let h' = unseen-insert graph in omega arith

  unseen-insert_lt :
      (cur : Bytes) (graph : Dict (List Bytes))
      → contains k parent ≡ false
      → listed k (neighbours cur graph) ≡ true
      → suc (unseen (insert k p parent) graph) ≤ unseen parent graph
  unfolding unseen neighbours lookup listed
  unseen-insert_lt cur [] new h = absurd (cc h)
  unseen-insert_lt cur ((node, nodes) ∷ graph) new h = elim (Bool-cases (eqb node cur)) [
    | inl here ↦
        let own : listed k nodes ≡ true = rw (neighbours, lookup, here) at h in
        let less = missing-insert_lt nodes new own in let rest = unseen-insert graph in omega arith
    | inr there ↦
        let own : listed k (neighbours cur graph) ≡ true = rw (neighbours, lookup, there) at h in
        let rest = unseen-insert_lt cur graph new own in
        let here = missing-insert nodes in omega arith
  ]

-- The queue and the nodes that have not been reached, together.
abbrev pub todo : Dict (List Bytes) → Dict Bytes × List Bytes → ℕ
todo graph found = length found.1 + unseen found.0 graph

reach-todo :
    (graph : Dict (List Bytes)) (cur nb : Bytes) (found : Dict Bytes × List Bytes)
    → listed nb (neighbours cur graph) ≡ true
    → todo graph (reach cur nb found) ≤ todo graph found
unfolding reach
reach-todo graph cur nb found edge = elim (Bool-cases (contains nb found.0)) [
  | inl known ↦ rw (reach, known) (omega arith)
  | inr new ↦
      let less = unseen-insert_lt nb cur found.0 cur graph new edge in
      let more = length-append found.1 (nb ∷ []) in rw (reach, new) (omega arith)
]

pub visit-todo :
    (graph : Dict (List Bytes)) (cur : Bytes) (nodes : List Bytes) (found : Dict Bytes × List Bytes)
    → All (λ nb. listed nb (neighbours cur graph) ≡ true) nodes
    → todo graph (visit cur nodes found) ≤ todo graph found
unfolding visit
visit-todo graph cur [] found edges = omega arith
visit-todo graph cur (nb ∷ nodes) found edges =
    let one = reach-todo graph cur nb found edges.0 in
    let rest = visit-todo graph cur nodes (reach cur nb found) edges.1 in omega arith

search-todo :
    (fuel more : ℕ) (graph : Dict (List Bytes)) (to : Bytes) (found : Dict Bytes × List Bytes)
    → todo graph found ≤ fuel
    → search (fuel + more) graph to found ≡ search fuel graph to found
unfolding search
search-todo fuel more graph to (parent, []) h = refl
search-todo zero more graph to (parent, cur ∷ q) h = absurd (omega arith)
search-todo (suc fuel) more graph to (parent, cur ∷ q) h =
    let n : suc fuel + more ≡ suc (fuel + more) = omega arith in
    let next = visit cur (neighbours cur graph) (parent, q) in
    let less =
      visit-todo graph cur (neighbours cur graph) (parent, q) (all_listed (neighbours cur graph)) in
    elim (Bool-cases (eqb cur to)) [
      | inl found ↦ rw (n, search, found)
      | inr other ↦ rw (n, search, other) (search-todo fuel more graph to next (omega arith))
    ]

missing-le : (parent : Dict Bytes) (nodes : List Bytes) → missing parent nodes ≤ length nodes
unfolding missing fresh
missing-le parent [] = omega arith
missing-le parent (k ∷ nodes) =
    let h = missing-le parent nodes in let h' = fresh-le parent k in omega arith

pub unseen-entries :
    (parent : Dict Bytes) (graph : Dict (List Bytes)) → unseen parent graph ≤ entries graph
unfolding unseen entries
unseen-entries parent [] = omega arith
unseen-entries parent ((node, nodes) ∷ graph) =
    let h = missing-le parent nodes in let h' = unseen-entries parent graph in omega arith

-- The fuel of the route search is enough: with more of it the search finds the same.
search-entries :
    (more : ℕ) (graph : Dict (List Bytes)) (from to : Bytes)
    → let start : Dict Bytes × List Bytes = ((from, []) ∷ [], from ∷ []) in
      search (suc (entries graph) + more) graph to start
      ≡ search (suc (entries graph)) graph to start
search-entries more graph from to =
    let h = unseen-entries ((from, []) ∷ []) graph in
    search-todo (suc (entries graph)) more graph to ((from, []) ∷ [], from ∷ []) (omega arith)
