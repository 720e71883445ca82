-- ===== src/Layer2/Lightning/Walks.antt =====
-- src/layer2/lightning.cpp: the walks of a graph, and what the search of `findRoute` knows of them.
use rex_coin.Base.{ℕ, suc, ◌≡◌, ◌≢◌, ◌≤◌, ◌<◌, ◌⊎◌, true, some, List, [], ◌∷◌, length, Bytes}
use rex_coin.Dict.{Dict, lookup, contains}
use rex_coin.Layer2.Lightning.{neighbours}
use rex_coin.Layer2.Lightning.Routes.{listed}

-- A walk over a number of channels from one node to another.
pub data Walk (graph : Dict (List Bytes)) (from : Bytes) : ℕ → Bytes → Type 0 where
  here : Walk graph from 0 from
  hop :
      {n : ℕ} {v w : Bytes}
      → Walk graph from n v
      → listed w (neighbours v graph) ≡ true
      → Walk graph from (suc n) w

-- No node has the empty name.
abbrev pub IsNamed : Dict (List Bytes) → Type 0
IsNamed graph = (v w : Bytes) → listed w (neighbours v graph) ≡ true → w ≢ []

-- The nodes of a queue by their depth, between two bounds.
abbrev pub IsSorted : (Bytes → ℕ) → ℕ → ℕ → List Bytes → Type 0
IsSorted depth low high [] = low ≤ high
IsSorted depth low high (x ∷ q) = (low ≤ depth x) × IsSorted depth (depth x) high q

-- The nodes of a list have been reached, at depths that a bound limits.
abbrev pub AreKnown : (Bytes → ℕ) → ℕ → Dict Bytes → List Bytes → Type 0
AreKnown depth high parent nodes =
    (w : Bytes) → listed w nodes ≡ true → (contains w parent ≡ true) × (depth w ≤ high)

-- What holds while `findRoute` searches: a walk leads to each node reached, over its parent, and a node
-- that is neither busy nor in the queue has only neighbours that have been reached.
pub record Reached (graph : Dict (List Bytes)) (from : Bytes) (Busy : Bytes → Type 0) (low : ℕ)
    (parent : Dict Bytes) (q : List Bytes) : Type 0 where
  pub depth : Bytes → ℕ
  pub walks : (k : Bytes) → contains k parent ≡ true → Walk graph from (depth k) k
  pub shallow : (k : Bytes) → contains k parent ≡ true → depth k < length parent
  pub chain :
      (k p : Bytes)
      → lookup k parent ≡ some p
      → ((k ≡ from) × (p ≡ []) × (depth k ≡ 0))
        ⊎ ((contains p parent ≡ true) × (depth k ≡ suc (depth p)))
  pub started : contains from parent ≡ true
  pub root : depth from ≡ 0
  pub sorted : IsSorted depth low (suc low) q
  pub members : (k : Bytes) → listed k q ≡ true → contains k parent ≡ true
  pub near : (k : Bytes) → contains k parent ≡ true → depth k ≤ suc low
  pub finished :
      (k : Bytes)
      → contains k parent ≡ true
      → Busy k ⊎ ((listed k q ≡ true) ⊎ AreKnown depth (suc (depth k)) parent (neighbours k graph))

-- While the neighbours of `cur` are visited.
pub record Visiting (graph : Dict (List Bytes)) (from cur : Bytes) (low : ℕ)
    (found : Dict Bytes × List Bytes) : Type 0 where
  pub state : Reached graph from (λ k. k ≡ cur) low found.0 found.1
  pub known : contains cur found.0 ≡ true
  pub level : state.depth cur ≡ low

-- What the search ends with for the node `to`.
pub record Answered (graph : Dict (List Bytes)) (from to : Bytes) (parent : Dict Bytes)
    : Type 0 where
  pub depth : Bytes → ℕ
  pub walks : (k : Bytes) → contains k parent ≡ true → Walk graph from (depth k) k
  pub shallow : (k : Bytes) → contains k parent ≡ true → depth k < length parent
  pub chain :
      (k p : Bytes)
      → lookup k parent ≡ some p
      → ((k ≡ from) × (p ≡ []) × (depth k ≡ 0))
        ⊎ ((contains p parent ≡ true) × (depth k ≡ suc (depth p)))
  pub nearest : (n : ℕ) → Walk graph from n to → (contains to parent ≡ true) × (depth to ≤ n)
