-- ===== src/Core/Merkle.antt =====
-- src/core/merkle.cpp. A layer is a list of digests; each pass of a `while` loop over it is one
-- unit of fuel, and the length of the first layer is enough (Core.Merkle.Layers).
pub mod Layers
pub mod Proof
use rex_coin.Base.{
  ℕ, zero, suc, ◌+◌, ◌-◌, ◌/◌, ◌%◌, Bool, true, false, Option, none, some, List, [], ◌∷◌, ◌++◌,
  length, get_or, get_last?, replicate, ltb, ◌==◌, if◌then◌else◌, Bytes, eqb,
}
use rex_coin.Hasher.{Hasher, double_sha256}

-- `MerkleTree::hashPair`
unfoldable pub hash_pair : ⦃h : Hasher⦄ → Bytes → Bytes → Bytes
hash_pair a b = double_sha256 (a ++ b)

-- `if (layer.size() % 2 != 0) layer.push_back(layer.back());`
pub even_out : List Bytes → List Bytes
even_out layer =
    if length layer % 2 == 0
    then layer
    else elim (get_last? layer) [ none ↦ layer | some last ↦ layer ++ last ∷ [] ]

-- `for (i = 0; i < layer.size(); i += 2) nextLayer.push_back(hashPair(layer[i], layer[i+1]));`
-- on a layer of even length
pub next_layer : ⦃h : Hasher⦄ → List Bytes → List Bytes
next_layer [] = []
next_layer (a ∷ []) = []
next_layer (a ∷ b ∷ layer) = hash_pair a b ∷ next_layer layer

-- The `while (layer.size() > 1)` loop of `buildRoot`; the layer that it leaves.
pub root_loop : ⦃h : Hasher⦄ → ℕ → List Bytes → List Bytes
root_loop zero layer = layer
root_loop (suc fuel) layer = elim (ltb 1 (length layer)) [
  | true ↦ root_loop fuel (next_layer (even_out layer))
  | false ↦ layer
]

-- `std::string(64, '0')`
abbrev pub zero_hash : Bytes
zero_hash = replicate 64 b'0'

-- `MerkleTree::buildRoot`
unfoldable pub build_root : ⦃h : Hasher⦄ → List Bytes → Bytes
build_root [] = zero_hash
build_root (tx ∷ []) = tx
build_root (tx ∷ tx' ∷ txs) = get_or (root_loop (length (tx ∷ tx' ∷ txs)) (tx ∷ tx' ∷ txs)) 0 []

-- `std::find` and `std::distance`
unfoldable pub index_of : Bytes → List Bytes → Option ℕ
index_of tx [] = none
index_of tx (x ∷ xs) =
    if eqb x tx then some 0 else elim (index_of tx xs) [ none ↦ none | some i ↦ some (suc i) ]

pub sibling : ℕ → ℕ
sibling idx = if idx % 2 == 0 then idx + 1 else idx - 1

-- The loop of `generateProof`, from a layer and the index of the target in it.
pub proof_loop : ⦃h : Hasher⦄ → ℕ → List Bytes → ℕ → List Bytes
proof_loop zero layer idx = []
proof_loop (suc fuel) layer idx = elim (ltb 1 (length layer)) [
  | true ↦
      get_or (even_out layer) (sibling idx) []
      ∷ proof_loop fuel (next_layer (even_out layer)) (idx / 2)
  | false ↦ []
]

-- `MerkleTree::generateProof`
pub generate_proof : ⦃h : Hasher⦄ → List Bytes → Bytes → List Bytes
generate_proof txs tx = elim (index_of tx txs) [
  | none ↦ []
  | some idx ↦ proof_loop (length txs) txs idx
]

-- The loop of `verifyProof`.
pub climb : ⦃h : Hasher⦄ → Bytes → List Bytes → Bytes
climb current [] = current
climb current (s ∷ proof) = climb (hash_pair current s) proof

-- `MerkleTree::verifyProof`
pub verify_proof : ⦃h : Hasher⦄ → Bytes → Bytes → List Bytes → Bool
verify_proof root tx proof = eqb (climb tx proof) root
