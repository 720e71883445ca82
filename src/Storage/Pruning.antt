-- ===== src/Storage/Pruning.antt =====
-- src/storage/pruning.h and src/storage/pruning.cpp.
use rex_coin.Base.{
  ℕ, ◌+◌, ◌-◌, ◌^◌, ◌≤◌, ◌<◌, ◌≡◌, inl, inr, List, [], ◌∷◌, arith, leb, if◌then◌else◌, u32,
  Bool-cases,
}

-- `class ChainPruner`
pub record ChainPruner : Type 0 where
  pub keep_blocks : ℕ
  pub pruned_height : ℕ

-- `ChainPruner::ChainPruner`
pub new_pruner : ℕ → ChainPruner
new_pruner keep_blocks = record { keep_blocks = keep_blocks; pruned_height = 0 }

-- `ChainPruner::prune`: the pruner and the number of blocks, a difference of 32 bits.
pub prune : ℕ → ChainPruner → ChainPruner × ℕ
prune current_height pruner =
    if leb current_height pruner.keep_blocks
    then (pruner, 0)
    else let target = current_height - pruner.keep_blocks in
      (record pruner { pruned_height = target }, u32 (2 ^ 32 + target - pruner.pruned_height))

-- The sum of what is pruned at some heights, in their order.
pub prune_all : List ℕ → ChainPruner → ChainPruner × ℕ
prune_all [] pruner = (pruner, 0)
prune_all (height ∷ heights) pruner =
    let (pruner', n) = prune height pruner in
    let (pruner'', sum) = prune_all heights pruner' in (pruner'', n + sum)

-- Heights of 32 bits, none of which is below the one before.
abbrev pub IsGrowing : ℕ → List ℕ → Type 0
IsGrowing least [] = Unit {0}
IsGrowing least (height ∷ heights) = (least ≤ height) × (height < 2 ^ 32) × IsGrowing height heights

-- What has been pruned at a height that the chain has reached.
prune-count :
    (pruner : ChainPruner) (least height : ℕ)
    → pruner.pruned_height ≤ least - pruner.keep_blocks
    → least ≤ height
    → height < 2 ^ 32
    → let r = prune height pruner in
      (r.0.pruned_height ≤ height - r.0.keep_blocks)
      × (pruner.pruned_height + r.1 ≡ r.0.pruned_height)
unfolding prune
prune-count pruner least height h h' h'' = elim (Bool-cases (leb height pruner.keep_blocks)) [
  | inl early ↦ rw (prune, early) (omega arith, omega arith)
  | inr late ↦ rw (prune, late) (omega arith, ground arith)
]

prune_all-pruned :
    (heights : List ℕ) (pruner : ChainPruner) (least : ℕ)
    → pruner.pruned_height ≤ least - pruner.keep_blocks
    → IsGrowing least heights
    → let r = prune_all heights pruner in pruner.pruned_height + r.1 ≡ r.0.pruned_height
unfolding prune_all
prune_all-pruned [] pruner least h g = omega arith
prune_all-pruned (height ∷ heights) pruner least h (le, lt, g) =
    let (bound, e) = prune-count pruner least height h le lt in
    let rest = prune_all-pruned heights (prune height pruner).0 height bound g in omega arith

-- Along a chain that grows, the counts of what was pruned add up to the height that is pruned to.
pub prune_all-pruned_height :
    (heights : List ℕ) (keep : ℕ)
    → IsGrowing 0 heights
    → let r = prune_all heights (new_pruner keep) in r.1 ≡ r.0.pruned_height
unfolding new_pruner
prune_all-pruned_height heights keep g =
    let e = prune_all-pruned heights (new_pruner keep) 0 (omega arith) g in omega arith
