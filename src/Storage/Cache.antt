-- ===== src/Storage/Cache.antt =====
-- src/storage/cache.h and src/storage/cache.cpp. A node of `std::list` has an identity, which
-- stands for the iterator that the map keeps; the list's front is the first element.
pub mod Recency
pub mod Eviction
pub mod Refinement
pub mod Entries
use rex_coin.Base.{
  ℕ, suc, Bool, Option, none, some, List, [], ◌∷◌, ltb, ◌==◌, length, if◌then◌else◌, Bytes,
}
use rex_coin.Dict.{Dict, lookup, insert, contains}
use rex_coin.Dict

-- `class LRUCache`: the key of each node, and for each key its value and its node.
pub record LruCache : Type 0 where
  pub cap : ℕ
  pub order : List (ℕ × Bytes)
  pub cache : Dict (Bytes × ℕ)
  pub next_node : ℕ

-- `LRUCache::LRUCache`
unfoldable pub new_cache : ℕ → LruCache
new_cache capacity = record { cap = capacity; order = []; cache = []; next_node = 0 }

-- `order.erase(iterator)`
pub erase_node : ℕ → List (ℕ × Bytes) → List (ℕ × Bytes)
erase_node node [] = []
erase_node node ((n, k) ∷ order) = if n == node then order else (n, k) ∷ erase_node node order

-- `order.back()` and `order.pop_back()`
pub pop_back : List (ℕ × Bytes) → Option (Bytes × List (ℕ × Bytes))
pop_back [] = none
pop_back ((n, k) ∷ []) = some (k, [])
pop_back ((n, k) ∷ e ∷ order) = elim (pop_back (e ∷ order)) [
  | none ↦ none
  | some (last, rest) ↦ some (last, (n, k) ∷ rest)
]

-- `if (cache.size() > cap) { cache.erase(order.back()); order.pop_back(); }`
pub evict : LruCache → LruCache
evict c =
    if ltb c.cap (length c.cache)
    then elim (pop_back c.order) [
      | none ↦ c
      | some (last, rest) ↦ record c { order = rest; cache = Dict.erase last c.cache }
    ]
    else c

-- `if (it != cache.end()) { order.erase(it->second.second); cache.erase(it); }`
pub forget : Bytes → LruCache → LruCache
forget k c = elim (lookup k c.cache) [
  | none ↦ c
  | some (value, node) ↦ record c { order = erase_node node c.order; cache = Dict.erase k c.cache }
]

-- `order.push_front(k); cache[k] = {v, order.begin()};`
pub remember : Bytes → Bytes → LruCache → LruCache
remember k v c = record c {
  order = (c.next_node, k) ∷ c.order;
  cache = insert k (v, c.next_node) c.cache;
  next_node = suc c.next_node;
}

-- `LRUCache::put`
pub put : Bytes → Bytes → LruCache → LruCache
put k v c = evict (remember k v (forget k c))

-- `LRUCache::get`
pub get : Bytes → LruCache → LruCache × Option Bytes
get k c = elim (lookup k c.cache) [
  | none ↦ (c, none)
  | some (value, node) ↦ (
    record c {
      order = (c.next_node, k) ∷ erase_node node c.order;
      cache = insert k (value, c.next_node) c.cache;
      next_node = suc c.next_node;
    },
    some value,
  )
]

-- `LRUCache::contains`
pub holds : Bytes → LruCache → Bool
holds k c = contains k c.cache

-- `LRUCache::size`
unfoldable pub size : LruCache → ℕ
size c = length c.cache
