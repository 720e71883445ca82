-- ===== src/Storage/Cache/Entries.antt =====
-- src/storage/cache.cpp: what the entries of the cache keep.
use rex_coin.Base.{
  ℕ, ◌≡◌, refl, inl, inr, true, some, ltb, length, All, Bytes, Bool-cases, Option-cases,
}
use rex_coin.Dict.{lookup, All-insert, All-erase}
use rex_coin.Storage.Cache.{LruCache, pop_back, evict, forget, remember, put, get, holds}

-- A property of the entries is one of those that `put` leaves, if the new entry has it.
module _ (P : Bytes × (Bytes × ℕ) → Type 0) where
  evict-All : (cache : LruCache) → All P cache.cache → All P (evict cache).cache
  unfolding evict
  evict-All cache all = elim (Bool-cases (ltb cache.cap (length cache.cache))) [
    | inr fits ↦ rw (evict, fits) all
    | inl over ↦ elim (Option-cases (pop_back cache.order)) [
      | inl e ↦ rw (evict, over, e) all
      | inr ((last, rest), e) ↦ rw (evict, over, e) (All-erase P last cache.cache all)
    ]
  ]

  forget-All : (k : Bytes) (cache : LruCache) → All P cache.cache → All P (forget k cache).cache
  unfolding forget
  forget-All k cache all = elim (Option-cases (lookup k cache.cache)) [
    | inl e ↦ rw (forget, e) all
    | inr ((v, node), e) ↦ rw (forget, e) (All-erase P k cache.cache all)
  ]

  pub put-All :
      (k v : Bytes) (cache : LruCache)
      → ((node : ℕ) → P (k, (v, node)))
      → All P cache.cache
      → All P (put k v cache).cache
  unfolding put remember
  put-All k v cache p all = evict-All (remember k v (forget k cache)) (
      All-insert P k (v, (forget k cache).next_node) (forget k cache).cache
        (p (forget k cache).next_node) (forget-All k cache all))

-- What a key gives is what stands under it.
pub get-holds :
    (k : Bytes) (cache : LruCache)
    → holds k cache ≡ true
    → (v : Bytes) × (node : ℕ) × (lookup k cache.cache ≡ some (v, node))
      × ((get k cache).1 ≡ some v)
unfolding holds get
get-holds k cache h = elim (Option-cases (lookup k cache.cache)) [
  | inl e ↦ absurd (cc (rw (holds, e) at h))
  | inr ((v, node), e) ↦ (v, node, e, rw (get, e) refl)
]
