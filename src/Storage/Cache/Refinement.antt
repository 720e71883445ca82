-- ===== src/Storage/Cache/Refinement.antt =====
-- src/storage/cache.cpp: `LRUCache` against the recency list.
use rex_coin.Base.{
  ℕ, suc, ◌+◌, ◌≤◌, ◌≡◌, refl, sym, ap, ◌∙◌, false, Option, none, List, [], ◌∷◌, inl, inr, arith,
  length, length-take, take, Bytes, eqb, eqb_iff, Bool-cases, Option-cases,
}
use rex_coin.Dict.{
  Dict, lookup, insert, erase, is_some, NodupKeys, lookup-insert, lookup-insert_self,
  lookup-insert_ne, lookup-erase_ne, lookup-erase_self, NodupKeys-insert, NodupKeys-erase,
  length-insert_new, length-insert_old, length-erase, length-erase-le,
}
use rex_coin.Storage.Cache.Eviction.{evict-Shows}
use rex_coin.Storage.Cache.{
  LruCache, new_cache, erase_node, evict, forget, remember, put, get, size,
}
use rex_coin.Storage.Cache.Recency.{
  put_recent, get_recent, Linked, MadeBefore, value_of, Shows, MadeBefore-erase_node, Linked-frame,
  Linked-erase, hit-node,
}

erase_absent {ℓ} : {V : Type ℓ} (k : Bytes) (d : Dict V) → lookup k d ≡ none → erase k d ≡ d
unfolding lookup erase
erase_absent k [] h = refl
erase_absent k ((j, v) ∷ d) h = ground (arith, erase_absent k d)

lookup-value :
    (k : Bytes) (c : LruCache) (entries : Dict Bytes)
    → Shows c entries
    → lookup k entries ≡ none
    → lookup k c.cache ≡ none
lookup-value k c entries s absent = elim (Option-cases (lookup k c.cache)) [
  | inl gone ↦ gone
  | inr (e, found) ↦ absurd (let h = s.values k in cc (h, found, absent))
]

-- `forget` takes the entry of the key out.
forget-Shows :
    (k : Bytes) (c : LruCache) (entries : Dict Bytes)
    → Shows c entries
    → Shows (forget k c) (erase k entries)
unfolding forget
forget-Shows k c entries s = elim (Option-cases (lookup k entries)) [
  | inl absent ↦ rw (lookup-value k c entries s absent, forget, erase_absent k entries absent) s
  | inr (v, found) ↦
      let (n, at) = hit-node k v c entries s found in
      let gone = lookup-erase_self k entries s.distinct in
      let out = Linked-erase k v n c.next_node c.cache c.order entries s.linked s.made found at in
      rw (at, forget)
        (record {
          linked =
              Linked-frame k c.cache (erase k c.cache) (erase_node n c.order) (erase k entries)
                (λ j other. lookup-erase_ne k j c.cache other) gone out;
          made = MadeBefore-erase_node c.next_node n c.order s.made;
          distinct = NodupKeys-erase k entries s.distinct;
          keys = NodupKeys-erase k c.cache s.keys;
          counted =
              omega (
                arith,
                s.counted,
                length-erase k (v, n) c.cache at,
                length-erase k v entries found,
              );
          values = λ j. erased j;
        })
]
  where
    erased : (j : Bytes) → value_of (lookup j (erase k c.cache)) ≡ lookup j (erase k entries)
    erased j = elim (Bool-cases (eqb k j)) [
      | inl same ↦
          let e : k ≡ j = (eqb_iff k j).0 same in
          rw (← e, lookup-erase_self k c.cache s.keys, lookup-erase_self k entries s.distinct)
      | inr other ↦
          rw (lookup-erase_ne k j c.cache other, lookup-erase_ne k j entries other) (s.values j)
    ]

-- A new entry at the front.
front-Shows :
    (k v : Bytes) (c : LruCache) (entries : Dict Bytes) (order : List (ℕ × Bytes))
    → lookup k entries ≡ none
    → NodupKeys entries
    → Linked c.cache order entries
    → MadeBefore c.next_node order
    → NodupKeys c.cache
    → length (insert k (v, c.next_node) c.cache) ≡ length entries + 1
    → ((j : Bytes) → eqb k j ≡ false → value_of (lookup j c.cache) ≡ lookup j entries)
    → Shows
        (record c {
          order = (c.next_node, k) ∷ order;
          cache = insert k (v, c.next_node) c.cache;
          next_node = suc c.next_node;
        })
        ((k, v) ∷ entries)
unfolding lookup
front-Shows k v c entries order absent distinct linked made keys counted others = record {
  linked = (
    refl,
    lookup-insert_self k (v, c.next_node) c.cache,
    Linked-frame k c.cache (insert k (v, c.next_node) c.cache) order entries
        (λ j other. lookup-insert_ne k j (v, c.next_node) c.cache other) absent linked,
  );
  made = (omega arith, made);
  distinct = (ap is_some absent, distinct);
  keys = NodupKeys-insert k (v, c.next_node) c.cache keys;
  counted = omega (arith, counted);
  values = λ j. ground (arith, lookup-insert k j (v, c.next_node) c.cache, others j);
}

remember-Shows :
    (k v : Bytes) (c : LruCache) (entries : Dict Bytes)
    → Shows c entries
    → lookup k entries ≡ none
    → Shows (remember k v c) ((k, v) ∷ entries)
unfolding remember
remember-Shows k v c entries s absent =
    front-Shows k v c entries c.order absent s.distinct s.linked s.made s.keys
      (omega (
        arith,
        s.counted,
        length-insert_new k (v, c.next_node) c.cache (lookup-value k c entries s absent),
      ))
      (λ j other. s.values j)

-- A cache within its capacity that shows these entries.
pub record Refines (c : LruCache) (entries : Dict Bytes) : Type 0 where
  pub shows : Shows c entries
  pub bounded : length entries ≤ c.cap

pub new_cache-Refines : (capacity : ℕ) → Refines (new_cache capacity) []
unfolding new_cache lookup
new_cache-Refines capacity = record {
  shows = record {
    linked = tt;
    made = tt;
    distinct = tt;
    keys = tt;
    counted = refl;
    values = λ j. refl;
  };
  bounded = omega arith;
}

forget-cap : (k : Bytes) (c : LruCache) → (forget k c).cap ≡ c.cap
unfolding forget
forget-cap k c = ground arith

evict-cap : (c : LruCache) → (evict c).cap ≡ c.cap
unfolding evict
evict-cap c = ground arith

evict-Shows_at :
    (capacity : ℕ) (c : LruCache) (entries : Dict Bytes)
    → c.cap ≡ capacity
    → Shows c entries
    → length entries ≤ suc capacity
    → Shows (evict c) (take capacity entries)
evict-Shows_at capacity c entries e s bound =
    let bound' : length entries ≤ suc c.cap = omega arith in
    rw (← e) (evict-Shows c entries s bound')

pub put-Refines :
    (k v : Bytes) (c : LruCache) (entries : Dict Bytes)
    → Refines c entries
    → Refines (put k v c) (put_recent c.cap k v entries) × ((put k v c).cap ≡ c.cap)
unfolding put put_recent remember
put-Refines k v c entries r =
    let forgot = forget-Shows k c entries r.shows in
    let gone = lookup-erase_self k entries r.shows.distinct in
    let front = remember-Shows k v (forget k c) (erase k entries) forgot gone in
    let same = forget-cap k c in
    let shows =
      evict-Shows_at c.cap (remember k v (forget k c)) ((k, v) ∷ erase k entries) same front
        (omega (arith, length-erase-le k entries, r.bounded)) in
    let kept = evict-cap (remember k v (forget k c)) ∙ same in
    (
      record {
        shows = shows;
        bounded = omega (arith, kept, length-take c.cap ((k, v) ∷ erase k entries));
      },
      kept,
    )

pub get-Refines :
    (k : Bytes) (c : LruCache) (entries : Dict Bytes)
    → Refines c entries
    → ((get k c).1 ≡ lookup k entries)
      × Refines (get k c).0 (get_recent k entries)
      × ((get k c).0.cap ≡ c.cap)
unfolding get get_recent
get-Refines k c entries r = elim (Option-cases (lookup k entries)) [
  | inl absent ↦
      rw (absent, get_recent, lookup-value k c entries r.shows absent, get) (refl, r, refl)
  | inr (v, found) ↦
      let (n, at) = hit-node k v c entries r.shows found in
      let s = r.shows in
      rw (found, get_recent, at, get)
        (
          refl,
          record {
            shows =
                front-Shows k v c (erase k entries) (erase_node n c.order)
                  (lookup-erase_self k entries s.distinct) (NodupKeys-erase k entries s.distinct)
                  (Linked-erase k v n c.next_node c.cache c.order entries s.linked s.made found at)
                  (MadeBefore-erase_node c.next_node n c.order s.made) s.keys
                  (omega (
                    arith,
                    s.counted,
                    length-insert_old k (v, c.next_node) (v, n) c.cache at,
                    length-erase k v entries found,
                  ))
                  (λ j other. s.values j ∙ sym (lookup-erase_ne k j entries other));
            bounded = omega (arith, r.bounded, length-erase k v entries found);
          },
          refl,
        )
]

-- A call of a cache.
pub data Call : Type 0 where
  puts : Bytes → Bytes → Call
  gets : Bytes → Call

-- The results of the reads in a history of calls, of the program and of the recency list, with the
-- number of entries at the end.
pub serve : List Call → LruCache → List (Option Bytes) × ℕ
serve [] c = ([], size c)
serve (puts k v ∷ calls) c = serve calls (put k v c)
serve (gets k ∷ calls) c = let (results, n) = serve calls (get k c).0 in ((get k c).1 ∷ results, n)

pub serve_recent : ℕ → List Call → Dict Bytes → List (Option Bytes) × ℕ
serve_recent capacity [] entries = ([], length entries)
serve_recent capacity (puts k v ∷ calls) entries =
    serve_recent capacity calls (put_recent capacity k v entries)
serve_recent capacity (gets k ∷ calls) entries =
    let (results, n) = serve_recent capacity calls (get_recent k entries) in
    (lookup k entries ∷ results, n)

serve-Refines :
    (calls : List Call) (capacity : ℕ) (c : LruCache) (entries : Dict Bytes)
    → c.cap ≡ capacity
    → Refines c entries
    → (serve calls c ≡ serve_recent capacity calls entries) × ((serve calls c).1 ≤ capacity)
unfolding serve serve_recent size
serve-Refines [] capacity c entries e r =
    (ap (λ n. ([], n)) r.shows.counted, omega (arith, r.shows.counted, r.bounded))
serve-Refines (puts k v ∷ calls) capacity c entries e r =
    let (r', same) = put-Refines k v c entries r in
    serve-Refines calls capacity (put k v c) (put_recent capacity k v entries) (same ∙ e)
      (rw (← e) r')
serve-Refines (gets k ∷ calls) capacity c entries e r =
    let (found, r', same) = get-Refines k c entries r in
    let ih = serve-Refines calls capacity (get k c).0 (get_recent k entries) (same ∙ e) r' in
    (λ i. (found i ∷ (ih.0 i).0, (ih.0 i).1), ih.1)

-- After any history of `put` and `get` calls on a new cache every read has returned what the list of
-- the entries by recency gives, and the cache has as many entries as that list, at most its capacity.
pub serve-serve_recent :
    (capacity : ℕ) (calls : List Call)
    → (serve calls (new_cache capacity) ≡ serve_recent capacity calls [])
      × ((serve calls (new_cache capacity)).1 ≤ capacity)
unfolding new_cache
serve-serve_recent capacity calls =
    serve-Refines calls capacity (new_cache capacity) [] refl (new_cache-Refines capacity)
