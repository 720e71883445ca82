-- ===== src/Storage/Cache/Recency.antt =====
-- src/storage/cache.cpp, an independent description: the entries of a cache from the most recent to
-- the least recent, and how a cache with its list and its map shows them.
use rex_coin.Base.{
  ℕ, ◌≤◌, ◌<◌, ◌≡◌, ◌∙◌, true, false, Option, none, some, List, [], ◌∷◌, inl, inr, arith, length,
  take, ◌==◌, Bytes, eqb, eqb_iff, Bool-cases,
}
use rex_coin.Dict.{Dict, lookup, erase, NodupKeys}
use rex_coin.Storage.Cache.{LruCache, erase_node}

-- `put` on a recency list: the entry comes to the front, and what passes the capacity is cut off.
unfoldable pub put_recent : ℕ → Bytes → Bytes → Dict Bytes → Dict Bytes
put_recent capacity k v entries = take capacity ((k, v) ∷ erase k entries)

-- `get` on a recency list: a hit comes to the front.
unfoldable pub get_recent : Bytes → Dict Bytes → Dict Bytes
get_recent k entries = elim (lookup k entries) [
  | none ↦ entries
  | some v ↦ (k, v) ∷ erase k entries
]

-- Each node of the list stands for an entry, and the map leads from its key to its value and back to
-- the node.
abbrev pub Linked : Dict (Bytes × ℕ) → List (ℕ × Bytes) → Dict Bytes → Type 0
Linked cache [] [] = Unit {0}
Linked cache ((n, k) ∷ order) ((j, v) ∷ entries) =
    (k ≡ j) × (lookup k cache ≡ some (v, n)) × Linked cache order entries
Linked cache [] (_ ∷ _) = ⊥
Linked cache (_ ∷ _) [] = ⊥

-- The nodes were made in the order of the list, the front one last, and all before `next`.
abbrev pub MadeBefore : ℕ → List (ℕ × Bytes) → Type 0
MadeBefore next [] = Unit {0}
MadeBefore next ((n, k) ∷ order) = (n < next) × MadeBefore n order

-- The value that the map has for a key.
abbrev pub value_of : Option (Bytes × ℕ) → Option Bytes
value_of none = none
value_of (some (v, n)) = some v

-- A cache shows these entries.
pub record Shows (c : LruCache) (entries : Dict Bytes) : Type 0 where
  pub linked : Linked c.cache c.order entries
  pub made : MadeBefore c.next_node c.order
  pub distinct : NodupKeys entries
  pub keys : NodupKeys c.cache
  pub counted : length c.cache ≡ length entries
  pub values : (j : Bytes) → value_of (lookup j c.cache) ≡ lookup j entries

MadeBefore-weaken :
    (a b : ℕ) (order : List (ℕ × Bytes)) → a ≤ b → MadeBefore a order → MadeBefore b order
MadeBefore-weaken a b [] h m = tt
MadeBefore-weaken a b ((n, k) ∷ order) h m = (omega arith, m.1)

pub MadeBefore-erase_node :
    (next node : ℕ) (order : List (ℕ × Bytes))
    → MadeBefore next order
    → MadeBefore next (erase_node node order)
unfolding erase_node
MadeBefore-erase_node next node [] m = tt
MadeBefore-erase_node next node ((n, k) ∷ order) m = elim (Bool-cases (n == node)) [
  | inl hit ↦ rw hit (MadeBefore-weaken n next order (omega arith) m.1)
  | inr miss ↦ rw miss (m.0, MadeBefore-erase_node n node order m.1)
]

-- A change of the map at a key that is not among the entries.
pub Linked-frame :
    (k : Bytes) (cache cache' : Dict (Bytes × ℕ)) (order : List (ℕ × Bytes)) (entries : Dict Bytes)
    → ((j : Bytes) → eqb k j ≡ false → lookup j cache' ≡ lookup j cache)
    → lookup k entries ≡ none
    → Linked cache order entries
    → Linked cache' order entries
unfolding lookup
Linked-frame k cache cache' [] [] same absent l = tt
Linked-frame k cache cache' [] (_ ∷ _) same absent l = absurd l
Linked-frame k cache cache' (_ ∷ _) [] same absent l = absurd l
Linked-frame k cache cache' ((n, i) ∷ order) ((j, v) ∷ entries) same absent l =
    let other : eqb k i ≡ false = ground (arith, eqb_iff k i, eqb_iff j k) in
    (l.0, same i other ∙ l.1, Linked-frame k cache cache' order entries same (ground (arith)) l.2)

-- The node of an entry that stands in the list.
pub Linked-node :
    (k v : Bytes) (next : ℕ) (cache : Dict (Bytes × ℕ)) (order : List (ℕ × Bytes))
    (entries : Dict Bytes)
    → Linked cache order entries
    → MadeBefore next order
    → lookup k entries ≡ some v
    → (n : ℕ) × (lookup k cache ≡ some (v, n)) × (n < next)
unfolding lookup
Linked-node k v next cache [] [] l m found = cc
Linked-node k v next cache [] (_ ∷ _) l m found = absurd l
Linked-node k v next cache (_ ∷ _) [] l m found = absurd l
Linked-node k v next cache ((n, i) ∷ order) ((j, w) ∷ entries) l m found =
    elim (Bool-cases (eqb j k)) [
      | inl hit ↦ (n, ground (arith, eqb_iff j k), m.0)
      | inr miss ↦
          let (n', e, p) = Linked-node k v n cache order entries l.2 m.1 (ground arith) in
          (n', e, omega arith)
    ]

-- Taking an entry out, through its node.
pub Linked-erase :
    (k v : Bytes) (node next : ℕ) (cache : Dict (Bytes × ℕ)) (order : List (ℕ × Bytes))
    (entries : Dict Bytes)
    → Linked cache order entries
    → MadeBefore next order
    → lookup k entries ≡ some v
    → lookup k cache ≡ some (v, node)
    → Linked cache (erase_node node order) (erase k entries)
unfolding lookup erase erase_node
Linked-erase k v node next cache [] [] l m found at = tt
Linked-erase k v node next cache [] (_ ∷ _) l m found at = absurd l
Linked-erase k v node next cache (_ ∷ _) [] l m found at = absurd l
Linked-erase k v node next cache ((n, i) ∷ order) ((j, w) ∷ entries) l m found at =
    elim (Bool-cases (eqb j k)) [
      | inl hit ↦ let same : (n == node) ≡ true = ground (arith, eqb_iff j k) in rw (hit, same) l.2
      | inr miss ↦
          let found' : lookup k entries ≡ some v = ground arith in
          let (n', e, older) = Linked-node k v n cache order entries l.2 m.1 found' in
          let other : (n == node) ≡ false = ground arith in
          rw (miss, other) (l.0, l.1, Linked-erase k v node n cache order entries l.2 m.1 found' at)
    ]

-- The entry and its node after a hit.
pub hit-node :
    (k v : Bytes) (c : LruCache) (entries : Dict Bytes)
    → Shows c entries
    → lookup k entries ≡ some v
    → (n : ℕ) × (lookup k c.cache ≡ some (v, n))
hit-node k v c entries s found =
    let (n, e, p) = Linked-node k v c.next_node c.cache c.order entries s.linked s.made found in
    (n, e)
