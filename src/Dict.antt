-- ===== src/Dict.antt =====
-- `std::unordered_map<std::string, V>` as an association list. The list's order stands for the
-- unspecified order of iteration; `operator[]` writes a present key in place.
use rex_coin.Base.{
  ℕ, ◌+◌, ◌≤◌, ◌≡◌, refl, inl, inr, Bool, true, false, Option, none, some, List, [], ◌∷◌, arith,
  All, length, if◌then◌else◌, Bytes, eqb, eqb_refl, eqb_iff, sum_by, Bool-cases,
}

abbrev pub Dict {ℓ} : Type ℓ → Type ℓ
Dict V = List (Bytes × V)

-- `it != end() ? it->second : …`
abbrev pub is_some {ℓ} : {A : Type ℓ} → Option A → Bool
is_some none = false
is_some (some _) = true

module _ {ℓ} {V : Type ℓ} where
  -- `find(k)`
  unfoldable pub lookup : Bytes → Dict V → Option V
  lookup k [] = none
  lookup k ((j, v) ∷ d) = if eqb j k then some v else lookup k d

  -- `m[k] = v`
  unfoldable pub insert : Bytes → V → Dict V → Dict V
  insert k v [] = (k, v) ∷ []
  insert k v ((j, w) ∷ d) = if eqb j k then (j, v) ∷ d else (j, w) ∷ insert k v d

  -- `erase(k)`
  unfoldable pub erase : Bytes → Dict V → Dict V
  erase k [] = []
  erase k ((j, w) ∷ d) = if eqb j k then d else (j, w) ∷ erase k d

  -- `count(k) > 0`
  abbrev pub contains : Bytes → Dict V → Bool
  contains k d = is_some (lookup k d)

  -- The keys are distinct, as in every map.
  abbrev pub NodupKeys : Dict V → Type 0
  NodupKeys [] = Unit {0}
  NodupKeys ((j, w) ∷ d) = (contains j d ≡ false) × NodupKeys d

  pub lookup_empty : (k : Bytes) → lookup k (let d : Dict V = [] in d) ≡ none
  unfolding lookup
  lookup_empty k = refl

  -- What a key maps to after a write.
  pub lookup-insert :
      (k j : Bytes) (v : V) (d : Dict V)
      → lookup j (insert k v d) ≡ (if eqb k j then some v else lookup j d)
  unfolding lookup insert
  lookup-insert k j v [] = refl
  lookup-insert k j v ((i, w) ∷ d) =
      ground (arith, eqb_iff i k, eqb_iff i j, eqb_iff k j, lookup-insert k j v d)

  pub lookup-insert_self : (k : Bytes) (v : V) (d : Dict V) → lookup k (insert k v d) ≡ some v
  lookup-insert_self k v d = ground (arith, lookup-insert k k v d, eqb_refl k)

  pub lookup-insert_ne :
      (k j : Bytes) (v : V) (d : Dict V) → eqb k j ≡ false → lookup j (insert k v d) ≡ lookup j d
  lookup-insert_ne k j v d h = ground (arith, lookup-insert k j v d)

  pub lookup-erase_ne :
      (k j : Bytes) (d : Dict V) → eqb k j ≡ false → lookup j (erase k d) ≡ lookup j d
  unfolding lookup erase
  lookup-erase_ne k j [] h = refl
  lookup-erase_ne k j ((i, w) ∷ d) h =
      ground (arith, eqb_iff i k, eqb_iff i j, eqb_iff k j, lookup-erase_ne k j d)

  pub lookup-erase_self : (k : Bytes) (d : Dict V) → NodupKeys d → lookup k (erase k d) ≡ none
  unfolding lookup erase
  lookup-erase_self k [] n = refl
  lookup-erase_self k ((i, w) ∷ d) n = ground (arith, eqb_iff i k, lookup-erase_self k d n.1)

  pub NodupKeys-insert : (k : Bytes) (v : V) (d : Dict V) → NodupKeys d → NodupKeys (insert k v d)
  unfolding insert lookup
  NodupKeys-insert k v [] n = (refl, tt)
  NodupKeys-insert k v ((i, w) ∷ d) n = elim (Bool-cases (eqb i k)) [
    | inl hit ↦ rw hit n
    | inr miss ↦ rw miss (
      ground (arith, lookup-insert_ne k i v d, eqb_iff k i, eqb_iff i k),
      NodupKeys-insert k v d n.1,
    )
  ]

  contains-erase :
      (k j : Bytes) (d : Dict V) → contains j d ≡ false → contains j (erase k d) ≡ false
  unfolding erase lookup
  contains-erase k j [] h = refl
  contains-erase k j ((i, w) ∷ d) h = ground (arith, contains-erase k j d)

  pub NodupKeys-erase : (k : Bytes) (d : Dict V) → NodupKeys d → NodupKeys (erase k d)
  unfolding erase
  NodupKeys-erase k [] n = tt
  NodupKeys-erase k ((i, w) ∷ d) n = elim (Bool-cases (eqb i k)) [
    | inl hit ↦ rw hit n.1
    | inr miss ↦ rw miss (contains-erase k i d n.0, NodupKeys-erase k d n.1)
  ]

  pub length-insert_new :
      (k : Bytes) (v : V) (d : Dict V) → lookup k d ≡ none → length (insert k v d) ≡ length d + 1
  unfolding lookup insert
  length-insert_new k v [] h = refl
  length-insert_new k v ((i, w) ∷ d) h = ground (arith, length-insert_new k v d)

  pub length-insert_old :
      (k : Bytes) (v w : V) (d : Dict V) → lookup k d ≡ some w → length (insert k v d) ≡ length d
  unfolding lookup insert
  length-insert_old k v w [] h = cc
  length-insert_old k v w ((i, x) ∷ d) h = ground (arith, length-insert_old k v w d)

  pub length-erase :
      (k : Bytes) (w : V) (d : Dict V) → lookup k d ≡ some w → length (erase k d) + 1 ≡ length d
  unfolding lookup erase
  length-erase k w [] h = cc
  length-erase k w ((i, x) ∷ d) h = ground (arith, length-erase k w d)

  pub length-erase-le : (k : Bytes) (d : Dict V) → length (erase k d) ≤ length d
  unfolding erase
  length-erase-le k [] = omega arith
  length-erase-le k ((i, x) ∷ d) = ground (arith, length-erase-le k d)

  -- A sum over the values: a write replaces the summand of its key, or adds one.
  module _ (f : Bytes × V → ℕ) where
    pub sum_by-insert_old :
        (k : Bytes) (v w : V) (d : Dict V)
        → lookup k d ≡ some w
        → sum_by f (insert k v d) + f (k, w) ≡ sum_by f d + f (k, v)
    unfolding lookup insert
    sum_by-insert_old k v w [] h = cc
    sum_by-insert_old k v w ((i, x) ∷ d) h = ground (arith, eqb_iff i k, sum_by-insert_old k v w d)

    pub sum_by-insert_new :
        (k : Bytes) (v : V) (d : Dict V)
        → lookup k d ≡ none
        → sum_by f (insert k v d) ≡ sum_by f d + f (k, v)
    unfolding lookup insert
    sum_by-insert_new k v [] h = omega arith
    sum_by-insert_new k v ((i, x) ∷ d) h = ground (arith, sum_by-insert_new k v d)

    pub sum_by-erase :
        (k : Bytes) (w : V) (d : Dict V)
        → lookup k d ≡ some w
        → sum_by f (erase k d) + f (k, w) ≡ sum_by f d
    unfolding lookup erase
    sum_by-erase k w [] h = cc
    sum_by-erase k w ((i, x) ∷ d) h = ground (arith, eqb_iff i k, sum_by-erase k w d)

  -- A property of all entries: of those after a write, of those that an erasure leaves, and of one
  -- that is found.
  module _ (P : Bytes × V → Type 0) where
    pub All-insert : (k : Bytes) (v : V) (d : Dict V) → P (k, v) → All P d → All P (insert k v d)
    unfolding insert
    All-insert k v [] p all = (p, tt)
    All-insert k v ((j, w) ∷ d) p all = elim (Bool-cases (eqb j k)) [
      | inl hit ↦ rw (hit, (eqb_iff j k).0 hit) (p, all.1)
      | inr miss ↦ rw miss (all.0, All-insert k v d p all.1)
    ]

    pub All-erase : (k : Bytes) (d : Dict V) → All P d → All P (erase k d)
    unfolding erase
    All-erase k [] all = tt
    All-erase k ((j, w) ∷ d) all = elim (Bool-cases (eqb j k)) [
      | inl hit ↦ rw hit all.1
      | inr miss ↦ rw miss (all.0, All-erase k d all.1)
    ]

    pub All-lookup : (k : Bytes) (v : V) (d : Dict V) → lookup k d ≡ some v → All P d → P (k, v)
    unfolding lookup
    All-lookup k v [] e all = absurd (cc e)
    All-lookup k v ((j, w) ∷ d) e all = elim (Bool-cases (eqb j k)) [
      | inl hit ↦ let value : w ≡ v = cc (rw hit at e) in rw (← (eqb_iff j k).0 hit, ← value) all.0
      | inr miss ↦ All-lookup k v d (rw miss at e) all.1
    ]
