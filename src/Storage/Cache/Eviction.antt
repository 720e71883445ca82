-- ===== src/Storage/Cache/Eviction.antt =====
-- src/storage/cache.cpp: the back of the list, and what goes when the capacity is passed.
use rex_coin.Base.{
  ℕ, zero, suc, ◌≤◌, ◌≡◌, refl, ap, false, none, some, List, [], ◌∷◌, inl, inr, arith, length,
  length-take, take, ltb, Bytes, eqb, eqb_iff, eqb_refl, Bool-cases,
}
use rex_coin.Dict.{
  Dict, lookup, erase, NodupKeys, lookup-erase_ne, lookup-erase_self, NodupKeys-erase, length-erase,
}
use rex_coin.Storage.Cache.{LruCache, pop_back, evict}
use rex_coin.Storage.Cache.Recency.{Linked, MadeBefore, value_of, Shows, Linked-frame, hit-node}

lookup-take-none :
    (j : Bytes) (n : ℕ) (entries : Dict Bytes)
    → lookup j entries ≡ none
    → lookup j (take n entries) ≡ none
unfolding lookup
lookup-take-none j zero entries absent = refl
lookup-take-none j (suc n) [] absent = refl
lookup-take-none j (suc n) ((i, v) ∷ entries) absent = ground (arith, lookup-take-none j n entries)

NodupKeys-take : (n : ℕ) (entries : Dict Bytes) → NodupKeys entries → NodupKeys (take n entries)
NodupKeys-take zero entries d = tt
NodupKeys-take (suc n) [] d = tt
NodupKeys-take (suc n) ((i, v) ∷ entries) d =
    (ground (arith, lookup-take-none i n entries), NodupKeys-take n entries d.1)

-- What `pop_back` leaves of `n + 1` linked entries.
record Popped (n next : ℕ) (cache : Dict (Bytes × ℕ)) (order : List (ℕ × Bytes))
    (entries : Dict Bytes) : Type 0 where
  last_key : Bytes
  last_value : Bytes
  rest : List (ℕ × Bytes)
  popped : pop_back order ≡ some (last_key, rest)
  linked : Linked cache rest (take n entries)
  made : MadeBefore next rest
  was_there : lookup last_key entries ≡ some last_value
  gone : lookup last_key (take n entries) ≡ none
  others : (j : Bytes) → eqb last_key j ≡ false → lookup j (take n entries) ≡ lookup j entries

-- The back of the list is the last entry; without it the rest stands for the other entries.
pop_back-Popped :
    (n next : ℕ) (cache : Dict (Bytes × ℕ)) (order : List (ℕ × Bytes)) (entries : Dict Bytes)
    → length entries ≡ suc n
    → NodupKeys entries
    → Linked cache order entries
    → MadeBefore next order
    → Popped n next cache order entries
unfolding pop_back lookup
pop_back-Popped n next cache order [] counted distinct l m = absurd (omega arith)
pop_back-Popped n next cache [] (e ∷ entries) counted distinct l m = absurd l
pop_back-Popped zero next cache ((i, k) ∷ []) ((j, v) ∷ []) counted distinct l m = record {
  last_key = k;
  last_value = v;
  rest = [];
  popped = refl;
  linked = tt;
  made = tt;
  was_there = rw (l.0, eqb_refl j);
  gone = refl;
  others = λ j' other. rw (← l.0, other);
}
pop_back-Popped (suc n) next cache ((i, k) ∷ []) ((j, v) ∷ []) counted distinct l m =
    absurd (omega arith)
pop_back-Popped n next cache ((i, k) ∷ []) ((j, v) ∷ e ∷ entries) counted distinct l m = absurd l.2
pop_back-Popped n next cache ((i, k) ∷ x ∷ order) ((j, v) ∷ []) counted distinct l m = absurd l.2
pop_back-Popped zero next cache ((i, k) ∷ x ∷ order) ((j, v) ∷ e ∷ entries) counted distinct l m =
    absurd (omega arith)
pop_back-Popped (suc n) next cache ((i, k) ∷ x ∷ order) ((j, v) ∷ e ∷ entries) counted distinct l
      m =
    let p = pop_back-Popped n i cache (x ∷ order) (e ∷ entries) (omega arith) distinct.1 l.2 m.1 in
    let other : eqb j p.last_key ≡ false =
      ground (arith, distinct.0, p.was_there, eqb_iff j p.last_key) in
    record {
      last_key = p.last_key;
      last_value = p.last_value;
      rest = (i, k) ∷ p.rest;
      popped = rw p.popped;
      linked = (l.0, l.1, p.linked);
      made = (m.0, p.made);
      was_there = rw (other, p.was_there);
      gone = rw (other, p.gone);
      others = λ j' ne. ground (arith, p.others j');
    }

-- `put` restores the bound by taking the last entry out.
pub evict-Shows :
    (c : LruCache) (entries : Dict Bytes)
    → Shows c entries
    → length entries ≤ suc c.cap
    → Shows (evict c) (take c.cap entries)
unfolding evict
evict-Shows c entries s bound = elim (Bool-cases (ltb c.cap (length c.cache))) [
  | inr room ↦ rw (room, take_all c.cap entries (ground (arith, s.counted))) s
  | inl full ↦
      let p =
        pop_back-Popped c.cap c.next_node c.cache c.order entries (ground (arith, s.counted))
          s.distinct s.linked s.made in
      let (n, at) = hit-node p.last_key p.last_value c entries s p.was_there in
      rw (full, p.popped)
        (record {
          linked =
              Linked-frame p.last_key c.cache (erase p.last_key c.cache) p.rest (take c.cap entries)
                (λ j other. lookup-erase_ne p.last_key j c.cache other) p.gone p.linked;
          made = p.made;
          distinct = NodupKeys-take c.cap entries s.distinct;
          keys = NodupKeys-erase p.last_key c.cache s.keys;
          counted = ground (
            arith,
            s.counted,
            length-erase p.last_key (p.last_value, n) c.cache at,
            length-take c.cap entries,
          );
          values = λ j. without p j;
        })
]
  where
    take_all : (n : ℕ) (es : Dict Bytes) → length es ≤ n → take n es ≡ es
    take_all zero [] h = refl
    take_all zero (e ∷ es) h = absurd (omega arith)
    take_all (suc n) [] h = refl
    take_all (suc n) (e ∷ es) h = ap (◌∷◌ e) (take_all n es (omega arith))

    without :
        (p : Popped c.cap c.next_node c.cache c.order entries) (j : Bytes)
        → value_of (lookup j (erase p.last_key c.cache)) ≡ lookup j (take c.cap entries)
    without p j = elim (Bool-cases (eqb p.last_key j)) [
      | inl same ↦
          let e : p.last_key ≡ j = (eqb_iff p.last_key j).0 same in
          rw (← e, lookup-erase_self p.last_key c.cache s.keys, p.gone)
      | inr other ↦ rw (lookup-erase_ne p.last_key j c.cache other, p.others j other) (s.values j)
    ]
