-- ===== src/Layer2/Lightning/Depths.antt =====
-- src/layer2/lightning.cpp: what one node more in `parent` and in the queue of `findRoute` keeps.
use rex_coin.Base.{
  ℕ, suc, ◌≡◌, ◌∙◌, ◌≤◌, ◌<◌, ◌⊎◌, inl, inr, refl, true, false, some, List, [], ◌∷◌, ◌++◌, arith,
  if◌then◌else◌, length, Bytes, eqb, eqb_iff, eqb_refl, Bool-cases, Option-cases,
}
use rex_coin.Dict.{
  Dict, lookup, insert, contains, lookup-insert, lookup-insert_self, lookup-insert_ne,
  length-insert_new,
}
use rex_coin.Layer2.Lightning.{neighbours}
use rex_coin.Layer2.Lightning.Routes.{listed}
use rex_coin.Layer2.Lightning.Queues.{
  listed-append_old, listed-append_or, listed-append_last, IsSorted-append, IsSorted-same,
}
use rex_coin.Layer2.Lightning.Walks.{Walk, IsSorted, AreKnown, Reached, Visiting}

unfoldable pub set_depth : Bytes → ℕ → (Bytes → ℕ) → Bytes → ℕ
set_depth nb n depth j = if eqb nb j then n else depth j

-- A node `nb` that has not been reached gets the parent `cur`.
module _ (nb cur : Bytes) (parent : Dict Bytes) (depth : Bytes → ℕ)
    (new : contains nb parent ≡ false) where
  fresh_ne : (j : Bytes) → contains j parent ≡ true → eqb nb j ≡ false
  fresh_ne j h = elim (Bool-cases (eqb nb j)) [
    | inl same ↦ let e = (eqb_iff nb j).0 same in absurd (cc)
    | inr other ↦ other
  ]

  pub contains-insert_old :
      (j : Bytes) → contains j parent ≡ true → contains j (insert nb cur parent) ≡ true
  contains-insert_old j h = rw (lookup-insert_ne nb j cur parent (fresh_ne j h)) h

  pub set_depth-old :
      (n : ℕ) (j : Bytes) → contains j parent ≡ true → set_depth nb n depth j ≡ depth j
  unfolding set_depth
  set_depth-old n j h = rw (set_depth, fresh_ne j h)

  contains-insert_or :
      (j : Bytes) → contains j (insert nb cur parent) ≡ true → (j ≡ nb) ⊎ (contains j parent ≡ true)
  contains-insert_or j h = elim (Bool-cases (eqb nb j)) [
    | inl same ↦ inl (let e = (eqb_iff nb j).0 same in cc)
    | inr other ↦ inr (rw (lookup-insert_ne nb j cur parent other) at h)
  ]

set_depth-new : (nb : Bytes) (n : ℕ) (depth : Bytes → ℕ) → set_depth nb n depth nb ≡ n
unfolding set_depth
set_depth-new nb n depth = rw (set_depth, eqb_refl nb)

module _ (graph : Dict (List Bytes)) (from cur nb : Bytes) (low : ℕ) (parent : Dict Bytes)
    (q : List Bytes) (v : Visiting graph from cur low (parent, q))
    (edge : listed nb (neighbours cur graph) ≡ true) (new : contains nb parent ≡ false) where
  abbrev r : Reached graph from (λ k. k ≡ cur) low parent q
  r = v.state

  abbrev known : contains cur parent ≡ true
  known = v.known

  abbrev level : r.depth cur ≡ low
  level = v.level

  abbrev depth' : Bytes → ℕ
  depth' = set_depth nb (suc low) r.depth

  abbrev parent' : Dict Bytes
  parent' = insert nb cur parent

  abbrev old : (j : Bytes) → contains j parent ≡ true → depth' j ≡ r.depth j
  old = set_depth-old nb cur parent r.depth new (suc low)

  abbrev kept : (j : Bytes) → contains j parent ≡ true → contains j parent' ≡ true
  kept = contains-insert_old nb cur parent r.depth new

  abbrev which : (j : Bytes) → contains j parent' ≡ true → (j ≡ nb) ⊎ (contains j parent ≡ true)
  which = contains-insert_or nb cur parent r.depth new

  depth_nb : depth' nb ≡ suc (r.depth cur)
  depth_nb = rw level (set_depth-new nb (suc low) r.depth)

  one_longer : length parent' ≡ suc (length parent)
  one_longer = elim (Option-cases (lookup nb parent)) [
    | inl e ↦ let l = length-insert_new nb cur parent e in omega arith
    | inr (p, e) ↦ absurd (cc (rw e at new))
  ]

  walks' : (k : Bytes) → contains k parent' ≡ true → Walk graph from (depth' k) k
  walks' k h = elim (which k h) [
    | inl e ↦ rw (e, depth_nb) (Walk.hop (r.walks cur known) edge)
    | inr o ↦ rw (old k o) (r.walks k o)
  ]

  shallow' : (k : Bytes) → contains k parent' ≡ true → depth' k < length parent'
  shallow' k h = elim (which k h) [
    | inl e ↦ rw (e, depth_nb, one_longer) (let s = r.shallow cur known in omega arith)
    | inr o ↦ rw (old k o, one_longer) (let s = r.shallow k o in omega arith)
  ]

  near' : (k : Bytes) → contains k parent' ≡ true → depth' k ≤ suc low
  near' k h = elim (which k h) [
    | inl e ↦ rw (e, depth_nb) (omega arith)
    | inr o ↦ rw (old k o) (r.near k o)
  ]

  chain_old :
      (k p : Bytes)
      → lookup k parent ≡ some p
      → ((k ≡ from) × (p ≡ []) × (depth' k ≡ 0))
        ⊎ ((contains p parent' ≡ true) × (depth' k ≡ suc (depth' p)))
  chain_old k p h =
      let o : contains k parent ≡ true = rw h refl in
      elim (r.chain k p h) [
        | inl (e, none_before, zero_deep) ↦ inl (e, none_before, rw (old k o) zero_deep)
        | inr (above, deeper) ↦ inr (kept p above, rw (old k o, old p above) deeper)
      ]

  chain' :
      (k p : Bytes)
      → lookup k parent' ≡ some p
      → ((k ≡ from) × (p ≡ []) × (depth' k ≡ 0))
        ⊎ ((contains p parent' ≡ true) × (depth' k ≡ suc (depth' p)))
  chain' k p h = elim (Bool-cases (eqb nb k)) [
    | inl same ↦
        let e = (eqb_iff nb k).0 same in
        let value : cur ≡ p = cc (rw (lookup-insert nb k cur parent, same) at h) in
        inr (rw (← value) (kept cur known), rw (← value, ← e, depth_nb, old cur known) refl)
    | inr other ↦ chain_old k p (rw (lookup-insert nb k cur parent, other) at h)
  ]

  members' : (k : Bytes) → listed k (q ++ nb ∷ []) ≡ true → contains k parent' ≡ true
  members' k h = elim (listed-append_or k nb q h) [
    | inl l ↦ kept k (r.members k l)
    | inr e ↦ rw (e, lookup-insert_self nb cur parent) refl
  ]

  AreKnown-kept :
      (bound : ℕ) (nodes : List Bytes)
      → AreKnown r.depth bound parent nodes
      → AreKnown depth' bound parent' nodes
  AreKnown-kept bound nodes h w l = let (o, d) = h w l in (kept w o, rw (old w o) d)

  finished' :
      (k : Bytes)
      → contains k parent' ≡ true
      → (k ≡ cur)
        ⊎ ((listed k (q ++ nb ∷ []) ≡ true)
            ⊎ AreKnown depth' (suc (depth' k)) parent' (neighbours k graph))
  finished' k h = elim (which k h) [
    | inl e ↦ inr (inl (rw e (listed-append_last nb q)))
    | inr o ↦ elim (r.finished k o) [
      | inl busy ↦ inl busy
      | inr (inl l) ↦ inr (inl (listed-append_old k nb q l))
      | inr (inr all) ↦
          inr (inr (rw (old k o) (AreKnown-kept (suc (r.depth k)) (neighbours k graph) all)))
    ]
  ]

  sorted' : IsSorted depth' low (suc low) (q ++ nb ∷ [])
  sorted' =
      IsSorted-append depth' low (suc low) q nb
        (IsSorted-same r.depth depth' low (suc low) q (λ x l. old x (r.members x l)) r.sorted)
        (set_depth-new nb (suc low) r.depth)

  pub Visiting-insert : Visiting graph from cur low (parent', q ++ nb ∷ [])
  Visiting-insert = record {
    state = record {
      depth = depth';
      walks = walks';
      shallow = shallow';
      chain = chain';
      started = kept from r.started;
      root = old from r.started ∙ r.root;
      sorted = sorted';
      members = members';
      near = near';
      finished = finished';
    };
    known = kept cur known;
    level = old cur known ∙ level;
  }
