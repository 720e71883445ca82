-- ===== src/Layer2/Lightning/Fronts.antt =====
-- src/layer2/lightning.cpp: the front of the queue of `findRoute`.
use rex_coin.Base.{
  ℕ, suc, ◌≡◌, ◌≤◌, ◌⊎◌, inl, inr, refl, true, List, [], ◌∷◌, arith, Bytes, eqb, eqb_iff, eqb_refl,
  Bool-cases,
}
use rex_coin.Dict.{Dict, contains}
use rex_coin.Layer2.Lightning.{neighbours}
use rex_coin.Layer2.Lightning.Routes.{listed, listed-cons}
use rex_coin.Layer2.Lightning.Walks.{Walk, IsSorted, Reached, Visiting}

abbrev pub NoneBusy : Bytes → Type 0
NoneBusy k = ⊥

IsSorted-le :
    (depth : Bytes → ℕ) (low high more : ℕ) (q : List Bytes)
    → high ≤ more
    → IsSorted depth low high q
    → IsSorted depth low more q
IsSorted-le depth low high more [] le h = omega arith
IsSorted-le depth low high more (x ∷ q) le h = (h.0, IsSorted-le depth (depth x) high more q le h.1)

listed-cons_or :
    (k x : Bytes) (q : List Bytes) → listed k (x ∷ q) ≡ true → (k ≡ x) ⊎ (listed k q ≡ true)
unfolding listed
listed-cons_or k x q h = elim (Bool-cases (eqb k x)) [
  | inl same ↦ inl ((eqb_iff k x).0 same)
  | inr other ↦ inr (rw (listed, other) at h)
]

pub listed_head : (x : Bytes) (q : List Bytes) → listed x (x ∷ q) ≡ true
unfolding listed
listed_head x q = rw (listed, eqb_refl x)

-- No node of a queue is less deep than what bounds its order.
IsSorted-listed :
    (depth : Bytes → ℕ) (low high : ℕ) (q : List Bytes) (k : Bytes)
    → IsSorted depth low high q
    → listed k q ≡ true
    → low ≤ depth k
unfolding listed
IsSorted-listed depth low high [] k h l = absurd (cc l)
IsSorted-listed depth low high (x ∷ q) k h l = elim (listed-cons_or k x q l) [
  | inl e ↦ rw e h.0
  | inr r ↦ let le = IsSorted-listed depth (depth x) high q k h.1 r in let le' = h.0 in omega arith
]

module _ (graph : Dict (List Bytes)) (from : Bytes) where
  -- The node at the front of the queue is taken from it.
  module _ (cur : Bytes) (low : ℕ) (parent : Dict Bytes) (q : List Bytes) where
    pub popped :
        (r : Reached graph from NoneBusy low parent (cur ∷ q))
        → Visiting graph from cur (r.depth cur) (parent, q)
    popped r = record {
      state = record {
        depth = r.depth;
        walks = r.walks;
        shallow = r.shallow;
        chain = r.chain;
        started = r.started;
        root = r.root;
        sorted =
            let le = r.sorted.0 in
            IsSorted-le r.depth (r.depth cur) (suc low) (suc (r.depth cur)) q (omega arith)
              r.sorted.1;
        members = λ k l. r.members k (listed-cons k cur q l);
        near = λ k o. let le = r.sorted.0 in let le' = r.near k o in omega arith;
        finished = λ k o. elim (r.finished k o) [
          | inl none_busy ↦ absurd none_busy
          | inr (inl l) ↦ elim (listed-cons_or k cur q l) [ inl e ↦ inl e | inr l' ↦ inr (inl l') ]
          | inr (inr all) ↦ inr (inr all)
        ];
      };
      known = r.members cur (listed_head cur q);
      level = refl;
    }

  -- All neighbours of `cur` have been visited.
  pub visited :
      (cur : Bytes) (low : ℕ) (found : Dict Bytes × List Bytes)
      → Visiting graph from cur low found
      → ((w : Bytes) → listed w (neighbours cur graph) ≡ true → contains w found.0 ≡ true)
      → Reached graph from NoneBusy low found.0 found.1
  visited cur low found v all = record {
    depth = v.state.depth;
    walks = v.state.walks;
    shallow = v.state.shallow;
    chain = v.state.chain;
    started = v.state.started;
    root = v.state.root;
    sorted = v.state.sorted;
    members = v.state.members;
    near = v.state.near;
    finished = λ k o. elim (v.state.finished k o) [
      | inl e ↦ inr (
          inr (λ w l.
            let w_in = all w (rw e at l) in
            (w_in, let le = v.state.near w w_in in let lv = v.level in rw (e, lv) le)))
      | inr rest ↦ inr rest
    ];
  }

  -- A walk leads to a node that has been reached and is no deeper, or is as long as the front of the
  -- queue is deep.
  pub walked :
      (low : ℕ) (parent : Dict Bytes) (x : Bytes) (q : List Bytes)
      → (r : Reached graph from NoneBusy low parent (x ∷ q)) {n : ℕ} {v : Bytes}
      → Walk graph from n v
      → ((contains v parent ≡ true) × (r.depth v ≤ n)) ⊎ (r.depth x ≤ n)
  walked low parent x q r Walk.here = inl (r.started, let e = r.root in omega arith)
  walked low parent x q r (Walk.hop {n = n} {v = v} {w = w} walk edge) =
      elim (walked low parent x q r walk) [
        | inr deep ↦ inr (omega arith)
        | inl (known, le) ↦ elim (r.finished v known) [
          | inl none_busy ↦ absurd none_busy
          | inr (inl l) ↦ inr (
              let first =
                IsSorted-listed r.depth (r.depth x) (suc low) (x ∷ q) v (omega arith, r.sorted.1)
                  l in
              omega arith)
          | inr (inr all) ↦ inl ((all w edge).0, let le' = (all w edge).1 in omega arith)
        ]
      ]

  pub walked_all :
      (low : ℕ) (parent : Dict Bytes) (r : Reached graph from NoneBusy low parent [])
      → {n : ℕ} {v : Bytes} → Walk graph from n v
      → (contains v parent ≡ true) × (r.depth v ≤ n)
  unfolding listed
  walked_all low parent r Walk.here = (r.started, let e = r.root in omega arith)
  walked_all low parent r (Walk.hop {n = n} {v = v} {w = w} walk edge) =
      let (known, le) = walked_all low parent r walk in
      elim (r.finished v known) [
        | inl none_busy ↦ absurd none_busy
        | inr (inl l) ↦ absurd (cc l)
        | inr (inr all) ↦ ((all w edge).0, let le' = (all w edge).1 in omega arith)
      ]
