-- ===== src/Layer2/Lightning/Visits.antt =====
-- src/layer2/lightning.cpp: the loops of `findRoute` keep what the search knows.
use rex_coin.Base.{
  ℕ, ◌≡◌, inl, inr, refl, true, List, [], ◌∷◌, All, Bytes, eqb, eqb_iff, Bool-cases,
}
use rex_coin.Dict.{Dict, insert, contains, lookup-insert_self}
use rex_coin.Layer2.Lightning.{neighbours, reach, visit}
use rex_coin.Layer2.Lightning.Routes.{listed}
use rex_coin.Layer2.Lightning.Walks.{Visiting}
use rex_coin.Layer2.Lightning.Depths.{Visiting-insert, contains-insert_old}

contains-insert_self : (k v : Bytes) (d : Dict Bytes) → contains k (insert k v d) ≡ true
contains-insert_self k v d = rw (lookup-insert_self k v d) refl

module _ (graph : Dict (List Bytes)) (from : Bytes) where
  module _ (cur : Bytes) (low : ℕ) where
    Visiting-reach :
        (nb : Bytes) (found : Dict Bytes × List Bytes)
        → listed nb (neighbours cur graph) ≡ true
        → Visiting graph from cur low found
        → Visiting graph from cur low (reach cur nb found)
          × (contains nb (reach cur nb found).0 ≡ true)
          × ((j : Bytes) → contains j found.0 ≡ true → contains j (reach cur nb found).0 ≡ true)
    unfolding reach
    Visiting-reach nb found edge v = elim (Bool-cases (contains nb found.0)) [
      | inl old ↦ rw (reach, old) (v, old, λ j o. o)
      | inr new ↦
          rw (reach, new)
            (
              Visiting-insert graph from cur nb low found.0 found.1 v edge new,
              contains-insert_self nb cur found.0,
              contains-insert_old nb cur found.0 v.state.depth new,
            )
    ]

    all_nodes :
        (nb : Bytes) (nodes : List Bytes) (near far : Dict Bytes × List Bytes)
        → contains nb near.0 ≡ true
        → ((j : Bytes) → contains j near.0 ≡ true → contains j far.0 ≡ true)
        → ((w : Bytes) → listed w nodes ≡ true → contains w far.0 ≡ true)
        → (w : Bytes) → listed w (nb ∷ nodes) ≡ true
        → contains w far.0 ≡ true
    unfolding listed
    all_nodes nb nodes near far there kept all w l = elim (Bool-cases (eqb w nb)) [
      | inl same ↦ let e = (eqb_iff w nb).0 same in rw e (kept nb there)
      | inr other ↦ all w (rw (listed, other) at l)
    ]

    pub Visiting-visit :
        (nodes : List Bytes) (found : Dict Bytes × List Bytes)
        → All (λ nb. listed nb (neighbours cur graph) ≡ true) nodes
        → Visiting graph from cur low found
        → Visiting graph from cur low (visit cur nodes found)
          × ((j : Bytes) → contains j found.0 ≡ true → contains j (visit cur nodes found).0 ≡ true)
          × ((w : Bytes) → listed w nodes ≡ true → contains w (visit cur nodes found).0 ≡ true)
    unfolding visit listed
    Visiting-visit [] found edges v = (v, (λ j o. o), λ w l. absurd (cc l))
    Visiting-visit (nb ∷ nodes) found edges v =
        let (v', there, kept) = Visiting-reach nb found edges.0 v in
        let (v'', kept', all) = Visiting-visit nodes (reach cur nb found) edges.1 v' in
        (
          v'',
          (λ j o. kept' j (kept j o)),
          all_nodes nb nodes (reach cur nb found) (visit cur nodes (reach cur nb found)) there kept'
              all,
        )
