-- ===== src/Layer2/Lightning/Routes.antt =====
-- src/layer2/lightning.cpp: the routes that `findRoute` gives.
use rex_coin.Base.{
  ℕ, zero, suc, ◌≡◌, ◌≢◌, refl, ◌⊎◌, inl, inr, Bool, true, false, ◌||◌, some, List, [], ◌∷◌, All,
  length, get_last?, Bytes, eqb_refl, eqb_iff, Bool-cases, Option-cases,
}
use rex_coin.Base.Text.{eqb}
use rex_coin.Dict.{Dict, lookup, insert, contains}
use rex_coin.Layer2.Lightning.{
  LightningNetwork, neighbours, reach, visit, search, way_back, entries, find_route,
}

-- Whether a name is in a list.
unfoldable pub listed : Bytes → List Bytes → Bool
listed x [] = false
listed x (y ∷ ys) = eqb x y || listed x ys

-- Each node was reached over an edge from its parent; the start has none.
abbrev IsLinked : Dict (List Bytes) → Dict Bytes → Type 0
IsLinked graph parent =
    All (λ (e : Bytes × Bytes). (e.1 ≡ []) ⊎ (listed e.0 (neighbours e.1 graph) ≡ true)) parent

-- Each hop after the first is a neighbour of the one before.
abbrev pub IsRoute : Dict (List Bytes) → List Bytes → Type 0
IsRoute graph [] = Unit {0}
IsRoute graph (x ∷ []) = Unit {0}
IsRoute graph (x ∷ y ∷ hops) = (listed y (neighbours x graph) ≡ true) × IsRoute graph (y ∷ hops)

module _ (graph : Dict (List Bytes)) where
  IsLinked-insert :
      (k p : Bytes) (parent : Dict Bytes)
      → (p ≡ []) ⊎ (listed k (neighbours p graph) ≡ true)
      → IsLinked graph parent
      → IsLinked graph (insert k p parent)
  unfolding insert
  IsLinked-insert k p [] e all = (e, tt)
  IsLinked-insert k p ((j, q) ∷ parent) e all = elim (Bool-cases (eqb j k)) [
    | inl hit ↦ let same = (eqb_iff j k).0 hit in rw (insert, hit) (rw same e, all.1)
    | inr other ↦ rw (insert, other) (all.0, IsLinked-insert k p parent e all.1)
  ]

  IsLinked-lookup :
      (k p : Bytes) (parent : Dict Bytes)
      → IsLinked graph parent
      → lookup k parent ≡ some p
      → (p ≡ []) ⊎ (listed k (neighbours p graph) ≡ true)
  unfolding lookup
  IsLinked-lookup k p [] all e = absurd (cc e)
  IsLinked-lookup k p ((j, q) ∷ parent) all e = elim (Bool-cases (eqb j k)) [
    | inl hit ↦
        let same = (eqb_iff j k).0 hit in
        let value : q ≡ p = cc (rw (lookup, hit) at e) in rw (← same) (rw (← value) all.0)
    | inr other ↦ IsLinked-lookup k p parent all.1 (rw (lookup, other) at e)
  ]

  reach-IsLinked :
      (cur nb : Bytes) (found : Dict Bytes × List Bytes)
      → listed nb (neighbours cur graph) ≡ true
      → IsLinked graph found.0
      → IsLinked graph (reach cur nb found).0
  unfolding reach
  reach-IsLinked cur nb found edge all = elim (Bool-cases (contains nb found.0)) [
    | inl known ↦ rw (reach, known) all
    | inr new ↦ rw (reach, new) (IsLinked-insert nb cur found.0 (inr edge) all)
  ]

  visit-IsLinked :
      (cur : Bytes) (nodes : List Bytes) (found : Dict Bytes × List Bytes)
      → All (λ nb. listed nb (neighbours cur graph) ≡ true) nodes
      → IsLinked graph found.0
      → IsLinked graph (visit cur nodes found).0
  unfolding visit
  visit-IsLinked cur [] found edges all = all
  visit-IsLinked cur (nb ∷ nodes) found edges all =
      visit-IsLinked cur nodes (reach cur nb found) edges.1
        (reach-IsLinked cur nb found edges.0 all)

pub listed-cons : (x y : Bytes) (ys : List Bytes) → listed x ys ≡ true → listed x (y ∷ ys) ≡ true
unfolding listed
listed-cons x y ys h = elim (Bool-cases (eqb x y)) [
  | inl same ↦ rw (listed, same)
  | inr other ↦ rw (listed, other, h)
]

All-listed_cons :
    (y : Bytes) (ys xs : List Bytes)
    → All (λ x. listed x ys ≡ true) xs
    → All (λ x. listed x (y ∷ ys) ≡ true) xs
All-listed_cons y ys [] all = tt
All-listed_cons y ys (x ∷ xs) all = (listed-cons x y ys all.0, All-listed_cons y ys xs all.1)

pub all_listed : (xs : List Bytes) → All (λ x. listed x xs ≡ true) xs
unfolding listed
all_listed [] = tt
all_listed (x ∷ xs) = (rw (listed, eqb_refl x), All-listed_cons x xs xs (all_listed xs))

search-IsLinked :
    (fuel : ℕ) (graph : Dict (List Bytes)) (to : Bytes) (parent : Dict Bytes) (q : List Bytes)
    → IsLinked graph parent
    → IsLinked graph (search fuel graph to (parent, q))
unfolding search
search-IsLinked fuel graph to parent [] all = all
search-IsLinked zero graph to parent (cur ∷ q) all = all
search-IsLinked (suc fuel) graph to parent (cur ∷ q) all = elim (Bool-cases (eqb cur to)) [
  | inl found ↦ rw (search, found) all
  | inr other ↦
      let next = visit cur (neighbours cur graph) (parent, q) in
      rw (search, other)
        (search-IsLinked fuel graph to next.0 next.1 (
          visit-IsLinked graph cur (neighbours cur graph) (parent, q)
            (all_listed (neighbours cur graph)) all))
]

-- The hops so far may follow a node, unless the node is the mark before the start.
abbrev Follows : Dict (List Bytes) → Bytes → List Bytes → Type 0
Follows graph cur [] = Unit {0}
Follows graph cur (hop ∷ hops) = (cur ≡ []) ⊎ (listed hop (neighbours cur graph) ≡ true)

module _ (graph : Dict (List Bytes)) (parent : Dict Bytes) (linked : IsLinked graph parent) where
  IsRoute-cons :
      (c : ℕ) (cur : Bytes) (hops : List Bytes)
      → Follows graph (c ∷ cur) hops
      → IsRoute graph hops
      → IsRoute graph ((c ∷ cur) ∷ hops)
  IsRoute-cons c cur [] h route = tt
  IsRoute-cons c cur (hop ∷ hops) (inl none_before) route = absurd (cc none_before)
  IsRoute-cons c cur (hop ∷ hops) (inr edge) route = (edge, route)

  way_back-IsRoute :
      (fuel : ℕ) (cur : Bytes) (hops : List Bytes)
      → Follows graph cur hops
      → IsRoute graph hops
      → IsRoute graph (way_back fuel parent cur hops)
  unfolding way_back
  way_back-IsRoute fuel [] hops h route = route
  way_back-IsRoute zero (c ∷ cur) hops h route = route
  way_back-IsRoute (suc fuel) (c ∷ cur) hops h route =
      let longer = IsRoute-cons c cur hops h route in
      elim (Option-cases (lookup (c ∷ cur) parent)) [
        | inl e ↦ rw (way_back, e) (way_back-IsRoute fuel [] ((c ∷ cur) ∷ hops) (inl refl) longer)
        | inr (p, e) ↦
            rw (way_back, e)
              (way_back-IsRoute fuel p ((c ∷ cur) ∷ hops)
                (IsLinked-lookup graph (c ∷ cur) p parent linked e) longer)
      ]

way_back-get_last? :
    (fuel : ℕ) (parent : Dict Bytes) (cur hop : Bytes) (hops : List Bytes)
    → get_last? (way_back fuel parent cur (hop ∷ hops)) ≡ get_last? (hop ∷ hops)
unfolding way_back
way_back-get_last? fuel parent [] hop hops = refl
way_back-get_last? zero parent (c ∷ cur) hop hops = refl
way_back-get_last? (suc fuel) parent (c ∷ cur) hop hops =
    elim (Option-cases (lookup (c ∷ cur) parent)) [
      | inl e ↦ rw (way_back, e) (way_back-get_last? fuel parent [] (c ∷ cur) (hop ∷ hops))
      | inr (p, e) ↦ rw (way_back, e) (way_back-get_last? fuel parent p (c ∷ cur) (hop ∷ hops))
    ]

way_back-ends :
    (fuel : ℕ) (parent : Dict Bytes) (c : ℕ) (to : Bytes)
    → get_last? (way_back (suc fuel) parent (c ∷ to) []) ≡ some (c ∷ to)
unfolding way_back
way_back-ends fuel parent c to = way_back-get_last? fuel parent _ (c ∷ to) []

-- A route goes from each hop to a neighbour of it in the graph, and ends at the receiver of the
-- payment, whose name is not empty, if there is a route at all.
pub find_route-IsRoute :
    (from to : Bytes) (net : LightningNetwork)
    → to ≢ []
    → let hops = (find_route from to net).hops in
      IsRoute net.graph hops × ((hops ≡ []) ⊎ (get_last? hops ≡ some to))
unfolding find_route
find_route-IsRoute from [] net ne = absurd (ne refl)
find_route-IsRoute from (c ∷ to) net ne =
    let start : Dict Bytes = (from, []) ∷ [] in
    let parent = search (suc (entries net.graph)) net.graph (c ∷ to) (start, from ∷ []) in
    let linked =
      search-IsLinked (suc (entries net.graph)) net.graph (c ∷ to) start (from ∷ [])
        (inl refl, tt) in
    elim (Bool-cases (contains (c ∷ to) parent)) [
      | inl known ↦
          rw (find_route, known)
            (
              way_back-IsRoute net.graph parent linked (suc (length parent)) (c ∷ to) [] tt tt,
              inr (way_back-ends (length parent) parent c to),
            )
      | inr unknown ↦ rw (find_route, unknown) (tt, inl refl)
    ]
