-- ===== src/Layer2/Lightning/Shortest.antt =====
-- src/layer2/lightning.cpp: `findRoute` finds a shortest route, where there is one.
use rex_coin.Base.{
  ℕ, zero, suc, ◌+◌, ◌≡◌, ◌≢◌, ◌≤◌, ◌<◌, inl, inr, refl, true, false, some, List, [], ◌∷◌, arith,
  length, get_last?, get_elem?, ap, sym, ◌∙◌, ◌↔◌, Bytes, eqb, eqb_iff, eqb_refl, Bool-cases,
  Option-cases,
}
use rex_coin.Dict.{Dict, lookup, contains}
use rex_coin.Layer2.Lightning.{
  LightningNetwork, neighbours, visit, search, way_back, entries, find_route, send_payment,
}
use rex_coin.Layer2.Lightning.Routes.{listed, all_listed, IsRoute, find_route-IsRoute}
use rex_coin.Layer2.Lightning.Fuel.{todo, visit-todo, unseen-entries}
use rex_coin.Layer2.Lightning.Walks.{Walk, IsNamed, Reached, Answered}
use rex_coin.Layer2.Lightning.Visits.{Visiting-visit}
use rex_coin.Layer2.Lightning.Fronts.{NoneBusy, listed_head, popped, visited, walked, walked_all}

only_root : (from k : Bytes) → contains {V = Bytes} k ((from, []) ∷ []) ≡ true → k ≡ from
unfolding lookup
only_root from k o = elim (Bool-cases (eqb from k)) [
  | inl same ↦ let e = (eqb_iff from k).0 same in cc
  | inr other ↦ absurd (cc (rw (lookup, other) at o))
]

known_root : (from : Bytes) → contains {V = Bytes} from ((from, []) ∷ []) ≡ true
unfolding lookup
known_root from = rw (lookup, eqb_refl from) refl

root_parent : (from k p : Bytes) → lookup {V = Bytes} k ((from, []) ∷ []) ≡ some p → p ≡ []
unfolding lookup
root_parent from k p e = elim (Bool-cases (eqb from k)) [
  | inl same ↦ cc (rw (lookup, same) at e)
  | inr other ↦ absurd (cc (rw (lookup, other) at e))
]

only_listed : (from k : Bytes) → listed k (from ∷ []) ≡ true → k ≡ from
unfolding listed
only_listed from k l = elim (Bool-cases (eqb k from)) [
  | inl same ↦ (eqb_iff k from).0 same
  | inr other ↦ absurd (cc (rw (listed, other) at l))
]

module _ (graph : Dict (List Bytes)) (from : Bytes) where
  start_Reached : Reached graph from NoneBusy 0 ((from, []) ∷ []) (from ∷ [])
  start_Reached = record {
    depth = λ _. 0;
    walks = λ k o. rw (only_root from k o) Walk.here;
    shallow = λ k o. omega arith;
    chain = λ k p e. inl (only_root from k (rw e refl), root_parent from k p e, refl);
    started = known_root from;
    root = refl;
    sorted = (omega arith, omega arith);
    members = λ k l. rw (only_listed from k l) (known_root from);
    near = λ k o. omega arith;
    finished = λ k o. inr (inl (rw (only_root from k o) (listed_head from [])));
  }

  module _ (to : Bytes) where
    Answered_all :
        (low : ℕ) (parent : Dict Bytes)
        → Reached graph from NoneBusy low parent []
        → Answered graph from to parent
    Answered_all low parent r = record {
      depth = r.depth;
      walks = r.walks;
      shallow = r.shallow;
      chain = r.chain;
      nearest = λ n walk. walked_all graph from low parent r walk;
    }

    Answered_front :
        (low : ℕ) (parent : Dict Bytes) (q : List Bytes)
        → Reached graph from NoneBusy low parent (to ∷ q)
        → Answered graph from to parent
    Answered_front low parent q r = record {
      depth = r.depth;
      walks = r.walks;
      shallow = r.shallow;
      chain = r.chain;
      nearest = λ n walk. elim (walked graph from low parent to q r walk) [
        | inl near ↦ near
        | inr deep ↦ (r.members to (listed_head to q), deep)
      ];
    }

    search-Answered :
        (fuel low : ℕ) (parent : Dict Bytes) (q : List Bytes)
        → todo graph (parent, q) ≤ fuel
        → Reached graph from NoneBusy low parent q
        → Answered graph from to (search fuel graph to (parent, q))
    unfolding search
    search-Answered fuel low parent [] le r = Answered_all low parent r
    search-Answered zero low parent (cur ∷ q) le r = absurd (omega arith)
    search-Answered (suc fuel) low parent (cur ∷ q) le r = elim (Bool-cases (eqb cur to)) [
      | inl found ↦
          let e = (eqb_iff cur to).0 found in
          rw (search, found) (Answered_front low parent q (rw e at r))
      | inr other ↦
          let nodes = neighbours cur graph in
          let next = visit cur nodes (parent, q) in
          let less = visit-todo graph cur nodes (parent, q) (all_listed nodes) in
          let (v, kept, all) =
            Visiting-visit graph from cur (r.depth cur) nodes (parent, q) (all_listed nodes)
              (popped graph from cur low parent q r) in
          rw (search, other)
            (search-Answered fuel (r.depth cur) next.0 next.1 (omega arith)
              (visited graph from cur (r.depth cur) next v all))
    ]

module _ (graph : Dict (List Bytes)) (from to : Bytes) (named : IsNamed graph)
    (ne : from ≢ []) where
  Walk-named : {n : ℕ} {v : Bytes} → Walk graph from n v → v ≢ []
  Walk-named Walk.here = ne
  Walk-named (Walk.hop {v = v} {w = w} walk edge) = named v w edge

  module _ (parent : Dict Bytes) (a : Answered graph from to parent) where
    -- The way back from a node starts at `from` and has as many channels as the node is deep.
    way_back-depth :
        (fuel : ℕ) (cur : Bytes) (hops : List Bytes)
        → contains cur parent ≡ true
        → a.depth cur < fuel
        → (get_elem? (way_back fuel parent cur hops) 0 ≡ some from)
          × (length (way_back fuel parent cur hops) ≡ suc (a.depth cur) + length hops)
    unfolding way_back
    way_back-depth fuel [] hops known deep = absurd (Walk-named (a.walks [] known) refl)
    way_back-depth zero (c ∷ cur) hops known deep = absurd (omega arith)
    way_back-depth (suc fuel) (c ∷ cur) hops known deep =
        elim (Option-cases (lookup (c ∷ cur) parent)) [
          | inl e ↦ absurd (cc (rw e at known))
          | inr (p, e) ↦ elim (a.chain (c ∷ cur) p e) [
            | inl (at_root, none_before, flat) ↦
                rw (way_back, e, none_before) (ap some at_root, omega arith)
            | inr (above, deeper) ↦
                let (first, long) = way_back-depth fuel p ((c ∷ cur) ∷ hops) above (omega arith) in
                rw (way_back, e) (first, omega arith)
          ]
        ]

-- What `findRoute` is to give: a route over channels of the graph from one node to another.
abbrev pub IsWalk : Dict (List Bytes) → Bytes → Bytes → List Bytes → Type 0
IsWalk graph from to hops =
    IsRoute graph hops × (get_elem? hops 0 ≡ some from) × (get_last? hops ≡ some to)

module _ (from to : Bytes) (net : LightningNetwork) (named : IsNamed net.graph)
    (ne : from ≢ []) where
  abbrev parent : Dict Bytes
  parent = search (suc (entries net.graph)) net.graph to ((from, []) ∷ [], from ∷ [])

  answer : Answered net.graph from to parent
  answer =
      let few = unseen-entries ((from, []) ∷ []) net.graph in
      search-Answered net.graph from to (suc (entries net.graph)) 0 ((from, []) ∷ []) (from ∷ [])
        (omega arith) (start_Reached net.graph from)

  hops_known :
      contains to parent ≡ true
      → (find_route from to net).hops ≡ way_back (suc (length parent)) parent to []
  unfolding find_route
  hops_known known = rw (find_route, known) refl

  find_route_known :
      contains to parent ≡ true
      → IsWalk net.graph from to (find_route from to net).hops
        × (length (find_route from to net).hops ≡ suc (answer.depth to))
  find_route_known known =
      let to_ne = Walk-named net.graph from to named ne (answer.walks to known) in
      let (first, long) =
        way_back-depth net.graph from to named ne parent answer (suc (length parent)) to [] known
          (let s = answer.shallow to known in omega arith) in
      let e = hops_known known in
      let (route, ends) = find_route-IsRoute from to net to_ne in
      elim ends [
        | inl empty ↦ absurd (let l = ap length (sym e ∙ empty) in omega arith)
        | inr last ↦ ((route, rw e first, last), rw e (omega arith))
      ]

  -- Where no node has the empty name: if there is a walk from one node to another over `n` channels,
  -- the route goes from the first to the second, each hop over a channel, and has at most `n`
  -- channels.
  pub find_route-shortest :
      (n : ℕ)
      → Walk net.graph from n to
      → IsWalk net.graph from to (find_route from to net).hops
        × (length (find_route from to net).hops ≤ suc n)
  find_route-shortest n walk =
      let (known, le) = answer.nearest n walk in
      let (is_walk, long) = find_route_known known in (is_walk, omega arith)

  unknown_empty : contains to parent ≡ false → (find_route from to net).hops ≡ []
  unfolding find_route
  unknown_empty unknown = rw (find_route, unknown) refl

  sent : (amount : ℕ) → send_payment from to amount net ≡ true → (n : ℕ) × Walk net.graph from n to
  unfolding send_payment
  sent amount h = elim (Bool-cases (contains to parent)) [
    | inl known ↦ (answer.depth to, answer.walks to known)
    | inr unknown ↦ absurd (cc (rw (unknown_empty unknown) at h))
  ]

  unsent : (amount n : ℕ) → Walk net.graph from n to → send_payment from to amount net ≡ true
  unfolding send_payment
  unsent amount n walk =
      let (is_walk, long) = find_route_known (answer.nearest n walk).0 in ground arith

  -- Where no node has the empty name: a payment is sent exactly if a walk leads from its sender to its
  -- receiver.
  pub send_payment-Walk :
      (amount : ℕ) → (send_payment from to amount net ≡ true) ↔ ((n : ℕ) × Walk net.graph from n to)
  send_payment-Walk amount = (sent amount, λ (n, walk). unsent amount n walk)
