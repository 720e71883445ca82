-- ===== src/Tests/Lightning.antt =====
-- src/layer2/lightning.cpp: a payment over two channels.
use rex_coin.Base.{◌≡◌, refl, ◌↔◌, ◌≤◌, ℕ, true, length, [], ◌∷◌, codes}
use rex_coin.Base.Text.{eqb}
use rex_coin.Dict.{lookup, insert}
use rex_coin.Layer2.Lightning.{
  LightningNetwork, add_channel, add_neighbour, neighbours, reach, visit, search, way_back, entries,
  find_route, send_payment,
}
use rex_coin.Layer2.Lightning.Walks.{Walk, IsNamed}
use rex_coin.Layer2.Lightning.Named.{bare-IsNamed, add_channel-IsNamed}
use rex_coin.Layer2.Lightning.Shortest.{IsWalk, find_route-shortest, send_payment-Walk}
use rex_coin.Layer2.Lightning.Routes.{listed}

abbrev net : LightningNetwork
net =
    add_channel (codes "second") (codes "b") (codes "c") (
      add_channel (codes "first") (codes "a") (codes "b") (record { graph = []; channel_map = [] }))

route_over_two :
    find_route (codes "a") (codes "c") net
    ≡ record { hops = codes "a" ∷ codes "b" ∷ codes "c" ∷ []; total_fee = 10 }
unfolding find_route search visit reach way_back entries neighbours add_channel add_neighbour lookup
    insert eqb
route_over_two = refl

no_route : (find_route (codes "a") (codes "d") net).hops ≡ []
unfolding find_route search visit reach way_back entries neighbours add_channel add_neighbour lookup
    insert eqb
no_route = refl

net-IsNamed : IsNamed net.graph
net-IsNamed =
    let named =
      add_channel-IsNamed (codes "first") (codes "a") (codes "b")
        (record { graph = []; channel_map = [] }) (λ e. absurd (cc e)) (λ e. absurd (cc e))
        bare-IsNamed in
    add_channel-IsNamed (codes "second") (codes "b") (codes "c") _ (λ e. absurd (cc e))
      (λ e. absurd (cc e)) named

walk_over_two : Walk net.graph (codes "a") 2 (codes "c")
unfolding neighbours add_channel add_neighbour lookup insert eqb listed
walk_over_two = Walk.hop {v = codes "b"} (Walk.hop {v = codes "a"} Walk.here refl) refl

find_route-shortest_example :
    IsWalk net.graph (codes "a") (codes "c") (find_route (codes "a") (codes "c") net).hops
    × (length (find_route (codes "a") (codes "c") net).hops ≤ 3)
find_route-shortest_example =
    find_route-shortest (codes "a") (codes "c") net net-IsNamed (λ e. absurd (cc e)) 2 walk_over_two

send_payment-Walk_example :
    (send_payment (codes "a") (codes "c") 5 net ≡ true)
    ↔ ((n : ℕ) × Walk net.graph (codes "a") n (codes "c"))
send_payment-Walk_example =
    send_payment-Walk (codes "a") (codes "c") net net-IsNamed (λ e. absurd (cc e)) 5
