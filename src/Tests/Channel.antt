-- ===== src/Tests/Channel.antt =====
-- src/layer2/channel.cpp: the theorems on a map of two channels.
use rex_coin.Base.Text.{eqb}
use rex_coin.Base.{
  ℕ, ◌≡◌, ◌≢◌, ◌+◌, refl, true, ◌&&◌, some, List, [], ◌∷◌, codes, Bytes, arith, eqb_iff, false,
  ◌++◌, ap, inl, inr, length, length-take, Bool-cases, replicate,
}
use rex_coin.Dict.{lookup, All-lookup}
use rex_coin.Hasher.{sha256}
use rex_coin.Base.Decimal.{decimal}
use rex_coin.Crypto.Sha256.Digest.{sha256_hasher}
use rex_coin.Layer2.Channel.{Channel, Channels, active, generate_channel_id, pay, get_channel}
use rex_coin.Layer2.Channel.Conservation.{IsBalanced, AllBalanced, Call, opens, pays, closes, run}
use rex_coin.Layer2.Channel.History.{brought, lost, run-AllBalanced}
use rex_coin.Layer2.Channel.Update.{coins, SameTerms}
use rex_coin.Layer2.Channel.Payments.{can_pay, pay_succeeds, pay_moves}

abbrev channel_of : Bytes → ℕ → ℕ → Channel
channel_of id a b = record {
  channel_id = id;
  party_a = codes "alice";
  party_b = codes "bob";
  balance_a = a;
  balance_b = b;
  total_locked = a + b;
  sequence_num = 0;
  state = active;
  latest_state_hash = codes "00";
}

abbrev two_channels : Channels
two_channels =
    (codes "c1", channel_of (codes "c1") 10 5) ∷ (codes "c2", channel_of (codes "c2") 1 1) ∷ []

first_found : get_channel (codes "c1") two_channels ≡ some (channel_of (codes "c1") 10 5)
unfolding get_channel lookup eqb
first_found = refl

apart : codes "c2" ≢ codes "c1"
apart e = ground (arith, eqb_iff (codes "c2") (codes "c1"))

-- A channel is opened beside the two, and the first one is used and closed.
abbrev history : List Call
history =
    pays (codes "c1") (codes "alice") 3
    ∷ opens (codes "carol") (codes "dave") 7 9
    ∷ pays (codes "c1") (codes "bob") 8
    ∷ closes (codes "c1")
    ∷ []

-- An id that is made has 16 characters.
new_id :
    (a b : Bytes) (channels : Channels)
    → eqb (generate_channel_id a b channels) (codes "c1") ≡ false
unfolding generate_channel_id
new_id a b channels = elim (Bool-cases (eqb (generate_channel_id a b channels) (codes "c1"))) [
  | inr other ↦ other
  | inl same ↦
      let text : Bytes = a ++ b ++ decimal (length channels) in
      let e = ap length ((eqb_iff (generate_channel_id a b channels) (codes "c1")).0 same) in
      absurd (omega (arith, e, length-take 16 (sha256 text), sha256_hasher.length-hash text))
]

two_channels-AllBalanced : AllBalanced two_channels
unfolding get_channel
two_channels-AllBalanced = record {
  at_id = λ id ch found.
      All-lookup (λ (e : Bytes × Channel). IsBalanced e.1) id ch two_channels found
        (
          record { fits = omega arith; conserved = refl },
          (record { fits = omega arith; conserved = refl }, tt),
        );
}

run-AllBalanced_example :
    AllBalanced (run two_channels history)
    × (coins (run two_channels history) + lost two_channels history
        ≡ coins two_channels + brought history)
    × SameTerms
        (get_channel (codes "c1") two_channels)
        (get_channel (codes "c1") (run two_channels history))
run-AllBalanced_example =
    run-AllBalanced (codes "c1") two_channels history (tt, (omega arith, (tt, (tt, tt))))
      (tt, (new_id (codes "carol") (codes "dave") _, (tt, (tt, tt)))) two_channels-AllBalanced

pay_succeeds_example :
    ((pay (codes "c1") (codes "alice") 3 two_channels).1
      ≡ (true && can_pay (codes "alice") 3 (channel_of (codes "c1") 10 5)))
    × (get_channel (codes "c2") (pay (codes "c1") (codes "alice") 3 two_channels).0
        ≡ get_channel (codes "c2") two_channels)
pay_succeeds_example =
    pay_succeeds (codes "c1") (codes "alice") 3 two_channels (channel_of (codes "c1") 10 5)
      (codes "c2") first_found apart

pay_moves_example :
    (ch' : Channel) × (get_channel (codes "c1") (pay (codes "c1") (codes "alice") 3 two_channels).0
      ≡ some ch')
    × (ch'.balance_a + 3 ≡ 10)
    × (ch'.balance_b ≡ 8)
    × (ch'.sequence_num ≡ 1)
    × (ch'.total_locked ≡ 15)
    × (ch'.state ≡ active)
pay_moves_example =
    pay_moves (codes "c1") (codes "alice") 3 two_channels (channel_of (codes "c1") 10 5) first_found
      (record { fits = omega arith; conserved = refl }) refl refl (omega arith)

-- The id of a channel of `a` and `b1` beside one other is that of one of `a` and `b` beside eleven.
shared_id :
    generate_channel_id
      (codes "a")
      (codes "b1")
      (replicate 1 (codes "c1", channel_of (codes "c1") 10 5))
    ≡ generate_channel_id
        (codes "a")
        (codes "b")
        (replicate 11 (codes "c1", channel_of (codes "c1") 10 5))
unfolding generate_channel_id decimal
shared_id = refl
