-- ===== src/Layer2/Channel/Conservation.antt =====
-- src/layer2/channel.cpp: the calls on the map of channels, and that each keeps a channel balanced.
use rex_coin.Base.{
  ℕ, ◌+◌, ◌<◌, ◌^◌, ◌≡◌, true, false, none, some, List, [], ◌∷◌, inl, inr, arith, ◌⊎◌, Bytes, eqb,
  Bool-cases, Option-cases,
}
use rex_coin.Dict.{lookup, insert, lookup-insert}
use rex_coin.Hasher.{Hasher}
use rex_coin.Layer2.Channel.{
  Channel, Channels, closed, is_active, open_channel, advance, transfer, pay, close_channel,
  get_channel,
}

-- The balances together are what was locked, and that is a 64-bit number.
pub record IsBalanced (ch : Channel) : Type 0 where
  pub fits : ch.total_locked < 2 ^ 64
  pub conserved : ch.balance_a + ch.balance_b ≡ ch.total_locked

-- Every channel of the map is balanced.
pub record AllBalanced (channels : Channels) : Type 0 where
  pub at_id : (id : Bytes) (ch : Channel) → get_channel id channels ≡ some ch → IsBalanced ch

-- A call, with amounts that a `uint64_t` holds.
pub data Call : Type 0 where
  opens : Bytes → Bytes → ℕ → ℕ → Call
  pays : Bytes → Bytes → ℕ → Call
  closes : Bytes → Call

-- Opening amounts whose sum is a `uint64_t`, as the supply of the coin ensures.
abbrev pub IsSane : Call → Type 0
IsSane (opens a b amount_a amount_b) = amount_a + amount_b < 2 ^ 64
IsSane (pays id sender amount) = Unit {0}
IsSane (closes id) = Unit {0}

AllBalanced-insert :
    (id : Bytes) (ch : Channel) (channels : Channels)
    → IsBalanced ch
    → AllBalanced channels
    → AllBalanced (insert id ch channels)
unfolding get_channel
AllBalanced-insert id ch channels b all = record { at_id = go }
  where
    go : (j : Bytes) (x : Channel) → lookup j (insert id ch channels) ≡ some x → IsBalanced x
    go j x found = elim (Bool-cases (eqb id j)) [
      | inl same ↦ let e : ch ≡ x = ground (arith, lookup-insert id j ch channels) in rw (← e) b
      | inr other ↦ all.at_id j x (ground (arith, lookup-insert id j ch channels))
    ]

pub transfer-IsBalanced :
    (sender : Bytes) (amount : ℕ) (ch ch' : Channel)
    → transfer sender amount ch ≡ some ch'
    → IsBalanced ch
    → IsBalanced ch'
unfolding transfer
transfer-IsBalanced sender amount ch ch' moved b = ground arith

-- The two ways that `closeChannel` can go.
module _ (id : Bytes) (channels : Channels) where
  pub close_absent : get_channel id channels ≡ none → close_channel id channels ≡ (channels, false)
  unfolding close_channel get_channel
  close_absent absent = rw (absent, close_channel)

  pub close_found :
      (ch : Channel)
      → get_channel id channels ≡ some ch
      → close_channel id channels ≡ (insert id (record ch { state = closed }) channels, true)
  unfolding close_channel get_channel
  close_found ch found = rw (found, close_channel)

module _ ⦃h : Hasher⦄ where
  -- A call on the map.
  unfoldable pub step : Channels → Call → Channels
  step channels (opens a b amount_a amount_b) = (open_channel a b amount_a amount_b channels).0
  step channels (pays id sender amount) = (pay id sender amount channels).0
  step channels (closes id) = (close_channel id channels).0

  unfoldable pub run : Channels → List Call → Channels
  run channels [] = channels
  run channels (c ∷ cs) = run (step channels c) cs

  -- The two ways that `pay` can go.
  pub pay_cases :
      (id sender : Bytes) (amount : ℕ) (channels : Channels)
      → (pay id sender amount channels ≡ (channels, false))
        ⊎ ((ch ch' : Channel) × (get_channel id channels ≡ some ch)
            × (is_active ch.state ≡ true)
            × (transfer sender amount ch ≡ some ch')
            × (pay id sender amount channels ≡ (insert id (advance amount ch') channels, true)))
  unfolding pay get_channel
  pay_cases id sender amount channels = elim (Option-cases (lookup id channels)) [
    | inl absent ↦ inl (rw (absent, pay))
    | inr (ch, found) ↦ elim (Bool-cases (is_active ch.state)) [
      | inr idle ↦ inl (rw (found, pay, idle))
      | inl up ↦ elim (Option-cases (transfer sender amount ch)) [
        | inl poor ↦ inl (rw (found, pay, up, poor))
        | inr (ch', moved) ↦ inr (ch, ch', found, up, moved, rw (found, pay, up, moved))
      ]
    ]
  ]

  pub advance-IsBalanced :
      (amount : ℕ) (ch : Channel) → IsBalanced ch → IsBalanced (advance amount ch)
  unfolding advance
  advance-IsBalanced amount ch b = record { fits = b.fits; conserved = b.conserved }

  pub step-AllBalanced :
      (channels : Channels) (c : Call)
      → IsSane c
      → AllBalanced channels
      → AllBalanced (step channels c)
  unfolding step open_channel close_channel
  step-AllBalanced channels (opens a b amount_a amount_b) sane all =
      AllBalanced-insert _ _ channels (record { fits = omega arith; conserved = omega arith }) all
  step-AllBalanced channels (pays id sender amount) sane all =
      elim (pay_cases id sender amount channels) [
        | inl refused ↦ rw (refused, step) all
        | inr (ch, ch', found, up, moved, e) ↦
            rw (e, step)
              (AllBalanced-insert id (advance amount ch') channels
                (advance-IsBalanced amount ch'
                  (transfer-IsBalanced sender amount ch ch' moved (all.at_id id ch found)))
                all)
      ]
  step-AllBalanced channels (closes id) sane all = elim (Option-cases (get_channel id channels)) [
    | inl absent ↦ rw (close_absent id channels absent, step) all
    | inr (ch, found) ↦
        let b = all.at_id id ch found in
        rw (close_found id channels ch found, step)
          (AllBalanced-insert id (record ch { state = closed }) channels
            (record { fits = b.fits; conserved = b.conserved }) all)
  ]
