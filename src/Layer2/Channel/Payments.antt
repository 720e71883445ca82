-- ===== src/Layer2/Channel/Payments.antt =====
-- src/layer2/channel.cpp, `PaymentChannel::pay`: when it succeeds and what it moves.
use rex_coin.Base.{
  ℕ, ◌+◌, ◌-◌, ◌≤◌, ◌≡◌, ◌≢◌, refl, Bool, true, false, ◌&&◌, ◌||◌, none, some, inl, inr, arith, leb,
  if◌then◌else◌, Bytes, eqb, eqb_iff, u64, u32, Option-cases,
}
use rex_coin.Dict.{is_some, insert, lookup-insert_self, lookup-insert_ne}
use rex_coin.Hasher.{Hasher}
use rex_coin.Layer2.Channel.{
  Channel, Channels, closed, is_active, advance, transfer, pay, close_channel, get_channel,
}
use rex_coin.Layer2.Channel.Conservation.{pay_cases, close_absent, close_found, IsBalanced}

-- The sender can pay the amount from a balance of its own.
abbrev pub can_pay : Bytes → ℕ → Channel → Bool
can_pay sender amount ch =
    (eqb sender ch.party_a && leb amount ch.balance_a)
    || (eqb sender ch.party_b && leb amount ch.balance_b)

transfer-can_pay :
    (sender : Bytes) (amount : ℕ) (ch : Channel)
    → is_some (transfer sender amount ch) ≡ can_pay sender amount ch
unfolding transfer
transfer-can_pay sender amount ch = ground arith

module _ ⦃h : Hasher⦄ (id sender : Bytes) (amount : ℕ) (channels : Channels) where
  -- The outcome of `pay` on an existing channel.
  pay_at :
      (ch : Channel)
      → get_channel id channels ≡ some ch
      → pay id sender amount channels ≡ (
          if is_active ch.state
          then elim (transfer sender amount ch) [
            | none ↦ (channels, false)
            | some ch' ↦ (insert id (advance amount ch') channels, true)
          ]
          else (channels, false))
  unfolding pay get_channel
  pay_at ch found = rw (found, pay)

  -- `pay` fails where there is no channel.
  pay_absent : get_channel id channels ≡ none → pay id sender amount channels ≡ (channels, false)
  unfolding pay get_channel
  pay_absent absent = rw (absent, pay)

  pay_only_at :
      (j : Bytes)
      → j ≢ id
      → get_channel j (pay id sender amount channels).0 ≡ get_channel j channels
  pay_only_at j other = elim (pay_cases id sender amount channels) [
    | inl refused ↦ rw refused
    | inr (ch, ch', found, up, moved, e) ↦ rw e (
        unfold get_channel in
        lookup-insert_ne id j (advance amount ch') channels (ground (arith, eqb_iff id j)))
  ]

  -- On an existing channel `pay` succeeds exactly if the channel is active and the sender is a
  -- party with enough balance; any other channel is as it was.
  pub pay_succeeds :
      (ch : Channel) (j : Bytes)
      → get_channel id channels ≡ some ch
      → j ≢ id
      → ((pay id sender amount channels).1 ≡ (is_active ch.state && can_pay sender amount ch))
        × (get_channel j (pay id sender amount channels).0 ≡ get_channel j channels)
  pay_succeeds ch j found other = (
    rw (pay_at ch found) (ground (arith, transfer-can_pay sender amount ch)),
    pay_only_at j other,
  )

  -- A payment from the first party's balance in a balanced channel takes the amount from that
  -- balance, gives it to the other, counts one update, and keeps the total and the state.
  pub pay_moves :
      (ch : Channel)
      → get_channel id channels ≡ some ch
      → IsBalanced ch
      → is_active ch.state ≡ true
      → sender ≡ ch.party_a
      → amount ≤ ch.balance_a
      → (ch' : Channel) × (get_channel id (pay id sender amount channels).0 ≡ some ch')
        × (ch'.balance_a + amount ≡ ch.balance_a)
        × (ch'.balance_b ≡ ch.balance_b + amount)
        × (ch'.sequence_num ≡ u32 (ch.sequence_num + 1))
        × (ch'.total_locked ≡ ch.total_locked)
        × (ch'.state ≡ ch.state)
  unfolding advance
  pay_moves ch found b up same enough =
      let moved : Channel = record ch {
        balance_a = ch.balance_a - amount;
        balance_b = u64 (ch.balance_b + amount);
      } in
      let transfers : transfer sender amount ch ≡ some moved =
        unfold transfer in ground (arith, eqb_iff sender ch.party_a) in
      (
        advance amount moved,
        rw (pay_at ch found, up, transfers)
            (unfold get_channel in lookup-insert_self id (advance amount moved) channels),
        omega arith,
        (let c = b.conserved in let f = b.fits in omega arith),
        refl,
        refl,
        refl,
      )

-- Once a channel is closed, payments on it fail and change nothing.
pub pay-close_channel :
    ⦃h : Hasher⦄
    → (id sender : Bytes) (amount : ℕ) (channels : Channels)
    → let after = (close_channel id channels).0 in pay id sender amount after ≡ (after, false)
pay-close_channel id sender amount channels = elim (Option-cases (get_channel id channels)) [
  | inl absent ↦ rw (close_absent id channels absent) (pay_absent id sender amount channels absent)
  | inr (ch, found) ↦ rw (close_found id channels ch found) (
      pay_at id sender amount _ (record ch { state = closed })
        (unfold get_channel in lookup-insert_self id (record ch { state = closed }) channels))
]
