-- ===== src/Layer2/Channel.antt =====
-- src/layer2/channel.h and src/layer2/channel.cpp. A method returns the new map beside its result.
pub mod Conservation
pub mod History
pub mod Update
pub mod Payments
use rex_coin.Base.{
  ℕ, zero, suc, ◌+◌, ◌-◌, Bool, true, false, ◌&&◌, ◌||◌, Option, none, some, List, [], ◌∷◌, ◌++◌,
  leb, length, take, if◌then◌else◌, Bytes, eqb, u32, u64,
}
use rex_coin.Base.Decimal.{decimal}
use rex_coin.Dict.{Dict, lookup, insert}
use rex_coin.Hasher.{Hasher, sha256}

-- `enum class ChannelState`
pub data ChannelState : Type 0 where
  opened active closing closed : ChannelState

-- `struct Channel`
pub record Channel : Type 0 where
  pub channel_id : Bytes
  pub party_a : Bytes
  pub party_b : Bytes
  pub balance_a : ℕ
  pub balance_b : ℕ
  pub total_locked : ℕ
  pub sequence_num : ℕ
  pub state : ChannelState
  pub latest_state_hash : Bytes

-- `class PaymentChannel`
abbrev pub Channels : Type 0
Channels = Dict Channel

-- `ch.state == ChannelState::ACTIVE`
abbrev pub is_active : ChannelState → Bool
is_active active = true
is_active _ = false

-- `PaymentChannel::generateChannelId`
unfoldable pub generate_channel_id : ⦃h : Hasher⦄ → Bytes → Bytes → Channels → Bytes
generate_channel_id a b channels = take 16 (sha256 (a ++ b ++ decimal (length channels)))

-- `PaymentChannel::openChannel`
unfoldable pub open_channel : ⦃h : Hasher⦄ → Bytes → Bytes → ℕ → ℕ → Channels → Channels × Bytes
open_channel party_a party_b amount_a amount_b channels =
    let id = generate_channel_id party_a party_b channels in
    let ch : Channel = record {
      channel_id = id;
      party_a = party_a;
      party_b = party_b;
      balance_a = amount_a;
      balance_b = amount_b;
      total_locked = u64 (amount_a + amount_b);
      sequence_num = 0;
      state = active;
      latest_state_hash = sha256 (party_a ++ party_b ++ decimal amount_a ++ decimal amount_b);
    } in
    (insert id ch channels, id)

-- `ch.sequenceNum++; ch.latestStateHash = …;`
unfoldable pub advance : ⦃h : Hasher⦄ → ℕ → Channel → Channel
advance amount ch = record ch {
  sequence_num = u32 (ch.sequence_num + 1);
  latest_state_hash = sha256 (ch.latest_state_hash ++ decimal amount);
}

-- The two directions of a payment; `none` where the balance is not enough.
unfoldable pub transfer : Bytes → ℕ → Channel → Option Channel
transfer sender amount ch =
    if eqb sender ch.party_a && leb amount ch.balance_a
    then some
        (record ch { balance_a = ch.balance_a - amount; balance_b = u64 (ch.balance_b + amount) })
    else if eqb sender ch.party_b && leb amount ch.balance_b
    then some
        (record ch { balance_b = ch.balance_b - amount; balance_a = u64 (ch.balance_a + amount) })
    else none

-- `PaymentChannel::pay`
unfoldable pub pay : ⦃h : Hasher⦄ → Bytes → Bytes → ℕ → Channels → Channels × Bool
pay channel_id sender amount channels = elim (lookup channel_id channels) [
  | none ↦ (channels, false)
  | some ch ↦
      if is_active ch.state
      then elim (transfer sender amount ch) [
        | none ↦ (channels, false)
        | some ch' ↦ (insert channel_id (advance amount ch') channels, true)
      ]
      else (channels, false)
]

-- `PaymentChannel::closeChannel`
unfoldable pub close_channel : Bytes → Channels → Channels × Bool
close_channel channel_id channels = elim (lookup channel_id channels) [
  | none ↦ (channels, false)
  | some ch ↦ (insert channel_id (record ch { state = closed }) channels, true)
]

-- `PaymentChannel::getChannel`
unfoldable pub get_channel : Bytes → Channels → Option Channel
get_channel id channels = lookup id channels

-- `PaymentChannel::getChannels`
pub get_channels : Bytes → Channels → List Bytes
get_channels address [] = []
get_channels address ((id, ch) ∷ channels) =
    let rest = get_channels address channels in
    if eqb ch.party_a address || eqb ch.party_b address then id ∷ rest else rest
