-- ===== src/Layer2/Channel/History.antt =====
-- src/layer2/channel.cpp: what a history of calls does to the coins of all channels and to the terms of
-- one of them.
use rex_coin.Base.{
  ℕ, ◌+◌, ◌≡◌, inl, inr, false, Option, none, some, List, [], ◌∷◌, arith, All, sum_by, Bytes, eqb,
  Option-cases,
}
use rex_coin.Dict.{lookup, lookup-insert, sum_by-insert_old, sum_by-insert_new}
use rex_coin.Hasher.{Hasher}
use rex_coin.Layer2.Channel.{
  Channel, Channels, generate_channel_id, open_channel, pay, close_channel, get_channel,
}
use rex_coin.Layer2.Channel.Conservation.{
  AllBalanced, Call, opens, pays, closes, IsSane, step, run, close_absent, step-AllBalanced,
}
use rex_coin.Layer2.Channel.Update.{
  coins, held, SameTerms, SameTerms-refl, SameTerms-trans, Update-coins, Update-SameTerms,
  close-Update, pay-Update,
}

-- The coins that a call brings, and those of a history: what is locked by its openings.
abbrev pub brings : Call → ℕ
brings (opens a b amount_a amount_b) = amount_a + amount_b
brings (pays id sender amount) = 0
brings (closes id) = 0

abbrev pub brought : List Call → ℕ
brought cs = sum_by brings cs

-- The coins of the channel that may have been there.
abbrev pub held_before : Option Channel → ℕ
held_before none = 0
held_before (some ch) = ch.balance_a + ch.balance_b

module _ ⦃h : Hasher⦄ where
  -- The coins of the channels whose ids are given again to a new channel: the code writes the new one
  -- in the place of the old one.
  abbrev lost_by : Channels → Call → ℕ
  lost_by channels (opens a b amount_a amount_b) =
      held_before (get_channel (generate_channel_id a b channels) channels)
  lost_by channels (pays id sender amount) = 0
  lost_by channels (closes id) = 0

  abbrev pub lost : Channels → List Call → ℕ
  lost channels [] = 0
  lost channels (c ∷ cs) = lost_by channels c + lost (step channels c) cs

  -- No opening of the history is given the id of the channel.
  abbrev pub IsKept : Bytes → Channels → Call → Type 0
  IsKept id channels (opens a b amount_a amount_b) =
      eqb (generate_channel_id a b channels) id ≡ false
  IsKept id channels (pays j sender amount) = Unit {0}
  IsKept id channels (closes j) = Unit {0}

  abbrev pub AllKept : Bytes → Channels → List Call → Type 0
  AllKept id channels [] = Unit {0}
  AllKept id channels (c ∷ cs) = IsKept id channels c × AllKept id (step channels c) cs

  open-coins :
      (a b : Bytes) (amount_a amount_b : ℕ) (channels : Channels)
      → coins (open_channel a b amount_a amount_b channels).0
          + held_before (get_channel (generate_channel_id a b channels) channels)
        ≡ coins channels + (amount_a + amount_b)
  unfolding open_channel get_channel
  open-coins a b amount_a amount_b channels =
      let id = generate_channel_id a b channels in
      elim (Option-cases (lookup id channels)) [
        | inl absent ↦ rw absent (omega (arith, sum_by-insert_new held id _ channels absent))
        | inr (ch, found) ↦ rw found (sum_by-insert_old held id _ ch channels found)
      ]

  step-coins :
      (channels : Channels) (c : Call)
      → AllBalanced channels
      → coins (step channels c) + lost_by channels c ≡ coins channels + brings c
  unfolding step
  step-coins channels (opens a b amount_a amount_b) all =
      omega (arith, open-coins a b amount_a amount_b channels)
  step-coins channels (pays id sender amount) all =
      elim (pay-Update id sender amount channels all) [
        | inl same ↦ rw same (omega arith)
        | inr u ↦ omega (arith, Update-coins channels (pay id sender amount channels).0 u all)
      ]
  step-coins channels (closes id) all = elim (Option-cases (get_channel id channels)) [
    | inl absent ↦ rw (close_absent id channels absent, step) (omega arith)
    | inr (ch, found) ↦ omega (
      arith,
      Update-coins channels (close_channel id channels).0 (close-Update id ch channels found all)
          all,
    )
  ]

  step-SameTerms :
      (j : Bytes) (channels : Channels) (c : Call)
      → IsKept j channels c
      → AllBalanced channels
      → SameTerms (get_channel j channels) (get_channel j (step channels c))
  unfolding step open_channel get_channel
  step-SameTerms j channels (opens a b amount_a amount_b) kept all =
      rw (lookup-insert (generate_channel_id a b channels) j _ channels, kept)
        (SameTerms-refl (lookup j channels))
  step-SameTerms j channels (pays id sender amount) kept all =
      elim (pay-Update id sender amount channels all) [
        | inl same ↦ rw same (SameTerms-refl (lookup j channels))
        | inr u ↦ Update-SameTerms channels (pay id sender amount channels).0 u j
      ]
  step-SameTerms j channels (closes id) kept all = elim (Option-cases (get_channel id channels)) [
    | inl absent ↦ rw (close_absent id channels absent, step) (SameTerms-refl (lookup j channels))
    | inr (ch, found) ↦
        Update-SameTerms channels (close_channel id channels).0
          (close-Update id ch channels found all) j
  ]

  -- Over any history of calls on balanced channels, where the two amounts of each opening add up
  -- within 64 bits: every channel is balanced, its two balances being together what was locked; and
  -- the coins of all channels are those from before and those that the openings brought, less the
  -- coins of each channel whose id an opening has given to a new channel. A channel whose id no opening
  -- has taken is still there, with its parties and with the total that was locked in it.
  pub run-AllBalanced :
      (id : Bytes) (channels : Channels) (cs : List Call)
      → All IsSane cs
      → AllKept id channels cs
      → AllBalanced channels
      → AllBalanced (run channels cs)
        × (coins (run channels cs) + lost channels cs ≡ coins channels + brought cs)
        × SameTerms (get_channel id channels) (get_channel id (run channels cs))
  unfolding run
  run-AllBalanced id channels [] sane kept all =
      (all, omega arith, SameTerms-refl (get_channel id channels))
  run-AllBalanced id channels (c ∷ cs) (sane, rest) (kept, later) all =
      let next = step channels c in
      let one = step-coins channels c all in
      let (balanced, sum, same) =
        run-AllBalanced id next cs rest later (step-AllBalanced channels c sane all) in
      (
        balanced,
        omega (arith, one, sum),
        SameTerms-trans (get_channel id channels) (get_channel id next)
            (get_channel id (run next cs)) (step-SameTerms id channels c kept all) same,
      )
