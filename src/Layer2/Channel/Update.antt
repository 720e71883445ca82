-- ===== src/Layer2/Channel/Update.antt =====
-- src/layer2/channel.cpp: what a call of `pay` or `closeChannel` writes to the map of channels.
use rex_coin.Base.{
  ℕ, ◌+◌, ◌≡◌, refl, sym, ap, ◌∙◌, ◌⊎◌, inl, inr, Bool, Option, none, some, arith, sum_by, Bytes,
  eqb, eqb_iff, Bool-cases,
}
use rex_coin.Dict.{lookup, insert, lookup-insert, sum_by-insert_old}
use rex_coin.Hasher.{Hasher}
use rex_coin.Layer2.Channel.{
  Channel, Channels, closed, advance, transfer, pay, close_channel, get_channel,
}
use rex_coin.Layer2.Channel.Conservation.{
  IsBalanced, AllBalanced, pay_cases, close_found, transfer-IsBalanced, advance-IsBalanced,
}

-- The coins of a channel, and of all channels.
abbrev pub held : Bytes × Channel → ℕ
held e = e.1.balance_a + e.1.balance_b

abbrev pub coins : Channels → ℕ
coins channels = sum_by held channels

-- A channel that was there still is, with its id and parties, and with what was locked.
abbrev pub SameTerms : Option Channel → Option Channel → Type 0
SameTerms none after = Unit {0}
SameTerms (some ch) none = ⊥
SameTerms (some ch) (some ch') =
    (ch'.total_locked ≡ ch.total_locked)
    × (ch'.channel_id ≡ ch.channel_id)
    × (ch'.party_a ≡ ch.party_a)
    × (ch'.party_b ≡ ch.party_b)

pub SameTerms-refl : (found : Option Channel) → SameTerms found found
SameTerms-refl none = tt
SameTerms-refl (some ch) = (refl, refl, refl, refl)

pub SameTerms-trans : (x y z : Option Channel) → SameTerms x y → SameTerms y z → SameTerms x z
SameTerms-trans none y z p q = tt
SameTerms-trans (some a) none z p q = absurd p
SameTerms-trans (some a) (some b) none p q = absurd q
SameTerms-trans (some a) (some b) (some c) (t, i, l, r) (t', i', l', r') =
    (t' ∙ t, i' ∙ i, l' ∙ l, r' ∙ r)

-- A call on channels that are there writes at most one of them, with its terms and in balance.
pub record Update (channels channels' : Channels) : Type 0 where
  id : Bytes
  before : Channel
  after : Channel
  found : get_channel id channels ≡ some before
  same_terms : SameTerms (some before) (some after)
  balanced : IsBalanced after
  written : channels' ≡ insert id after channels

module _ (channels channels' : Channels) (u : Update channels channels') where
  pub Update-coins : AllBalanced channels → coins channels' ≡ coins channels
  unfolding get_channel
  Update-coins all =
      let b = all.at_id u.id u.before u.found in
      let sum = sum_by-insert_old held u.id u.after u.before channels u.found in
      let e : coins channels' ≡ coins (insert u.id u.after channels) = ap coins u.written in
      omega (arith, b.conserved, u.balanced.conserved, u.same_terms.0)

  pub Update-SameTerms : (j : Bytes) → SameTerms (get_channel j channels) (get_channel j channels')
  unfolding get_channel
  Update-SameTerms j =
      rw (u.written, lookup-insert u.id j u.after channels)
        (elim (Bool-cases (eqb u.id j)) [
          | inl same ↦
              let e : u.id ≡ j = (eqb_iff u.id j).0 same in
              let there : lookup j channels ≡ some u.before =
                ap (λ (k : Bytes). lookup k channels) (sym e) ∙ u.found in
              rw (same, there) u.same_terms
          | inr other ↦ rw other (SameTerms-refl (lookup j channels))
        ])

transfer-SameTerms :
    (sender : Bytes) (amount : ℕ) (ch ch' : Channel)
    → transfer sender amount ch ≡ some ch'
    → SameTerms (some ch) (some ch')
unfolding transfer
transfer-SameTerms sender amount ch ch' moved = ground arith

-- Closing a channel that is there writes it.
pub close-Update :
    (id : Bytes) (ch : Channel) (channels : Channels)
    → get_channel id channels ≡ some ch
    → AllBalanced channels
    → Update channels (close_channel id channels).0
close-Update id ch channels found all =
    let b = all.at_id id ch found in
    record {
      id = id;
      before = ch;
      after = record ch { state = closed };
      found = found;
      same_terms = (refl, refl, refl, refl);
      balanced = record { fits = b.fits; conserved = b.conserved };
      written = ap (λ (r : Channels × Bool). r.0) (close_found id channels ch found);
    }

module _ ⦃h : Hasher⦄ where
  -- Paying changes nothing or writes one channel that is there.
  pub pay-Update :
      (id sender : Bytes) (amount : ℕ) (channels : Channels)
      → AllBalanced channels
      → ((pay id sender amount channels).0 ≡ channels)
        ⊎ Update channels (pay id sender amount channels).0
  unfolding advance
  pay-Update id sender amount channels all = elim (pay_cases id sender amount channels) [
    | inl refused ↦ inl (ap (λ (r : Channels × Bool). r.0) refused)
    | inr (ch, ch', found, up, moved, e) ↦ inr (record {
      id = id;
      before = ch;
      after = advance amount ch';
      found = found;
      same_terms = transfer-SameTerms sender amount ch ch' moved;
      balanced =
          advance-IsBalanced amount ch'
            (transfer-IsBalanced sender amount ch ch' moved (all.at_id id ch found));
      written = ap (λ (r : Channels × Bool). r.0) e;
    })
  ]
