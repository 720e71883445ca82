-- ===== src/Privacy/Mixer.antt =====
-- src/privacy/mixer.h and src/privacy/mixer.cpp. The flag `completed` of a round that has just begun
-- is not set by the code; here it begins as false.
use rex_coin.Base.{
  ℕ, zero, suc, ◌+◌, ◌%◌, ◌≤◌, ◌≡◌, refl, inl, inr, Bool, true, false, not, List, [], ◌∷◌, ◌++◌,
  arith, ltb, leb, length, get_or, set, All, All-append, if◌then◌else◌, Bytes, codes, eqb, substr,
  Bool-cases,
}
use rex_coin.Base.Decimal.{decimal}
use rex_coin.Hasher.{Hasher, sha256}

-- `struct MixRequest`
pub record MixRequest : Type 0 where
  pub input_address : Bytes
  pub output_address : Bytes
  pub amount : ℕ
  pub secret : Bytes

-- `struct MixRound`
pub record MixRound : Type 0 where
  pub participants : List MixRequest
  pub round_id : Bytes
  pub completed : Bool

-- `class TxMixer`
pub record TxMixer : Type 0 where
  pub current_round : MixRound
  pub completed_rounds : List MixRound

abbrev pub min_participants : ℕ
min_participants = 3

abbrev pub empty_round : MixRound
empty_round = record { participants = []; round_id = []; completed = false }

abbrev pub new_mixer : TxMixer
new_mixer = record { current_round = empty_round; completed_rounds = [] }

-- `TxMixer::isReady`
pub is_ready : TxMixer → Bool
is_ready mixer = leb min_participants (length mixer.current_round.participants)

module _ ⦃h : Hasher⦄ where
  -- `TxMixer::generateRoundId`
  pub generate_round_id : TxMixer → Bytes
  generate_round_id mixer =
      substr (sha256 (codes "MixRound_" ++ decimal (length mixer.completed_rounds))) 0 16

  -- `TxMixer::joinMix`
  pub join_mix : MixRequest → TxMixer → TxMixer
  join_mix request mixer =
      let round = mixer.current_round in
      let id = if eqb round.round_id [] then generate_round_id mixer else round.round_id in
      record mixer {
        current_round = record round {
          round_id = id;
          participants = round.participants ++ request ∷ [];
        };
      }

  -- `for (size_t i = outputs.size()-1; i > 0; i--) { … std::swap(outputs[i], outputs[j]); }`
  pub shuffle : ℕ → List Bytes → List Bytes
  shuffle zero outputs = outputs
  shuffle (suc i) outputs =
      let here = get_or outputs (suc i) [] in
      let j = get_or (sha256 here) 0 0 % (suc i + 1) in
      shuffle i (set (set outputs (suc i) (get_or outputs j [])) j here)

  -- `TxMixer::executeMix`; the shuffled outputs are a local variable and go no further.
  pub execute_mix : Bytes → TxMixer → TxMixer × Bool
  execute_mix round_id mixer =
      let round = mixer.current_round in
      if not (eqb round.round_id round_id)
      then (mixer, false)
      else if ltb (length round.participants) min_participants
      then (mixer, false)
      else (
        record mixer {
          completed_rounds = mixer.completed_rounds ++ record round { completed = true } ∷ [];
          current_round = empty_round;
        },
        true,
      )

  -- A call of the mixer.
  pub data Call : Type 0 where
    join : MixRequest → Call
    execute : Bytes → Call

  pub run : List Call → TxMixer → TxMixer
  run [] mixer = mixer
  run (join request ∷ calls) mixer = run calls (join_mix request mixer)
  run (execute round_id ∷ calls) mixer = run calls (execute_mix round_id mixer).0

  -- A completed round: it is marked, and has enough participants.
  abbrev pub IsCompleted : MixRound → Type 0
  IsCompleted round = (round.completed ≡ true) × (min_participants ≤ length round.participants)

  execute_mix-IsCompleted :
      (round_id : Bytes) (mixer : TxMixer)
      → All IsCompleted mixer.completed_rounds
      → All IsCompleted (execute_mix round_id mixer).0.completed_rounds
  unfolding execute_mix
  execute_mix-IsCompleted round_id mixer all =
      elim (Bool-cases (not (eqb mixer.current_round.round_id round_id))) [
        | inl other ↦ rw (execute_mix, other) all
        | inr same ↦
            elim (Bool-cases (ltb (length mixer.current_round.participants) min_participants)) [
              | inl few ↦ rw (execute_mix, same, few) all
              | inr enough ↦
                  rw (execute_mix, same, enough)
                    (All-append IsCompleted mixer.completed_rounds _ all ((refl, ground arith), tt))
            ]
      ]

  run-IsCompleted_from :
      (calls : List Call) (mixer : TxMixer)
      → All IsCompleted mixer.completed_rounds
      → All IsCompleted (run calls mixer).completed_rounds
  unfolding run join_mix
  run-IsCompleted_from [] mixer all = all
  run-IsCompleted_from (join request ∷ calls) mixer all =
      run-IsCompleted_from calls (join_mix request mixer) all
  run-IsCompleted_from (execute round_id ∷ calls) mixer all =
      run-IsCompleted_from calls (execute_mix round_id mixer).0
        (execute_mix-IsCompleted round_id mixer all)

  -- Whatever the calls, every completed round is marked and has at least three participants.
  pub run-IsCompleted : (calls : List Call) → All IsCompleted (run calls new_mixer).completed_rounds
  run-IsCompleted calls = run-IsCompleted_from calls new_mixer tt
