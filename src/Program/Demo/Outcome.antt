-- ===== src/Program/Demo/Outcome.antt =====
-- src/main.cpp: what the sections of `main` come to.
use rex_coin.Base.{
  ℕ, ◌≡◌, refl, true, false, some, List, [], ◌∷◌, ◌++◌, ◌>>=◌, Bytes, codes, u32, Bool-cases, inl,
  inr, leb, length,
}
use rex_coin.Base.Text.{eqb, eqb_refl}
use rex_coin.Dict.{lookup, insert, erase, lookup-insert_self}
use rex_coin.Base.Int.{ℤ}
use rex_coin.Base.Decimal.{decimal}
use rex_coin.Hasher.{Hasher, sha256}
use rex_coin.Core.Transaction
use rex_coin.Core.Transaction.{Transaction, create, create_coinbase}
use rex_coin.Core.Mempool
use rex_coin.Core.Mempool.{Mempool, get_top_txs, fee_rate, remove_confirmed}
use rex_coin.Core.Blockchain.{Blockchain, add_block, get_block_reward, get_height}
use rex_coin.Vm.Machine.{
  execute, execute_loop, apply_opcode, start_state, deploy_contract, call, generate_address, Vm,
  Contract,
}
use rex_coin.Vm.Op
use rex_coin.Vm.Gas.{consume}
use rex_coin.Vm.Compiler.{compile, tokenize, emit_token, emit_all}
use rex_coin.Vm.Opcode.{opcode_gas_cost}
use rex_coin.Layer2.Channel.{
  Channel, Channels, ChannelState, get_channel, is_active, open_channel, pay, close_channel,
  transfer, advance, generate_channel_id,
}
use rex_coin.Program.Demo.{Times, coins, mine_pending, run_contract, use_channel}

module _ ⦃h : Hasher⦄ where
  refused :
      (time : ℤ) (amount : ℕ) (address : Bytes) (pool : Mempool)
      → Mempool.add (create time [] (coins amount address)) pool ≡ (pool, false)
  unfolding Mempool.add create Transaction.is_valid
  refused time amount address pool = elim (Bool-cases (leb Mempool.max_size (length pool))) [
    | inl full ↦ rw (Mempool.add, full) refl
    | inr room ↦ rw (Mempool.add, room) refl
  ]

  top_empty :
      (sort : (Transaction → ℕ) → List Transaction → List Transaction)
      → ((rate : Transaction → ℕ) → sort rate [] ≡ [])
      → get_top_txs sort 10 [] ≡ []
  unfolding get_top_txs
  top_empty sort sorts = rw (get_top_txs, sorts fee_rate) refl

  removed_empty : (x y : Bytes) → remove_confirmed (x ∷ y ∷ []) [] ≡ []
  unfolding remove_confirmed erase
  removed_empty x y = refl

  -- The two transfers have no inputs, so that the pool refuses them: where sorting no transactions
  -- gives none, the block holds the coinbase alone, and the pool is empty at the end.
  pub mine_pending-add_block :
      (sort : (Transaction → ℕ) → List Transaction → List Transaction) (fuel : ℕ) (times : Times)
      (miner a b : Bytes) (chain : Blockchain)
      → ((rate : Transaction → ℕ) → sort rate [] ≡ [])
      → let cb =
          create_coinbase times.coinbase_time miner
            (get_block_reward chain)
            (u32 (get_height chain)) in
        mine_pending sort fuel times miner a b chain
        ≡ (do chain' ← add_block fuel times.now times.block_time (cb ∷ []) chain; some ([], chain'))
  unfolding mine_pending
  mine_pending-add_block sort fuel times miner a b chain sorts =
      rw
        (
          mine_pending,
          refused times.first_time 5 a [],
          refused times.second_time 2 b [],
          top_empty sort sorts,
          removed_empty _ _,
        )
        refl

  abbrev stored_code : Bytes
  stored_code = Op.sha256 ∷ Op.sstore ∷ Op.halt ∷ []

  compiled : compile (codes "SHA256 SSTORE HALT") ≡ stored_code
  unfolding compile tokenize emit_token emit_all eqb
  compiled = refl

  call_known :
      (address input : Bytes) (limit : ℕ) (vm : Vm) (contract : Contract)
      → lookup address vm ≡ some contract
      → call address input limit vm ≡ execute contract.bytecode input limit
  unfolding call
  call_known address input limit vm contract e = rw (call, e) refl

  called :
      (code owner input : Bytes) (limit : ℕ)
      → (let (vm, address) = deploy_contract code owner limit [] in call address input limit vm)
        ≡ execute code input limit
  unfolding deploy_contract
  called code owner input limit =
      call_known (generate_address owner code) input limit _ _
        (lookup-insert_self (generate_address owner code) _ [])

  -- The contract runs to its end for every owner, and stores nothing.
  run_contract_lem :
      (owner : Bytes)
      → ((run_contract owner).halted ≡ true)
        × ((run_contract owner).reverted ≡ false)
        × ((run_contract owner).storage ≡ [])
  unfolding run_contract execute execute_loop apply_opcode start_state consume opcode_gas_cost
  run_contract_lem owner =
      rw (run_contract, compiled, called stored_code owner (codes "hello_rex") 100000)
        (refl, refl, refl)

  closed_known :
      (id : Bytes) (ch : Channel) (channels : Channels)
      → lookup id channels ≡ some ch
      → get_channel id (close_channel id channels).0
        ≡ some (record ch { state = ChannelState.closed })
  unfolding get_channel close_channel
  closed_known id ch channels known = rw (close_channel, known) (lookup-insert_self id _ channels)

  module _ (id a : Bytes) (amount : ℕ) (ch ch' : Channel) (channels : Channels)
      (known : lookup id channels ≡ some ch) (open_still : is_active ch.state ≡ true)
      (moved : transfer a amount ch ≡ some ch') where
    paid : pay id a amount channels ≡ (insert id (advance amount ch') channels, true)
    unfolding pay
    paid = rw (pay, known, open_still, moved) refl

    paid_closed :
        get_channel id (close_channel id (pay id a amount channels).0).0
        ≡ some (record (advance amount ch') { state = ChannelState.closed })
    paid_closed = rw paid (
        closed_known id (advance amount ch') (insert id (advance amount ch') channels)
          (lookup-insert_self id (advance amount ch') channels))

  -- The channel of `open_channel`, and after the payment.
  abbrev first_channel : Bytes → Bytes → Channel
  first_channel a b = record {
    channel_id = generate_channel_id a b [];
    party_a = a;
    party_b = b;
    balance_a = 1000000000;
    balance_b = 1000000000;
    total_locked = 2000000000;
    sequence_num = 0;
    state = ChannelState.active;
    latest_state_hash = sha256 (a ++ b ++ decimal 1000000000 ++ decimal 1000000000);
  }

  first_transfer :
      (a b : Bytes)
      → transfer a 300000000 (first_channel a b)
        ≡ some (record (first_channel a b) { balance_a = 700000000; balance_b = 1300000000 })
  unfolding transfer
  first_transfer a b = rw (transfer, eqb_refl a) refl

  -- Whoever the two parties are, the channel is closed with 7 coins of the first and 13 of the second.
  use_channel_lem :
      (a b : Bytes)
      → let (channels, id) = use_channel a b in
        (ch : Channel) × (get_channel id channels ≡ some ch)
        × (ch.balance_a ≡ 700000000)
        × (ch.balance_b ≡ 1300000000)
        × (ch.state ≡ ChannelState.closed)
  unfolding use_channel open_channel advance
  use_channel_lem a b =
      let id = generate_channel_id a b [] in
      (
        _,
        paid_closed id a 300000000 (first_channel a b) _ (insert id (first_channel a b) [])
            (lookup-insert_self id (first_channel a b) []) refl (first_transfer a b),
        refl,
        refl,
        refl,
      )
