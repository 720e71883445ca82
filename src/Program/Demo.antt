-- ===== src/Program/Demo.antt =====
-- src/main.cpp: the numbered sections of `main`, on the values that the sections before give. The
-- clock, the random sources, `std::sort` and the system's calls are arguments; the lines that only
-- print are left out.
pub mod Outcome
use rex_coin.Base.{
  ℕ, ◌*◌, ◌≡◌, Bool, true, false, not, ◌&&◌, Option, none, some, List, [], ◌∷◌, if◌then◌else◌,
  Bytes, codes, eqb, u32, ◌>>=◌,
}
use rex_coin.Base.Int.{ℤ}
use rex_coin.Hasher.{Hasher, sha256}
use rex_coin.Core.Transaction.{Transaction, TxOutput, create, create_coinbase}
use rex_coin.Core.Mempool
use rex_coin.Core.Mempool.{Mempool, get_top_txs, remove_confirmed}
use rex_coin.Core.Block.{Block}
use rex_coin.Core.Blockchain.{
  Blockchain, new_blockchain, add_block, get_block_reward, get_height, get_latest_block,
}
use rex_coin.Crypto.Ecdsa.{Curve}
use rex_coin.Crypto.Wallet.{Wallet, new_wallet, sign_transaction, verify_signature}
use rex_coin.Network.Socket.{Sockets}
use rex_coin.Network.Node.{Node, new_node, start_node, on_message, connect_to_peer, broadcast}
use rex_coin.Vm.Machine.{VmState, deploy_contract, call}
use rex_coin.Vm.Compiler.{compile}
use rex_coin.Privacy.ZkProof.{create_shielded_tx, verify_shielded_tx}
use rex_coin.Layer2.Channel.{Channels, open_channel, pay, close_channel}
use rex_coin.Api.Rpc
use rex_coin.Program.Args.{Args, peer_target}

-- An output of the section on mining: `{amount * 100000000ULL, address, "P2PKH"}`
abbrev pub coins : ℕ → Bytes → List TxOutput
coins amount address =
    record { amount = amount * 100000000; address = address; script_pub_key = codes "P2PKH" } ∷ []

-- The times that the section on mining reads.
pub record Times : Type 0 where
  pub coinbase_time : ℤ
  pub first_time : ℤ
  pub second_time : ℤ
  pub now : ℤ
  pub block_time : ℤ

module _ ⦃h : Hasher⦄ where
  -- Section 3: the wallet signs a message and checks its signature.
  pub check_signature : ⦃curve : Curve⦄ → Wallet → Option Bool
  check_signature wallet = do
    let msg_hash = sha256 (codes "RexCoin_test_tx_2026")
    sig ← sign_transaction msg_hash wallet
    verify_signature msg_hash sig wallet

  -- Section 4: two transfers for the pool, and a block of what the pool gives.
  unfoldable pub mine_pending :
      (sort : (Transaction → ℕ) → List Transaction → List Transaction) (fuel : ℕ)
      → Times
      → (miner a b : Bytes) → Blockchain
      → Option (Mempool × Blockchain)
  mine_pending sort fuel times miner a b chain =
      let cb =
        create_coinbase times.coinbase_time miner (get_block_reward chain)
          (u32 (get_height chain)) in
      let tx1 = create times.first_time [] (coins 5 a) in
      let tx2 = create times.second_time [] (coins 2 b) in
      let mempool = (Mempool.add tx2 (Mempool.add tx1 []).0).0 in
      do
        chain' ← add_block fuel times.now times.block_time (cb ∷ get_top_txs sort 10 mempool) chain
        some (remove_confirmed (tx1.tx_hash ∷ tx2.tx_hash ∷ []) mempool, chain')

  -- Section 7: a contract is compiled, deployed and called.
  unfoldable pub run_contract : Bytes → VmState
  run_contract owner =
      let (vm, address) = deploy_contract (compile (codes "SHA256 SSTORE HALT")) owner 100000 [] in
      call address (codes "hello_rex") 100000 vm

  -- Section 8: a shielded transaction and its check.
  pub check_shielded : (rand private_key address : Bytes) → Bool
  check_shielded rand private_key address =
      verify_shielded_tx (create_shielded_tx rand private_key address (5 * 100000000) 10000)

  -- Section 9: a channel is opened, used and closed.
  unfoldable pub use_channel : (a b : Bytes) → Channels × Bytes
  use_channel a b =
      let (opened, id) = open_channel a b (10 * 100000000) (10 * 100000000) [] in
      ((close_channel id (pay id a (3 * 100000000) opened).0).0, id)

-- Section 10: a request to the server that has been started.
pub ask_rpc : Option Rpc.RpcResponse
ask_rpc =
    Rpc.handle (Rpc.start (Rpc.new_server 8332))
      (codes "{\"method\":\"getnetworkinfo\",\"params\":[],\"id\":1}")

-- What `node.broadcast("NEW_BLOCK", …)` says of the newest block.
unfoldable pub latest_hash : Blockchain → Option Bytes
latest_hash chain = do b ← get_latest_block chain; some b.hash

module _ {W : Type 0} ⦃sys : Sockets W⦄ ⦃h : Hasher⦄ (clock : W → ℕ) (listen : ℕ → W → Bool × W)
    (dial : Bytes → ℕ → W → Option ℤ × W) where
  -- `node.connectToPeer(peerIP, peerPort)`, where the arguments name a peer.
  unfoldable pub connect_named : Bytes → Node W → W → Option (Node W × W)
  connect_named [] node w = some (node, w)
  connect_named (c ∷ connect_to) node w = do
    (ip, port) ← peer_target (c ∷ connect_to)
    (connected, rest) ← connect_to_peer clock dial ip port node w
    some rest

  -- Section 5: the node starts, connects, and announces the newest block; the Boolean is `p2pOk`. The
  -- handler of its messages only prints them.
  unfoldable pub join_network : Args → Blockchain → W → Option (Bool × (Node W × W))
  join_network args chain w =
      let node =
        on_message (λ peer type payload w'. w') (new_node (codes "0.0.0.0") args.p2p_port) in
      let (bound, (node', w')) = start_node listen node w in
      elim bound [
        | false ↦ some (false, (node', w'))
        | true ↦ do
          (node'', w'') ← connect_named args.connect_to node' w'
          hash ← latest_hash chain
          (count, w3) ← broadcast false (codes "NEW_BLOCK") hash node'' w''
          some (true, (node'', w3))
      ]
