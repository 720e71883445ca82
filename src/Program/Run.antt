-- ===== src/Program/Run.antt =====
-- src/main.cpp: `main` as a whole. `none` stands for an exception, for the fuel of the mining, or for a
-- thread that waits for its own lock.
use rex_coin.Base.{ℕ, Bool, false, ◌&&◌, Option, some, List, Bytes, if◌then◌else◌, ◌>>=◌}
use rex_coin.Base.Int.{ℤ}
use rex_coin.Hasher.{Hasher}
use rex_coin.Core.Transaction.{Transaction}
use rex_coin.Core.Mempool.{Mempool}
use rex_coin.Core.Blockchain.{Blockchain, new_blockchain}
use rex_coin.Crypto.Ecdsa.{Curve}
use rex_coin.Crypto.Wallet.{new_wallet}
use rex_coin.Network.Socket.{Sockets}
use rex_coin.Network.Node.{Node, stop}
use rex_coin.Vm.Machine.{VmState}
use rex_coin.Layer2.Channel.{Channels}
use rex_coin.Api.Rpc.{RpcResponse}
use rex_coin.Program.Args.{Args, default_args, parse_args}
use rex_coin.Program.Demo.{
  Times, check_signature, mine_pending, run_contract, check_shielded, use_channel, ask_rpc,
  join_network,
}

-- The chain's start: the three times that its constructor reads.
pub record Start : Type 0 where
  pub now : ℤ
  pub tx_time : ℤ
  pub block_time : ℤ

-- What the random source gives for the three wallets and the commitment.
pub record Seeds : Type 0 where
  pub miner : ℕ
  pub first : ℕ
  pub second : ℕ
  pub rand : Bytes

-- What the sections leave.
pub record Outcome (W : Type 0) : Type 0 where
  pub signature_ok : Bool
  pub mempool : Mempool
  pub chain : Blockchain
  pub node : Node W
  pub world : W
  pub contract : VmState
  pub shielded_ok : Bool
  pub channels : Channels
  pub response : RpcResponse

module _ {W : Type 0} ⦃sys : Sockets W⦄ ⦃h : Hasher⦄ ⦃curve : Curve⦄ (clock : W → ℕ)
    (listen : ℕ → W → Bool × W) (dial : Bytes → ℕ → W → Option ℤ × W)
    (sort : (Transaction → ℕ) → List Transaction → List Transaction) where
  -- `node.stop()`; a mining node with a socket waits before it for ever, in the state that it has then.
  pub finish : Bool → Node W → W → Option (Node W × W)
  finish forever node w = if forever then some (node, w) else stop false node w

  -- `main` after the arguments.
  pub run_sections : ℕ → Args → Start → Times → Seeds → W → Option (Outcome W)
  run_sections fuel args start times seeds w = do
    opened ← new_blockchain fuel start.now start.tx_time start.block_time args.data_dir
    miner ← new_wallet seeds.miner
    a ← new_wallet seeds.first
    b ← new_wallet seeds.second
    signature_ok ← check_signature a
    (mempool, chain) ← mine_pending sort fuel times miner.address a.address b.address opened
    (p2p_ok, (joined, w')) ← join_network clock listen dial args chain w
    response ← ask_rpc
    (node, world) ← finish (args.mine_mode && p2p_ok) joined w'
    some (record {
      signature_ok = signature_ok;
      mempool = mempool;
      chain = chain;
      node = node;
      world = world;
      contract = run_contract a.address;
      shielded_ok = check_shielded seeds.rand a.key_pair.private_key b.address;
      channels = (use_channel a.address b.address).0;
      response = response;
    })

  -- `main`
  pub run_main : ℕ → List Bytes → Start → Times → Seeds → W → Option (Outcome W)
  run_main fuel arguments start times seeds w = do
    args ← parse_args arguments default_args
    run_sections fuel args start times seeds w
