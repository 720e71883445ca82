-- ===== src/Tests/Program.antt =====
-- src/main.cpp: the theorems on small arguments, and the server's answer.
use rex_coin.Base.{ℕ, ◌≡◌, refl, true, some, List, [], ◌∷◌, ◌++◌, ◌>>=◌, codes, arith, u32}
use rex_coin.Base.Text.{eqb}
use rex_coin.Base.Int.{pos}
use rex_coin.Crypto.Sha256.Digest.{sha256_hasher}
use rex_coin.Core.Transaction.{Transaction, create_coinbase}
use rex_coin.Core.Block.{Block, new_block}
use rex_coin.Core.Blockchain.{Blockchain, opened_chain, add_block, get_block_reward, get_height}
use rex_coin.Program.Args.{Args, default_args, parse_args}
use rex_coin.Program.Options.{
  Setting, datadir, connect, port, mine, word, arguments_of, parse_args-arguments_of,
}
use rex_coin.Program.Demo.{Times, mine_pending}
use rex_coin.Program.Demo.Outcome.{mine_pending-add_block}

-- `--address` and its value are among the words that the program does not know.
abbrev settings : List Setting
settings =
    mine
    ∷ word (codes "--address")
    ∷ word (codes "RXC1")
    ∷ port 9000
    ∷ connect (codes "127.0.0.1:8333")
    ∷ port 8334
    ∷ datadir (codes "./data")
    ∷ []

abbrev args : Args
args = record {
  data_dir = codes "./data";
  connect_to = codes "127.0.0.1:8333";
  p2p_port = 8334;
  mine_mode = true;
}

parse_args-arguments_of_example :
    (parse_args (arguments_of settings) default_args ≡ some args)
    × (parse_args (arguments_of settings ++ codes "--port" ∷ []) default_args ≡ some args)
unfolding eqb
parse_args-arguments_of_example =
    parse_args-arguments_of settings (codes "--port") default_args
      (
        tt,
        (
          (refl, refl, refl, refl),
          ((refl, refl, refl, refl), (omega arith, (tt, (omega arith, (tt, tt))))),
        ),
      )
      refl

-- An option without its value changes nothing.
missing_value : parse_args (codes "--port" ∷ []) default_args ≡ some default_args
unfolding parse_args eqb
missing_value = refl

abbrev times : Times
times = record {
  coinbase_time = pos 1767225600;
  first_time = pos 1767225601;
  second_time = pos 1767225602;
  now = pos 1767225603;
  block_time = pos 1767225604;
}

abbrev sort_none : (Transaction → ℕ) → List Transaction → List Transaction
sort_none rate txs = txs

abbrev genesis : Block
genesis =
    new_block (pos 1767225600) 0 (codes "0")
      (create_coinbase (pos 1767225600) (codes "genesis") 50 0 ∷ []) 0

abbrev chain : Blockchain
chain = record (opened_chain (pos 1767225600) (codes "./data")) { chain = genesis ∷ [] }

mine_pending-add_block_example :
    mine_pending sort_none 9 times (codes "miner") (codes "a") (codes "b") chain ≡ (do
      chain' ←
          add_block 9 times.now times.block_time
            (create_coinbase times.coinbase_time
                (codes "miner")
                (get_block_reward chain)
                (u32 (get_height chain))
              ∷ [])
            chain
      some ([], chain'))
mine_pending-add_block_example =
    mine_pending-add_block sort_none 9 times (codes "miner") (codes "a") (codes "b") chain
      (λ rate. refl)
