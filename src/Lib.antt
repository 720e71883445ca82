-- ===== src/Lib.antt =====
-- A verification library of RexCoin, a proof-of-work coin in C++ with a virtual machine and payment
-- channels. Paths below are from the repository's root.
--
-- The parts and how they interact. A `Blockchain` (src/core/blockchain.cpp) keeps a vector of
-- blocks, the set of unspent outputs (src/core/utxo.cpp), a database (src/storage/leveldb.cpp) and
-- a cache of serialised blocks (src/storage/cache.cpp). `addBlock` adjusts the difficulty, makes a
-- `Block` (src/core/block.cpp) over a Merkle root (src/core/merkle.cpp) of its transactions
-- (src/core/transaction.cpp), mines it, updates the outputs, and writes the block to the database.
-- Every digest is a SHA-256 (src/crypto/sha256.cpp). The machine (src/vm) runs bytecode under a gas
-- meter, and the channels (src/layer2/channel.cpp) move coins between two parties off the chain.
--
-- Which file models which part:
-- - Base and its children: native numbers with tests, lists, 32- and 64-bit words, texts as lists of
--   bytes, `std::to_string` and `std::stoul`, the signed times; Dict: `std::unordered_map` as an
--   association list. The order in which the program iterates over such a map is unspecified; the
--   list fixes one, and no result depends on which.
-- - Hasher: the interface of a hash with 64 hex digits, an instance argument of every part that
--   hashes; Crypto.Sha256 is the hash of the program and fills it (Crypto.Sha256.Digest).
-- - Crypto.Sha3: `SHA3` of src/crypto/sha3.cpp.
-- - Crypto.Hex: `bytesToHex` and `hexToBytes` of src/crypto/ecdsa.cpp; Crypto.Ecdsa: the other functions
--   of that file, over OpenSSL's curve as the interface `Curve`; Crypto.Wallet: `Wallet`.
-- - Crypto.Base58, Crypto.Ripemd160, Crypto.Hash160, Crypto.Bls: the classes of src/crypto of those names.
-- - Core.Utxo: `UTXOSet`; Core.Transaction: `Transaction`; Core.Merkle: `MerkleTree`; Core.Block:
--   `Block`; Core.Blockchain: `Blockchain`, one function per method, the helpers of a method beside
--   it. The modules below each of them hold what is proved of it.
-- - Storage.Db: `BlockchainDB` and `DBBatch` in the in-memory build; Storage.Cache: `LRUCache`, whose
--   list nodes have identities in place of iterators, and below it the list of entries by recency that it
--   implements.
-- - Vm.Opcode, Vm.Gas, Vm.Machine: the opcode table, `GasMeter` and `VM`.
-- - Vm.Compiler: `Compiler` of src/vm/compiler.cpp.
-- - Core.Mempool, Core.Script: `Mempool` and `Script` of src/core.
-- - Consensus.Pow, Consensus.Pos, Consensus.Hybrid, Consensus.Difficulty: the classes of
--   src/consensus; Governance.Proposal, Governance.Dao: those of src/governance.
-- - Layer2.Channel: `PaymentChannel`; Layer2.Lightning: `LightningNetwork`; Layer2.Sidechain: `Sidechain`.
-- - Network.Frame, Network.Socket, Network.Node: the frames, the calls of sockets and the table of peers of
--   `Node` (src/network/node.cpp). The system is the interface `Sockets` over a type of its states; a
--   thread that waits for a lock which it holds has no result. Network.Peers, Network.Protocol and
--   Network.Seeds: the rest of src/network.
-- - Privacy.ZkProof, Privacy.Mixer, Privacy.Stealth: src/privacy; Api.Rpc, Api.Rest, Api.WebSocket:
--   src/api, where a handler is a function; Storage.Pruning: `ChainPruner`.
-- - Network.Node.Threads: the threads of a node over its lock, as steps that interleave in any order.
-- - Program.Args, Program.Demo, Program.Run: the arguments, the sections and the whole of `main`
--   (src/main.cpp), which calls the other parts.
-- - Tests: known answers, and the results at concrete inputs.
--
-- A method that changes its object takes the object last and returns the new one, beside the result
-- where there is one. A readout of the clock is an argument. Additions of unsigned words wrap.
-- `std::sort` and the comparison of doubles in the votes of src/governance are parameters.
--
-- Fuel. Each pass of the Merkle loops is one unit and the number of leaves is enough
-- (Core.Merkle.Layers). The mining loops take one unit per round; they have no bound of their own, so the
-- results say how much fuel is enough in terms of the round that meets the target. Base58 takes two units
-- for each byte, as a digit is worth more than half a byte (Crypto.Base58.Digits); a carry of its decoder
-- has at most four bytes. `sendRaw` takes one unit for each byte, since each call of `send` takes at least
-- one. The route search takes one unit for each entry of the graph and one more: a node enters the queue
-- once, as an entry of a node taken from it (Layer2.Lightning.Fuel). The thread that receives from a
-- peer runs for a number of rounds that is an argument.
--
-- Not modelled: console output and directories; the system's calls that set up the listening socket and a
-- connection, which are arguments; and the LevelDB build of the database, a library.
pub mod Base
pub mod Dict
pub mod Hasher
pub mod Core
pub mod Storage
pub mod Crypto
pub mod Vm
pub mod Layer2
pub mod Governance
pub mod Consensus
pub mod Network
pub mod Privacy
pub mod Api
pub mod Program
mod Tests
