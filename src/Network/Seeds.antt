-- ===== src/Network/Seeds.antt =====
-- src/network/dns_seed.cpp, src/network/sync.cpp and src/network/tor.cpp: the stand-ins for the
-- discovery of peers, the download of blocks and Tor.
use rex_coin.Base.{ℕ, Bool, true, false, List, [], ◌∷◌, Bytes, codes}

-- `struct SeedNode`
pub record SeedNode : Type 0 where
  pub host : Bytes
  pub port : ℕ
  pub description : Bytes

-- `DNSSeed::SEEDS`, which `getSeeds` gives
abbrev pub seeds : List SeedNode
seeds =
    record {
      host = codes "seed1.rexnetwork.io";
      port = 8333;
      description = codes "RexCoin Primary Seed";
    }
    ∷ record {
      host = codes "seed2.rexnetwork.io";
      port = 8333;
      description = codes "RexCoin Secondary Seed";
    }
    ∷ record {
      host = codes "seed3.rexnetwork.io";
      port = 8333;
      description = codes "RexCoin Tertiary Seed";
    }
    ∷ record {
      host = codes "testnet.rexnetwork.io";
      port = 18333;
      description = codes "RexCoin Testnet Seed";
    }
    ∷ []

-- `DNSSeed::resolve`
pub resolve : Bytes → List Bytes
resolve hostname = codes "127.0.0.1" ∷ []

-- `DNSSeed::isReachable`
pub is_reachable : Bytes → ℕ → Bool
is_reachable ip port = false

-- `class ChainSync`
pub record ChainSync : Type 0 where
  pub syncing : Bool
  pub target_height : ℕ

-- `ChainSync::startSync`
pub start_sync : Bytes → ℕ → ChainSync → ChainSync
start_sync peer our_height sync = record sync { syncing = true }

-- `ChainSync::onBlockReceived`
pub on_block_received : Bytes → ChainSync → ChainSync
on_block_received block_data sync = sync

-- `class TorSupport`
pub record TorSupport : Type 0 where
  pub enabled : Bool
  pub onion_addr : Bytes

-- `TorSupport::init`
pub init : Bytes → TorSupport → TorSupport × Bool
init proxy tor = (record tor { enabled = false; onion_addr = [] }, false)

-- `TorSupport::stop`
pub stop : TorSupport → TorSupport
stop tor = record tor { enabled = false }
