-- ===== src/Layer2/Sidechain.antt =====
-- src/layer2/sidechain.h and src/layer2/sidechain.cpp: the stand-in for the side chain.
use rex_coin.Base.{ℕ, Bool, true, false, Bytes}

-- `struct Peg`
pub record Peg : Type 0 where
  pub main_chain_tx_hash : Bytes
  pub sidechain_address : Bytes
  pub amount : ℕ
  pub claimed : Bool

-- `Sidechain::lockFunds`
pub lock_funds : Bytes → Bytes → ℕ → Peg
lock_funds main_tx_hash sidechain_addr amount = record {
  main_chain_tx_hash = main_tx_hash;
  sidechain_address = sidechain_addr;
  amount = amount;
  claimed = false;
}

-- `Sidechain::unlockFunds`
pub unlock_funds : Bytes → Bool
unlock_funds peg_id = true
