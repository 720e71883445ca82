-- ===== src/Governance/Dao.antt =====
-- src/governance/dao.h and src/governance/dao.cpp. The calls of the governance system that a DAO
-- holds go to it unchanged.
use rex_coin.Base.{ℕ, ◌+◌, ◌-◌, ◌≡◌, ◌^◌, ◌<◌, Bool, true, false, arith, ltb, if◌then◌else◌, u64}
use rex_coin.Governance.Proposal.{GovernanceSystem}

-- `class DAO`
pub record Dao : Type 0 where
  pub treasury : ℕ
  pub gov : GovernanceSystem

-- `DAO::addFunds`
pub add_funds : ℕ → Dao → Dao
add_funds amount d = record d { treasury = u64 (d.treasury + amount) }

-- `DAO::spendTreasury`
pub spend_treasury : ℕ → Dao → Dao × Bool
spend_treasury amount d =
    if ltb d.treasury amount
    then (d, false)
    else (record d { treasury = d.treasury - amount }, true)

-- Funds that are added can be spent, which leaves the treasury as it was.
pub spend_treasury-add_funds :
    (amount : ℕ) (d : Dao)
    → d.treasury + amount < 2 ^ 64
    → spend_treasury amount (add_funds amount d) ≡ (d, true)
unfolding spend_treasury add_funds
spend_treasury-add_funds amount d fits =
    let e : u64 (d.treasury + amount) ≡ d.treasury + amount = omega arith in
    let n : ltb (d.treasury + amount) amount ≡ false = ground arith in
    let r : d.treasury + amount - amount ≡ d.treasury = omega arith in rw (e, n, r)
