-- ===== src/Vm/Gas.antt =====
-- src/vm/gas.h, with the sums of `uint64_t`.
use rex_coin.Base.{
  ℕ, ◌+◌, ◌-◌, ◌≤◌, ◌<◌, ◌≡◌, ◌^◌, refl, Bool, true, false, arith, ltb, leb, if◌then◌else◌, u64,
  ◌⊎◌, inl, inr, Bool-cases,
}

-- `class GasMeter`
pub record GasMeter : Type 0 where
  pub limit : ℕ
  pub used : ℕ

-- `GasMeter::GasMeter`
abbrev pub new_meter : ℕ → GasMeter
new_meter limit = record { limit = limit; used = 0 }

-- `GasMeter::consume`
unfoldable pub consume : ℕ → GasMeter → GasMeter × Bool
consume amount m =
    if ltb m.limit (u64 (m.used + amount))
    then (m, false)
    else (record m { used = u64 (m.used + amount) }, true)

-- `GasMeter::remaining`
pub remaining : GasMeter → ℕ
remaining m = u64 (m.limit + 2 ^ 64 - m.used)

-- `GasMeter::outOfGas`
pub out_of_gas : GasMeter → Bool
out_of_gas m = leb m.limit m.used

-- Whatever is charged, also where the sum wraps, the gas used stays within the limit, the limit
-- stays, and a charge that is refused changes nothing.
pub consume_within :
    (amount : ℕ) (m : GasMeter)
    → m.used ≤ m.limit
    → ((consume amount m).0.used ≤ m.limit)
      × ((consume amount m).0.limit ≡ m.limit)
      × (((consume amount m).1 ≡ true) ⊎ ((consume amount m).0 ≡ m))
unfolding consume
consume_within amount m h = elim (Bool-cases (ltb m.limit (u64 (m.used + amount)))) [
  | inl over ↦ rw over (h, refl, inr refl)
  | inr fits ↦ rw fits (ground arith, refl, inl refl)
]

-- A charge without wrapping is made exactly if it fits the limit.
pub consume_exact :
    (amount : ℕ) (m : GasMeter)
    → m.used + amount < 2 ^ 64
    → consume amount m ≡ (
        if ltb m.limit (m.used + amount)
        then (m, false)
        else (record m { used = m.used + amount }, true))
unfolding consume
consume_exact amount m h = let e : u64 (m.used + amount) ≡ m.used + amount = omega arith in rw e
