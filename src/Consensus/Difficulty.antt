-- ===== src/Consensus/Difficulty.antt =====
-- src/consensus/difficulty.h and src/consensus/difficulty.cpp.
use rex_coin.Base.{
  ℕ, ◌+◌, ◌-◌, ◌*◌, ◌/◌, ◌%◌, ◌≤◌, ◌<◌, ◌≡◌, ◌^◌, Bool, true, ◌&&◌, arith, ltb, ◌==◌, if◌then◌else◌,
  u32, min,
}
use rex_coin.Base.Int.{ℤ, pos, ◌-ℤ◌, ltb_ℤ}

abbrev target_block_time : ℕ
target_block_time = 600

abbrev pub adjustment_interval : ℕ
adjustment_interval = 2016

abbrev max_adjustment : ℕ
max_adjustment = 4

abbrev expected : ℕ
expected = target_block_time * adjustment_interval

-- The clamped `elapsed` of `calculate`.
pub clamp : ℤ → ℤ
clamp elapsed =
    let low =
      if ltb_ℤ elapsed (pos (expected / max_adjustment))
      then pos (expected / max_adjustment)
      else elapsed in
    if ltb_ℤ (pos (expected * max_adjustment)) low then pos (expected * max_adjustment) else low

-- `DifficultyAdjuster::calculate`
pub calculate : ℕ → ℤ → ℤ → ℕ
calculate current first_block_time last_block_time =
    let elapsed = clamp (last_block_time -ℤ first_block_time) in
    if ltb_ℤ elapsed (pos expected)
    then min (u32 (current + 1)) 32
    else if ltb_ℤ (pos expected) elapsed && ltb 1 current
    then current - 1
    else current

-- `DifficultyAdjuster::needsAdjustment`
pub needs_adjustment : ℕ → Bool
needs_adjustment block_height = ltb 0 block_height && (block_height % adjustment_interval == 0)

-- `DifficultyAdjuster::nextAdjustmentBlock`
pub next_adjustment_block : ℕ → ℕ
next_adjustment_block current_height =
    u32 ((current_height / adjustment_interval + 1) * adjustment_interval)

-- Between 1 and 32 the difficulty stays there, and changes by one at most, whatever the times.
calculate_bounds :
    (current : ℕ) (first_block_time last_block_time : ℤ)
    → 1 ≤ current
    → current ≤ 32
    → let next = calculate current first_block_time last_block_time in
      (1 ≤ next) × (next ≤ 32) × (next ≤ current + 1) × (current ≤ next + 1)
unfolding calculate
calculate_bounds current first_block_time last_block_time low high = ground arith

-- The next adjustment comes after the current height, within one interval, and needs adjusting, as
-- long as it fits 32 bits.
pub next_adjustment_block_lem :
    (current_height : ℕ)
    → current_height + 2016 < 2 ^ 32
    → let next = next_adjustment_block current_height in
      (current_height < next) × (next ≤ current_height + 2016) × (needs_adjustment next ≡ true)
unfolding next_adjustment_block needs_adjustment
next_adjustment_block_lem current_height fits = (omega arith, omega arith, ground arith)
