-- ===== src/Vm/Machine/Metering.antt =====
-- src/vm/vm.cpp, `VM::execute`: the gas that a run uses, and when it reverts.
use rex_coin.Base.{
  ℕ, ◌+◌, ◌≤◌, ◌<◌, ◌≡◌, ◌^◌, refl, ◌∙◌, true, false, [], ◌∷◌, inl, inr, arith, All, ltb, Bytes,
  sum_by, Bool-cases, ◌≢◌, ◌⊎◌,
}
use rex_coin.Hasher.{Hasher}
use rex_coin.Vm.Opcode.{opcode_gas_cost, opcode_gas_cost_bounds}
use rex_coin.Vm.Op
use rex_coin.Vm.Gas.{GasMeter, new_meter, consume, consume_within, consume_exact}
use rex_coin.Vm.Machine.{VmState, apply_opcode, start_state, execute_loop, execute}

module _ ⦃h : Hasher⦄ where
  execute_loop_within :
      (code : Bytes) (s : VmState) (gas : GasMeter)
      → gas.used ≤ gas.limit
      → (execute_loop code (s, gas)).1.used ≤ gas.limit
  unfolding execute_loop
  execute_loop_within [] s gas within = within
  execute_loop_within (op ∷ code) s gas within =
      let charged = consume_within (opcode_gas_cost op) gas within in
      let gas' = (consume (opcode_gas_cost op) gas).0 in
      let rest = execute_loop_within code (apply_opcode op s) gas' (omega arith) in
      ground (arith, rest, charged)

  -- No run uses more gas than its limit, whatever the bytecode and the limit.
  pub execute-gas_used-le :
      (bytecode input : Bytes) (gas_limit : ℕ)
      → (execute bytecode input gas_limit).gas_used ≤ gas_limit
  unfolding execute
  execute-gas_used-le bytecode input gas_limit =
      execute_loop_within bytecode (start_state input gas_limit) (new_meter gas_limit) (omega arith)

  -- Bytes that neither halt nor revert.
  abbrev pub RunsOn : ℕ → Type 0
  RunsOn op = (op ≢ Op.halt) × (op ≢ Op.revert)

  apply_opcode_runs :
      (op : ℕ) (s : VmState)
      → RunsOn op
      → ((apply_opcode op s).halted ≡ s.halted) × ((apply_opcode op s).reverted ≡ s.reverted)
  unfolding apply_opcode
  apply_opcode_runs op s (no_halt, no_revert) = ground (arith, no_halt, no_revert)

  -- The cost of a bytecode that runs to its end.
  abbrev pub total_cost : Bytes → ℕ
  total_cost code = sum_by opcode_gas_cost code

  execute_loop_paid :
      (op : ℕ) (code : Bytes) (s : VmState) (gas gas' : GasMeter)
      → s.halted ≡ false
      → s.reverted ≡ false
      → consume (opcode_gas_cost op) gas ≡ (gas', true)
      → execute_loop (op ∷ code) (s, gas) ≡ execute_loop code (apply_opcode op s, gas')
  unfolding execute_loop
  execute_loop_paid op code s gas gas' up going paid = simp (up, going, paid)

  execute_loop_short :
      (op : ℕ) (code : Bytes) (s : VmState) (gas : GasMeter)
      → s.halted ≡ false
      → s.reverted ≡ false
      → consume (opcode_gas_cost op) gas ≡ (gas, false)
      → execute_loop (op ∷ code) (s, gas) ≡ (record s { reverted = true }, gas)
  unfolding execute_loop
  execute_loop_short op code s gas up going short = simp (up, going, short)

  -- Bytecode without HALT and REVERT, from a state that runs: it pays for every byte if the gas is
  -- there, and reverts if not.
  execute_loop-total_cost :
      (code : Bytes) (s : VmState) (gas : GasMeter)
      → All RunsOn code
      → s.halted ≡ false
      → s.reverted ≡ false
      → gas.used ≤ gas.limit
      → gas.limit + 200 < 2 ^ 64
      → let r = execute_loop code (s, gas) in
        (r.0.reverted ≡ ltb gas.limit (gas.used + total_cost code))
        × (r.0.halted ≡ false)
        × (gas.used + total_cost code ≤ gas.limit → r.1.used ≡ gas.used + total_cost code)
  execute_loop-total_cost [] s gas runs up going within small = unfold execute_loop in ground arith
  execute_loop-total_cost (op ∷ code) s gas (runs_op, runs) up going within small =
      let keeps = apply_opcode_runs op s runs_op in
      let cost = opcode_gas_cost_bounds op in
      let charge = consume_exact (opcode_gas_cost op) gas (omega arith) in
      let paid : GasMeter = record gas { used = gas.used + opcode_gas_cost op } in
      elim (Bool-cases (ltb gas.limit (gas.used + opcode_gas_cost op))) [
        | inl short ↦
            rw (execute_loop_short op code s gas up going (rw (charge, short))) (ground arith)
        | inr enough ↦ rw (execute_loop_paid op code s gas paid up going (rw (charge, enough))) (
            let ih =
              execute_loop-total_cost code (apply_opcode op s) paid runs (keeps.0 ∙ up)
                (keeps.1 ∙ going) (ground arith) small in
            ground arith)
      ]

  start_state_runs :
      (input : Bytes) (gas_limit : ℕ)
      → ((start_state input gas_limit).halted ≡ false)
        × ((start_state input gas_limit).reverted ≡ false)
  unfolding start_state
  start_state_runs [] gas_limit = (refl, refl)
  start_state_runs (c ∷ cs) gas_limit = (refl, refl)

  -- Bytecode without HALT and REVERT reverts exactly if its cost is above the limit (which is at
  -- least 200 below 2^64); if it is not above, the gas used is its cost.
  pub execute-total_cost :
      (bytecode input : Bytes) (gas_limit : ℕ)
      → All RunsOn bytecode
      → gas_limit + 200 < 2 ^ 64
      → let s = execute bytecode input gas_limit in
        (s.reverted ≡ ltb gas_limit (total_cost bytecode))
        × ((gas_limit < total_cost bytecode) ⊎ (s.gas_used ≡ total_cost bytecode))
  unfolding execute
  execute-total_cost bytecode input gas_limit runs small =
      let zero_used : 0 + total_cost bytecode ≡ total_cost bytecode = omega arith in
      let r = rw zero_used at (
        execute_loop-total_cost bytecode (start_state input gas_limit) (new_meter gas_limit) runs
          (start_state_runs input gas_limit).0 (start_state_runs input gas_limit).1 (omega arith)
          small) in
      (
        r.0,
        elim (Bool-cases (ltb gas_limit (total_cost bytecode))) [
          | inl above ↦ inl (ground arith)
          | inr within ↦ inr (r.2 (ground arith))
        ],
      )
