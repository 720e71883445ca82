-- ===== src/Vm/Machine/Storage.antt =====
-- src/vm/vm.cpp, `VM::execute`: what a run can leave on the stack and in the storage.
use rex_coin.Base.{ℕ, ◌≤◌, ◌≡◌, refl, List, [], ◌∷◌, arith, length, Bytes}
use rex_coin.Hasher.{Hasher}
use rex_coin.Vm.Opcode.{opcode_gas_cost}
use rex_coin.Vm.Gas.{GasMeter, new_meter, consume}
use rex_coin.Vm.Machine.{
  VmState, apply_opcode, hash_top, store_top, load_top, start_state, execute_loop, execute,
}

-- At most one value on the stack, and nothing stored.
pub record IsPoor (s : VmState) : Type 0 where
  pub shallow : length s.stack ≤ 1
  pub unstored : s.storage ≡ []

module _ ⦃h : Hasher⦄ where
  hash_top-IsPoor :
      (st : List Bytes) (s : VmState) → s.stack ≡ st → IsPoor s → IsPoor (hash_top st s)
  unfolding hash_top
  hash_top-IsPoor [] s e p = p
  hash_top-IsPoor (x ∷ st) s e p =
      let shallow = rw e at p.shallow in record { shallow = shallow; unstored = p.unstored }

  store_top-IsPoor :
      (st : List Bytes) (s : VmState) → s.stack ≡ st → IsPoor s → IsPoor (store_top st s)
  unfolding store_top
  store_top-IsPoor (x ∷ y ∷ st) s e p = absurd (let shallow = rw e at p.shallow in omega arith)
  store_top-IsPoor (x ∷ []) s e p = p
  store_top-IsPoor [] s e p = p

  load_top-IsPoor :
      (st : List Bytes) (s : VmState) → s.stack ≡ st → IsPoor s → IsPoor (load_top st s)
  unfolding load_top
  load_top-IsPoor [] s e p = p
  load_top-IsPoor (x ∷ st) s e p =
      let shallow = rw e at p.shallow in record { shallow = shallow; unstored = p.unstored }

  apply_opcode-IsPoor : (op : ℕ) (s : VmState) → IsPoor s → IsPoor (apply_opcode op s)
  unfolding apply_opcode
  apply_opcode-IsPoor op s p = ground (
    arith,
    hash_top-IsPoor s.stack s refl p,
    store_top-IsPoor s.stack s refl p,
    load_top-IsPoor s.stack s refl p,
  )

  execute_loop-IsPoor :
      (code : Bytes) (s : VmState) (gas : GasMeter)
      → IsPoor s
      → IsPoor (execute_loop code (s, gas)).0
  unfolding execute_loop
  execute_loop-IsPoor [] s gas p = p
  execute_loop-IsPoor (op ∷ code) s gas p =
      let rest =
        execute_loop-IsPoor code (apply_opcode op s) (consume (opcode_gas_cost op) gas).0
          (apply_opcode-IsPoor op s p) in
      ground (arith, rest)

  start_state-IsPoor : (input : Bytes) (gas_limit : ℕ) → IsPoor (start_state input gas_limit)
  unfolding start_state
  start_state-IsPoor [] gas_limit = record { shallow = omega arith; unstored = refl }
  start_state-IsPoor (c ∷ cs) gas_limit = record { shallow = omega arith; unstored = refl }

  -- No bytecode ever stores anything, and no run leaves more than one value on the stack: nothing
  -- but the input is ever pushed, and SSTORE waits for two values.
  pub execute-IsPoor :
      (bytecode input : Bytes) (gas_limit : ℕ)
      → ((execute bytecode input gas_limit).storage ≡ [])
        × (length (execute bytecode input gas_limit).stack ≤ 1)
  unfolding execute
  execute-IsPoor bytecode input gas_limit =
      let p =
        execute_loop-IsPoor bytecode (start_state input gas_limit) (new_meter gas_limit)
          (start_state-IsPoor input gas_limit) in
      (p.unstored, p.shallow)
