-- ===== src/Vm/Machine.antt =====
-- src/vm/vm.h and src/vm/vm.cpp. The top of the stack is the head of the list.
pub mod Metering
pub mod Storage
use rex_coin.Base.{
  ℕ, ◌+◌, Bool, true, false, ◌||◌, Option, none, some, List, [], ◌∷◌, ◌++◌, ◌==◌, take,
  if◌then◌else◌, Bytes, codes,
}
use rex_coin.Hasher.{Hasher, sha256}
use rex_coin.Dict.{Dict, lookup, insert}
use rex_coin.Vm.Opcode.{opcode_gas_cost}
use rex_coin.Vm.Op
use rex_coin.Vm.Gas.{GasMeter, new_meter, consume}

-- `struct VMState`
pub record VmState : Type 0 where
  pub stack : List Bytes
  pub storage : Dict Bytes
  pub gas_used : ℕ
  pub gas_limit : ℕ
  pub halted : Bool
  pub reverted : Bool
  pub return_data : Bytes

abbrev pub initial_state : VmState
initial_state = record {
  stack = [];
  storage = [];
  gas_used = 0;
  gas_limit = 0;
  halted = false;
  reverted = false;
  return_data = [];
}

hash_top : ⦃h : Hasher⦄ → List Bytes → VmState → VmState
hash_top [] s = s
hash_top (top ∷ rest) s = record s { stack = sha256 top ∷ rest }

store_top : List Bytes → VmState → VmState
store_top (val ∷ key ∷ rest) s = record s { stack = rest; storage = insert key val s.storage }
store_top _ s = s

load_top : List Bytes → VmState → VmState
load_top [] s = s
load_top (key ∷ rest) s =
    let value : Bytes = elim (lookup key s.storage) [ none ↦ [] | some v ↦ v ] in
    record s { stack = value ∷ rest }

-- The `switch` of `VM::execute`.
unfoldable pub apply_opcode : ⦃h : Hasher⦄ → ℕ → VmState → VmState
unfolding hash_top store_top load_top
apply_opcode op s =
    if op == Op.halt
    then record s { halted = true }
    else if op == Op.revert
    then record s { reverted = true }
    else if op == Op.sha256
    then hash_top s.stack s
    else if op == Op.sstore
    then store_top s.stack s
    else if op == Op.sload
    then load_top s.stack s
    else s

-- The loop of `VM::execute` over the bytecode.
unfoldable pub execute_loop : ⦃h : Hasher⦄ → Bytes → VmState × GasMeter → VmState × GasMeter
execute_loop [] r = r
execute_loop (op ∷ code) (s, gas) =
    let (gas', paid) = consume (opcode_gas_cost op) gas in
    let next = execute_loop code (apply_opcode op s, gas') in
    if s.halted || s.reverted
    then (s, gas)
    else if paid
    then next
    else (record s { reverted = true }, gas')

-- `if (!input.empty()) state.stack.push(input);` on a new state
unfoldable pub start_state : Bytes → ℕ → VmState
start_state [] gas_limit = record initial_state { gas_limit = gas_limit }
start_state (c ∷ cs) gas_limit = record initial_state {
  gas_limit = gas_limit;
  stack = (c ∷ cs) ∷ [];
}

-- `VM::execute`
unfoldable pub execute : ⦃h : Hasher⦄ → Bytes → Bytes → ℕ → VmState
execute bytecode input gas_limit =
    let (s, gas) = execute_loop bytecode (start_state input gas_limit, new_meter gas_limit) in
    record s { gas_used = gas.used }

-- `struct Contract`
pub record Contract : Type 0 where
  pub address : Bytes
  pub bytecode : Bytes
  pub owner : Bytes
  pub balance : ℕ
  pub storage : Dict Bytes

-- `class VM`
abbrev pub Vm : Type 0
Vm = Dict Contract

-- `VM::generateAddress`
pub generate_address : ⦃h : Hasher⦄ → Bytes → Bytes → Bytes
generate_address owner bytecode = codes "RXC_CONTRACT_" ++ take 20 (sha256 (owner ++ bytecode))

-- `VM::deployContract`: the new machine and the address. The gas limit is not used.
unfoldable pub deploy_contract : ⦃h : Hasher⦄ → Bytes → Bytes → ℕ → Vm → Vm × Bytes
deploy_contract bytecode owner gas_limit vm =
    let address = generate_address owner bytecode in
    let contract : Contract = record {
      address = address;
      bytecode = bytecode;
      owner = owner;
      balance = 0;
      storage = [];
    } in
    (insert address contract vm, address)

-- `VM::call`; it leaves the contracts as they are.
unfoldable pub call : ⦃h : Hasher⦄ → Bytes → Bytes → ℕ → Vm → VmState
call address input gas_limit vm = elim (lookup address vm) [
  | none ↦ record initial_state { reverted = true }
  | some contract ↦ execute contract.bytecode input gas_limit
]

-- `VM::getContract`
pub get_contract : Bytes → Vm → Option Contract
get_contract address vm = lookup address vm
