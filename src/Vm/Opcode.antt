-- ===== src/Vm/Opcode.antt =====
-- src/vm/opcode.h and src/vm/opcode.cpp. The code casts any byte to `Opcode`, so an opcode is its
-- byte.
use rex_coin.Base.{ℕ, ◌≤◌, ◌||◌, arith, ◌==◌, if◌then◌else◌, Bytes, codes}
use rex_coin.Vm.Op

-- `opcodeGasCost`
unfoldable pub opcode_gas_cost : ℕ → ℕ
opcode_gas_cost op =
    if op == Op.push || op == Op.pop || op == Op.dup
    then 1
    else if op == Op.add || op == Op.sub || op == Op.mul
    then 3
    else if op == Op.div || op == Op.modulo
    then 5
    else if op == Op.sha256 || op == Op.hash
    then 30
    else if op == Op.sstore
    then 200
    else if op == Op.sload
    then 50
    else if op == Op.transfer
    then 100
    else if op == Op.log
    then 75
    else 1

-- `opcodeName`
unfoldable pub opcode_name : ℕ → Bytes
opcode_name op =
    if op == Op.push
    then codes "PUSH"
    else if op == Op.pop
    then codes "POP"
    else if op == Op.add
    then codes "ADD"
    else if op == Op.sub
    then codes "SUB"
    else if op == Op.mul
    then codes "MUL"
    else if op == Op.div
    then codes "DIV"
    else if op == Op.sha256
    then codes "SHA256"
    else if op == Op.sstore
    then codes "SSTORE"
    else if op == Op.sload
    then codes "SLOAD"
    else if op == Op.halt
    then codes "HALT"
    else if op == Op.revert
    then codes "REVERT"
    else if op == Op.ret
    then codes "RETURN"
    else if op == Op.transfer
    then codes "TRANSFER"
    else codes "UNKNOWN"

-- Every byte costs something, and no more than a store.
pub opcode_gas_cost_bounds : (op : ℕ) → (1 ≤ opcode_gas_cost op) × (opcode_gas_cost op ≤ 200)
unfolding opcode_gas_cost
opcode_gas_cost_bounds op = ground arith
