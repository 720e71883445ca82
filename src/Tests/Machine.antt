-- ===== src/Tests/Machine.antt =====
-- src/vm: the theorems on a small bytecode.
use rex_coin.Base.{◌≡◌, ◌≤◌, ◌<◌, [], ◌∷◌, codes, Bytes, arith, length, ltb, ◌⊎◌, sum_by}
use rex_coin.Crypto.Sha256.Digest.{sha256_hasher}
use rex_coin.Vm.Opcode.{opcode_gas_cost}
use rex_coin.Vm.Op
use rex_coin.Vm.Gas.{GasMeter}
use rex_coin.Vm.Machine.{execute}
use rex_coin.Vm.Machine.Metering.{execute-gas_used-le, execute-total_cost}
use rex_coin.Vm.Machine.Storage.{execute-IsPoor}

-- PUSH, SHA256, SSTORE.
abbrev code : Bytes
code = Op.push ∷ Op.sha256 ∷ Op.sstore ∷ []

abbrev nearly_spent : GasMeter
nearly_spent = record { limit = 10; used = 9 }

execute-gas_used-le_example : (execute code (codes "key") 100).gas_used ≤ 100
execute-gas_used-le_example = execute-gas_used-le code (codes "key") 100

execute-total_cost_example :
    ((execute code (codes "key") 300).reverted ≡ ltb 300 (sum_by opcode_gas_cost code))
    × ((300 < sum_by opcode_gas_cost code)
        ⊎ ((execute code (codes "key") 300).gas_used ≡ sum_by opcode_gas_cost code))
execute-total_cost_example =
    execute-total_cost code (codes "key") 300
      ((omega arith, omega arith), ((omega arith, omega arith), ((omega arith, omega arith), tt)))
      (omega arith)

execute-IsPoor_example :
    ((execute code (codes "key") 300).storage ≡ [])
    × (length (execute code (codes "key") 300).stack ≤ 1)
execute-IsPoor_example = execute-IsPoor code (codes "key") 300
