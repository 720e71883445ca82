-- ===== src/Vm/Compiler.antt =====
-- src/vm/compiler.h and src/vm/compiler.cpp. A token of `iss >> token` holds no white space, so the
-- test for a token "\n" never holds, and the count of lines that it would advance is not kept.
use rex_coin.Base.{
  ℕ, ◌+◌, Bool, true, false, ◌&&◌, ◌||◌, List, [], ◌∷◌, ◌++◌, leb, ◌==◌, if◌then◌else◌, Bytes,
  codes, eqb,
}
use rex_coin.Base.Decimal.{decimal}
use rex_coin.Vm.Op
use rex_coin.Vm.Opcode.{opcode_name, opcode_gas_cost}

is_space : ℕ → Bool
is_space c = c == 32 || (leb 9 c && leb c 13)

-- `if (!token.empty()) tokens.push_back(token);`
close_token : Bytes → List Bytes → List Bytes
close_token [] tokens = tokens
close_token (c ∷ token) tokens = (c ∷ token) ∷ tokens

tokens_from : Bytes → Bytes → List Bytes
unfolding is_space close_token
tokens_from token [] = close_token token []
tokens_from token (c ∷ source) = elim (is_space c) [
  | true ↦ close_token token (tokens_from [] source)
  | false ↦ tokens_from (token ++ c ∷ []) source
]

-- `Compiler::tokenize`
unfoldable pub tokenize : Bytes → List Bytes
unfolding tokens_from
tokenize source = tokens_from [] source

-- The bytes that `compile` emits for a token.
unfoldable pub emit_token : Bytes → Bytes
emit_token token =
    if eqb token (codes "PUSH")
    then Op.push ∷ []
    else if eqb token (codes "POP")
    then Op.pop ∷ []
    else if eqb token (codes "ADD")
    then Op.add ∷ []
    else if eqb token (codes "SUB")
    then Op.sub ∷ []
    else if eqb token (codes "MUL")
    then Op.mul ∷ []
    else if eqb token (codes "DIV")
    then Op.div ∷ []
    else if eqb token (codes "SHA256")
    then Op.sha256 ∷ []
    else if eqb token (codes "SSTORE")
    then Op.sstore ∷ []
    else if eqb token (codes "SLOAD")
    then Op.sload ∷ []
    else if eqb token (codes "TRANSFER")
    then Op.transfer ∷ []
    else if eqb token (codes "HALT")
    then Op.halt ∷ []
    else if eqb token (codes "REVERT")
    then Op.revert ∷ []
    else if eqb token (codes "RETURN")
    then Op.ret ∷ []
    else Op.push ∷ token

unfoldable pub emit_all : List Bytes → Bytes
emit_all [] = []
emit_all (token ∷ tokens) = emit_token token ++ emit_all tokens

-- `Compiler::compile`
unfoldable pub compile : Bytes → Bytes
compile source = emit_all (tokenize source)

pub disassemble_from : ℕ → Bytes → Bytes
disassemble_from i [] = []
disassemble_from i (op ∷ bytecode) =
    (codes "["
      ++ decimal i
      ++ codes "] "
      ++ opcode_name op
      ++ codes " (gas="
      ++ decimal (opcode_gas_cost op)
      ++ codes ")\n")
    ++ disassemble_from (i + 1) bytecode

-- `Compiler::disassemble`
pub disassemble : Bytes → Bytes
disassemble bytecode = disassemble_from 0 bytecode
