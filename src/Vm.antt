-- ===== src/Vm.antt =====
-- src/vm: opcodes, gas and the machine.
pub mod Op
pub mod Opcode
pub mod Gas
pub mod Machine
pub mod Compiler
