-- ===== src/Vm/Op.antt =====
-- The values of `enum class Opcode` of src/vm/opcode.h that the code acts on.
use rex_coin.Base.{ℕ}

abbrev pub push : ℕ
push = 0x01

abbrev pub pop : ℕ
pop = 0x02

abbrev pub dup : ℕ
dup = 0x03

abbrev pub add : ℕ
add = 0x10

abbrev pub sub : ℕ
sub = 0x11

abbrev pub mul : ℕ
mul = 0x12

abbrev pub div : ℕ
div = 0x13

abbrev pub modulo : ℕ
modulo = 0x14

abbrev pub sha256 : ℕ
sha256 = 0x30

abbrev pub hash : ℕ
hash = 0x31

abbrev pub sstore : ℕ
sstore = 0x40

abbrev pub sload : ℕ
sload = 0x41

abbrev pub halt : ℕ
halt = 0x62

abbrev pub revert : ℕ
revert = 0x63

abbrev pub ret : ℕ
ret = 0x64

abbrev pub transfer : ℕ
transfer = 0x70

abbrev pub log : ℕ
log = 0x80
