-- ===== src/Program/Args.antt =====
-- src/main.cpp: the arguments of the program and the address to connect to. `none` stands for an
-- exception of `std::stoi`, which nothing catches.
use rex_coin.Base.{
  ℕ, suc, ◌+◌, ◌-◌, ◌%◌, ◌^◌, Bool, true, false, ◌&&◌, ◌||◌, Option, none, some, List, [], ◌∷◌, ltb,
  leb, ◌==◌, if◌then◌else◌, Bytes, codes, eqb, take, drop, ◌>>=◌,
}
use rex_coin.Base.Decimal.{leading_digits, starts_with_digit}
use rex_coin.Core.Script.{find}

-- The number at the head of a string in an `int`, and then in a `uint16_t`.
unfoldable pub port_at : Bool → Bytes → Option ℕ
port_at minus s =
    let n = leading_digits 0 s in
    if starts_with_digit s && ltb n (if minus then 2 ^ 31 + 1 else 2 ^ 31)
    then some (if minus then (2 ^ 16 - n % 2 ^ 16) % 2 ^ 16 else n % 2 ^ 16)
    else none

-- A `std::stoi` that is written to a `uint16_t`: white space, a sign, digits, and then anything.
unfoldable pub stoi_port : Bytes → Option ℕ
stoi_port [] = none
stoi_port (c ∷ s) =
    if c == 32 || (leb 9 c && leb c 13)
    then stoi_port s
    else if c == 43
    then port_at false s
    else if c == 45
    then port_at true s
    else port_at false (c ∷ s)

-- The variables that `main` reads from its arguments.
pub record Args : Type 0 where
  pub data_dir : Bytes
  pub connect_to : Bytes
  pub p2p_port : ℕ
  pub mine_mode : Bool

abbrev pub default_args : Args
default_args = record {
  data_dir = codes ".rexcoin";
  connect_to = [];
  p2p_port = 8333;
  mine_mode = false;
}

-- `p2pPort = std::stoi(…)`
unfoldable pub set_port : Bytes → Args → Option Args
set_port text args = do port ← stoi_port text; some (record args { p2p_port = port })

-- The loop over the arguments; an option whose value is missing changes nothing.
unfoldable pub parse_args : List Bytes → Args → Option Args
parse_args [] args = some args
parse_args (arg ∷ []) args =
    some (if eqb arg (codes "--mine") then record args { mine_mode = true } else args)
parse_args (arg ∷ value ∷ rest) args = elim (eqb arg (codes "--datadir")) [
  | true ↦ parse_args rest (record args { data_dir = value })
  | false ↦ elim (eqb arg (codes "--connect")) [
    | true ↦ parse_args rest (record args { connect_to = value })
    | false ↦ elim (eqb arg (codes "--port")) [
      | true ↦ elim (set_port value args) [ none ↦ none | some args' ↦ parse_args rest args' ]
      | false ↦
          parse_args (value ∷ rest)
            (if eqb arg (codes "--mine") then record args { mine_mode = true } else args)
    ]
  ]
]

-- `connectTo.find(':')` and the parts before and after it.
unfoldable pub peer_target : Bytes → Option (Bytes × ℕ)
peer_target connect_to = elim (find (codes ":") connect_to) [
  | none ↦ some (connect_to, 8333)
  | some colon ↦ do
    port ← stoi_port (drop (suc colon) connect_to)
    some (take colon connect_to, port)
]
