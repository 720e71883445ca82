-- ===== src/Program/Options.antt =====
-- src/main.cpp: the arguments that say what a run of the program is to do.
use rex_coin.Base.{
  ℕ, suc, ◌≡◌, ◌≢◌, ◌<◌, ◌∙◌, refl, true, false, some, List, [], ◌∷◌, ◌++◌, arith, All, Bytes,
  codes, length, take, drop, take-append,
}
use mathlib.Core.List.{append-nil}
use rex_coin.Base.Decimal.{decimal, decimal-cases, IsDigit, leading_digits, starts_with_digit}
use rex_coin.Base.Text.{eqb}
use rex_coin.Core.Script.{find}
use rex_coin.Core.Script.Unlock.{find-skip}
use rex_coin.Program.Args.{Args, port_at, stoi_port, set_port, parse_args, peer_target}

stoi_port_digits :
    (c : ℕ) (s : Bytes) (n : ℕ)
    → All IsDigit (c ∷ s)
    → leading_digits 0 (c ∷ s) ≡ n
    → n < 65536
    → stoi_port (c ∷ s) ≡ some n
unfolding stoi_port port_at starts_with_digit
stoi_port_digits c s n digits value small = ground arith

-- A port is read back from its digits.
stoi_port-decimal : (n : ℕ) → n < 65536 → stoi_port (decimal n) ≡ some n
stoi_port-decimal n h =
    let (c, s, e, digits, value) = decimal-cases n in rw e (stoi_port_digits c s n digits value h)

-- What an argument of the program says, or a word that it does not know.
pub data Setting : Type 0 where
  datadir connect : Bytes → Setting
  port : ℕ → Setting
  mine : Setting
  word : Bytes → Setting

-- The arguments that say a list of settings.
unfoldable pub arguments_of : List Setting → List Bytes
arguments_of [] = []
arguments_of (datadir dir ∷ settings) = codes "--datadir" ∷ dir ∷ arguments_of settings
arguments_of (connect address ∷ settings) = codes "--connect" ∷ address ∷ arguments_of settings
arguments_of (port n ∷ settings) = codes "--port" ∷ decimal n ∷ arguments_of settings
arguments_of (mine ∷ settings) = codes "--mine" ∷ arguments_of settings
arguments_of (word w ∷ settings) = w ∷ arguments_of settings

-- What the settings make of the variables of `main`: for each variable the last one counts.
abbrev pub chosen : List Setting → Args → Args
chosen [] args = args
chosen (datadir dir ∷ settings) args = chosen settings (record args { data_dir = dir })
chosen (connect address ∷ settings) args = chosen settings (record args { connect_to = address })
chosen (port n ∷ settings) args = chosen settings (record args { p2p_port = n })
chosen (mine ∷ settings) args = chosen settings (record args { mine_mode = true })
chosen (word w ∷ settings) args = chosen settings args

-- A word that is not the name of an option, and a port of 16 bits.
abbrev pub IsProper : Setting → Type 0
IsProper (port n) = n < 65536
IsProper (word w) =
    (eqb w (codes "--datadir") ≡ false)
    × (eqb w (codes "--connect") ≡ false)
    × (eqb w (codes "--port") ≡ false)
    × (eqb w (codes "--mine") ≡ false)
IsProper _ = Unit {0}

parse_args_port :
    (text : Bytes) (n : ℕ) (rest : List Bytes) (args : Args)
    → stoi_port text ≡ some n
    → parse_args (codes "--port" ∷ text ∷ rest) args
      ≡ parse_args rest (record args { p2p_port = n })
unfolding parse_args set_port eqb
parse_args_port text n rest args e = rw (parse_args, set_port, e) refl

parse_args_mine :
    (rest : List Bytes) (args : Args)
    → parse_args (codes "--mine" ∷ rest) args ≡ parse_args rest (record args { mine_mode = true })
unfolding parse_args eqb
parse_args_mine [] args = refl
parse_args_mine (x ∷ rest) args = refl

parse_args_word :
    (w : Bytes) (rest : List Bytes) (args : Args)
    → IsProper (word w)
    → parse_args (w ∷ rest) args ≡ parse_args rest args
unfolding parse_args
parse_args_word w [] args (dir, address, number, mining) = rw (parse_args, mining) refl
parse_args_word w (x ∷ rest) args (dir, address, number, mining) =
    rw (parse_args, dir, address, number, mining) refl

parse_args-append :
    (settings : List Setting) (rest : List Bytes) (args : Args)
    → All IsProper settings
    → parse_args (arguments_of settings ++ rest) args ≡ parse_args rest (chosen settings args)
unfolding parse_args arguments_of eqb
parse_args-append [] rest args proper = refl
parse_args-append (datadir dir ∷ settings) rest args (_, proper) =
    parse_args-append settings rest (record args { data_dir = dir }) proper
parse_args-append (connect address ∷ settings) rest args (_, proper) =
    parse_args-append settings rest (record args { connect_to = address }) proper
parse_args-append (port n ∷ settings) rest args (small, proper) =
    parse_args_port (decimal n) n (arguments_of settings ++ rest) args (stoi_port-decimal n small)
    ∙ parse_args-append settings rest (record args { p2p_port = n }) proper
parse_args-append (mine ∷ settings) rest args (_, proper) =
    parse_args_mine (arguments_of settings ++ rest) args
    ∙ parse_args-append settings rest (record args { mine_mode = true }) proper
parse_args-append (word w ∷ settings) rest args (unknown, proper) =
    parse_args_word w (arguments_of settings ++ rest) args unknown
    ∙ parse_args-append settings rest args proper

parse_args_last :
    (last : Bytes) (args : Args)
    → eqb last (codes "--mine") ≡ false
    → parse_args (last ∷ []) args ≡ some args
unfolding parse_args
parse_args_last last args other = rw (parse_args, other) refl

-- The program reads what its arguments say, in any order, with any option given any number of times
-- and the last one counting, for ports of 16 bits. A word that is not the name of an option is passed
-- over, and so is a last argument other than `--mine`, the name of an option without its value
-- included.
pub parse_args-arguments_of :
    (settings : List Setting) (last : Bytes) (args : Args)
    → All IsProper settings
    → eqb last (codes "--mine") ≡ false
    → (parse_args (arguments_of settings) args ≡ some (chosen settings args))
      × (parse_args (arguments_of settings ++ last ∷ []) args ≡ some (chosen settings args))
unfolding parse_args
parse_args-arguments_of settings last args proper other = (
  rw (append-nil (arguments_of settings)) at (parse_args-append settings [] args proper),
  parse_args-append settings (last ∷ []) args proper
      ∙ parse_args_last last (chosen settings args) other,
)

drop_after : (s : Bytes) (c : ℕ) (rest : Bytes) → drop (suc (length s)) (s ++ c ∷ rest) ≡ rest
drop_after [] c rest = refl
drop_after (x ∷ s) c rest = drop_after s c rest

-- The address of a peer is read back from its host, in which no colon stands, and its port.
peer_target_at :
    (host : Bytes) (number : ℕ)
    → All (λ c. c ≢ b':') host
    → number < 65536
    → peer_target (host ++ b':' ∷ decimal number) ≡ some (host, number)
unfolding peer_target
peer_target_at host number no_colon h =
    let found : find (b':' ∷ []) (host ++ b':' ∷ decimal number) ≡ some (length host) =
      find-skip b':' [] host (decimal number) no_colon in
    let after : drop (suc (length host)) (host ++ b':' ∷ decimal number) ≡ decimal number =
      drop_after host b':' (decimal number) in
    let before : take (length host) (host ++ b':' ∷ decimal number) ≡ host =
      take-append host (b':' ∷ decimal number) in
    rw (peer_target, found, after, stoi_port-decimal number h, before) refl
