-- ===== src/Api/Rpc.antt =====
-- src/api/rpc.h and src/api/rpc.cpp. Positions are numbers of 64 bits, so that `npos + 1` is 0; an
-- exception of `substr` is `none`.
pub mod Request
use rex_coin.Base.{
  ℕ, zero, suc, ◌+◌, ◌-◌, ◌%◌, ◌^◌, Bool, true, false, Option, none, some, [], ◌∷◌, ◌++◌, ltb,
  length, take, drop, if◌then◌else◌, Bytes, codes, eqb, u64, ◌>>=◌,
}
use rex_coin.Base.Decimal.{decimal}
use rex_coin.Dict.{Dict, lookup, insert}
use rex_coin.Core.Script.{find}

-- `std::string::npos`
abbrev pub npos : ℕ
npos = 18446744073709551615

-- `s.find(pattern, from)`
unfoldable pub find_from : Bytes → Bytes → ℕ → ℕ
find_from pattern s from =
    if ltb (length s) from
    then npos
    else elim (find pattern (drop from s)) [ none ↦ npos | some i ↦ from + i ]

-- `s.substr(start, count)`
unfoldable pub substr_or_throw : Bytes → ℕ → ℕ → Option Bytes
substr_or_throw s start count =
    if ltb (length s) start then none else some (take count (drop start s))

-- `struct RpcRequest`
pub record RpcRequest : Type 0 where
  pub method : Bytes
  pub params : Bytes
  pub id : ℕ

-- `struct RpcResponse`
pub record RpcResponse : Type 0 where
  pub result : Bytes
  pub error : Bytes
  pub id : ℕ
  pub success : Bool

-- `RpcServer::Handler`
abbrev pub Handler : Type 0
Handler = RpcRequest → RpcResponse

-- `class RpcServer`
pub record RpcServer : Type 0 where
  pub port : ℕ
  pub running : Bool
  pub methods : Dict Handler

-- `RpcServer::RpcServer`
pub new_server : ℕ → RpcServer
new_server port = record { port = port; running = false; methods = [] }

-- `RpcServer::registerMethod`
unfoldable pub register_method : Bytes → Handler → RpcServer → RpcServer
register_method method handler server = record server {
  methods = insert method handler server.methods;
}

-- The field "method" in `parseRequest`.
unfoldable pub parse_method : Bytes → Option Bytes
parse_method raw =
    let m_pos = find_from (codes "\"method\"") raw 0 in
    if ltb m_pos npos
    then (let start = u64 (find_from (codes "\"") raw (m_pos + 9) + 1) in
        let end = find_from (codes "\"") raw start in
        substr_or_throw raw start (u64 (2 ^ 64 + end - start)))
    else some []

-- The field "params" in `parseRequest`.
unfoldable pub parse_params : Bytes → Option Bytes
parse_params raw =
    let p_pos = find_from (codes "\"params\"") raw 0 in
    if ltb p_pos npos
    then (let start = find_from (codes "[") raw p_pos in
        let end = u64 (find_from (codes "]") raw start + 1) in
        substr_or_throw raw start (u64 (2 ^ 64 + end - start)))
    else some []

-- `RpcServer::parseRequest`
unfoldable pub parse_request : Bytes → Option RpcRequest
parse_request raw = do
  method ← parse_method raw
  params ← parse_params raw
  some (record { method = method; params = params; id = 1 })

-- `RpcServer::formatResponse`
pub format_response : RpcResponse → Bytes
format_response resp =
    codes "{\"id\":"
    ++ decimal resp.id
    ++ (if resp.success
        then codes ",\"result\":" ++ resp.result ++ codes ",\"error\":null}"
        else codes ",\"result\":null,\"error\":\"" ++ resp.error ++ codes "\"}")

-- `handle` once the request is read.
unfoldable pub dispatch : RpcServer → RpcRequest → RpcResponse
dispatch server req = elim (lookup req.method server.methods) [
  | none ↦ record {
    result = [];
    error = codes "Method not found: " ++ req.method;
    id = req.id;
    success = false;
  }
  | some handler ↦ handler req
]

-- `RpcServer::handle`
unfoldable pub handle : RpcServer → Bytes → Option RpcResponse
handle server raw_request = do req ← parse_request raw_request; some (dispatch server req)

-- A handler of `registerDefaultMethods`
pub fixed : Bytes → Handler
fixed result req = record { result = result; error = []; id = req.id; success = true }

-- `RpcServer::registerDefaultMethods`
pub register_default_methods : RpcServer → RpcServer
register_default_methods server =
    register_method (codes "getmininginfo") (fixed (codes "{\"difficulty\":4,\"reward\":50}")) (
      register_method (codes "sendtoaddress") (fixed (codes "\"txhash_placeholder\"")) (
        register_method (codes "getbalance") (fixed (codes "0.0")) (
          register_method (codes "getnetworkinfo")
            (fixed (codes "{\"name\":\"Rex Network\",\"version\":\"0.1.0\",\"coin\":\"RXC\"}"))
            (register_method (codes "getblockcount") (fixed (codes "0")) server))))

-- `RpcServer::start` and `RpcServer::stop`
pub start : RpcServer → RpcServer
start server = register_default_methods (record server { running = true })

pub stop : RpcServer → RpcServer
stop server = record server { running = false }
