-- ===== src/Api/Rpc/Request.antt =====
-- src/api/rpc.cpp: requests that are read.
use rex_coin.Base.{
  ℕ, ◌+◌, ◌-◌, ◌^◌, ◌≤◌, ◌<◌, ◌≡◌, ◌≢◌, refl, ap, ◌∙◌, false, some, [], ◌∷◌, ◌++◌, arith, ltb,
  length, drop, take-append, All, Bytes, codes, u64,
}
use rex_coin.Base.Text.{eqb}
use rex_coin.Dict.{lookup-insert_self}
use rex_coin.Core.Script.{find}
use rex_coin.Core.Script.Unlock.{find-skip}
use rex_coin.Api.Rpc.{
  find_from, substr_or_throw, RpcRequest, Handler, RpcServer, register_method, parse_method,
  parse_params, parse_request, dispatch, handle,
}

-- A request without a quotation mark in its method.
abbrev pub request : Bytes → Bytes → Bytes
request method rest = codes "{\"method\":\"" ++ (method ++ (codes "\"" ++ rest))

-- A search from a position within the text.
find_from-some :
    (pattern s rest : Bytes) (from i : ℕ)
    → from ≤ length s
    → drop from s ≡ rest
    → find pattern rest ≡ some i
    → find_from pattern s from ≡ from + i
unfolding find_from
find_from-some pattern s rest from i le e found =
    let within : ltb (length s) from ≡ false = ground arith in rw (find_from, within, e, found)

find_from-method : (s : Bytes) → find_from (codes "\"method\"") (codes "{\"method\":\"" ++ s) 0 ≡ 1
unfolding find eqb
find_from-method s =
    let raw : Bytes = codes "{\"method\":\"" ++ s in
    find_from-some (codes "\"method\"") raw raw 0 1 (omega arith) refl refl ∙ omega arith

find_from-open : (s : Bytes) → find_from (codes "\"") (codes "{\"method\":\"" ++ s) 10 ≡ 10
unfolding find eqb
find_from-open s =
    let raw : Bytes = codes "{\"method\":\"" ++ s in
    find_from-some (codes "\"") raw (b'"' ∷ s) 10 0 (omega arith) refl refl ∙ omega arith

find_from-close :
    (method rest : Bytes)
    → All (λ c. c ≢ b'"') method
    → find_from (codes "\"") (request method rest) 11 ≡ 11 + length method
find_from-close method rest plain =
    find_from-some (codes "\"") (request method rest) (method ++ (codes "\"" ++ rest)) 11
      (length method) (omega arith) refl (find-skip b'"' [] method rest plain)

-- The method of a request is what stands between its quotation marks.
pub parse_method-request :
    (method rest : Bytes)
    → All (λ c. c ≢ b'"') method
    → length method < 2 ^ 64
    → parse_method (request method rest) ≡ some method
unfolding parse_method substr_or_throw
parse_method-request method rest plain short =
    let raw : Bytes = request method rest in
    let quoted : Bytes = method ++ (codes "\"" ++ rest) in
    let n : u64 (2 ^ 64 + (11 + length method) - 11) ≡ length method = omega arith in
    let within : ltb (length raw) 11 ≡ false = ground arith in
    rw (
      parse_method,
      find_from-method quoted,
      find_from-open quoted,
      find_from-close method rest plain,
      n,
      substr_or_throw,
      within,
      take-append method (codes "\"" ++ rest),
    )

dispatch-register_method :
    (handler : Handler) (server : RpcServer) (req : RpcRequest)
    → dispatch (register_method req.method handler server) req ≡ handler req
unfolding dispatch register_method
dispatch-register_method handler server req =
    rw (dispatch, lookup-insert_self req.method handler server.methods)

-- A request whose method has no quotation mark, and whose parameters can be read, reaches the handler
-- that was registered last for the method, with its parameters.
handle-register_method :
    (method rest params : Bytes) (handler : Handler) (server : RpcServer)
    → All (λ c. c ≢ b'"') method
    → length method < 2 ^ 64
    → parse_params (request method rest) ≡ some params
    → handle (register_method method handler server) (request method rest)
      ≡ some (handler (record { method = method; params = params; id = 1 }))
unfolding handle parse_request
handle-register_method method rest params handler server plain short e =
    rw (handle, parse_request, parse_method-request method rest plain short, e)
      (ap some (
        dispatch-register_method handler server
          (record { method = method; params = params; id = 1 })))
