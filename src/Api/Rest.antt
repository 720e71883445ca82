-- ===== src/Api/Rest.antt =====
-- src/api/rest.h and src/api/rest.cpp. A handler is a function.
use rex_coin.Base.{ℕ, Bool, true, false, none, some, [], ◌++◌, Bytes, codes}
use rex_coin.Dict.{Dict, lookup, insert}

-- `struct HttpRequest`
pub record HttpRequest : Type 0 where
  pub method : Bytes
  pub path : Bytes
  pub body : Bytes

-- `struct HttpResponse`
pub record HttpResponse : Type 0 where
  pub code : ℕ
  pub body : Bytes

-- `RestServer::Handler`
abbrev pub Handler : Type 0
Handler = HttpRequest → HttpResponse

-- `class RestServer`
pub record RestServer : Type 0 where
  pub port : ℕ
  pub running : Bool
  pub routes : Dict Handler

-- `RestServer::RestServer`
pub new_server : ℕ → RestServer
new_server port = record { port = port; running = false; routes = [] }

-- `RestServer::registerRoute`
pub register_route : Bytes → Bytes → Handler → RestServer → RestServer
register_route m p handler server = record server {
  routes = insert (m ++ codes " " ++ p) handler server.routes;
}

-- `RestServer::handle`
pub handle : RestServer → HttpRequest → HttpResponse
handle server req = elim (lookup (req.method ++ codes " " ++ req.path) server.routes) [
  | none ↦ record { code = 404; body = codes "{\"error\":\"Not found\"}" }
  | some handler ↦ handler req
]

-- A handler of `registerDefaultRoutes`
pub fixed : Bytes → Handler
fixed body req = record { code = 200; body = body }

-- `RestServer::registerDefaultRoutes`
pub register_default_routes : RestServer → RestServer
register_default_routes server =
    register_route (codes "GET") (codes "/tx/{hash}") (fixed (codes "{\"tx\":{}}")) (
      register_route (codes "GET") (codes "/stats")
        (fixed (codes "{\"coin\":\"RXC\",\"supply\":21000000}"))
        (register_route (codes "GET") (codes "/mempool") (fixed (codes "{\"count\":0,\"txs\":[]}"))
          (register_route (codes "GET") (codes "/blocks") (fixed (codes "{\"blocks\":[]}"))
            server)))

-- `RestServer::start`
pub start : RestServer → RestServer
start server = register_default_routes (record server { running = true })

-- `RestServer::stop`
pub stop : RestServer → RestServer
stop server = record server { running = false }
