-- ===== src/Api/WebSocket.antt =====
-- src/api/websocket.h and src/api/websocket.cpp. A callback acts on a state `W` of the system.
use rex_coin.Base.{ℕ, Bool, true, false, List, [], ◌∷◌, ◌++◌, if◌then◌else◌, Bytes}

-- `enum class WsEvent`
pub data WsEvent : Type 0 where
  new_block new_tx mempool_update price_update : WsEvent

-- `e==event`
pub same_event : WsEvent → WsEvent → Bool
same_event new_block new_block = true
same_event new_tx new_tx = true
same_event mempool_update mempool_update = true
same_event price_update price_update = true
same_event _ _ = false

-- `class WebSocketServer`
pub record WebSocketServer (W : Type 0) : Type 0 where
  pub port : ℕ
  pub running : Bool
  pub subscribers : List (WsEvent × (Bytes → W → W))

module _ {W : Type 0} where
  -- `WebSocketServer::WebSocketServer`
  pub new_server : ℕ → WebSocketServer W
  new_server port = record { port = port; running = false; subscribers = [] }

  -- `WebSocketServer::start` and `WebSocketServer::stop`
  pub start : WebSocketServer W → WebSocketServer W
  start server = record server { running = true }

  pub stop : WebSocketServer W → WebSocketServer W
  stop server = record server { running = false }

  -- `WebSocketServer::subscribe`
  pub subscribe : WsEvent → (Bytes → W → W) → WebSocketServer W → WebSocketServer W
  subscribe event cb server = record server { subscribers = server.subscribers ++ (event, cb) ∷ [] }

  -- `for(auto&[e,cb]:subscribers) if(e==event) cb(data);`
  pub call_subscribers : WsEvent → Bytes → List (WsEvent × (Bytes → W → W)) → W → W
  call_subscribers event data' [] w = w
  call_subscribers event data' ((e, cb) ∷ subscribers) w =
      call_subscribers event data' subscribers (if same_event e event then cb data' w else w)

  -- `WebSocketServer::broadcast`
  pub broadcast : WsEvent → Bytes → WebSocketServer W → W → W
  broadcast event data' server w = call_subscribers event data' server.subscribers w
