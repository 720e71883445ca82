-- ===== src/Api.antt =====
-- src/api: the servers, without their sockets.
pub mod Rpc
pub mod Rest
pub mod WebSocket
