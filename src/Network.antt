-- ===== src/Network.antt =====
-- src/network: the wire format, the peers and the node.
pub mod Frame
pub mod Socket
pub mod Node
pub mod Peers
pub mod Protocol
pub mod Seeds
