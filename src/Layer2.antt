-- ===== src/Layer2.antt =====
-- src/layer2: payment channels, routes over them and the side chain.
pub mod Channel
pub mod Lightning
pub mod Sidechain
