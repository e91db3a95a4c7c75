-- ===== src/Gate.antt =====
-- The package gnet: the messages between a gate and its clients.
pub mod Connect
pub mod Handshake
pub mod Http
pub mod Message
