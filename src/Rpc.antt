-- ===== src/Rpc.antt =====
-- The package rpc: framing, the client, and the routing of calls between nodes.
pub mod Frame
pub mod Coder
pub mod GoClient
pub mod GoServer
pub mod Services
pub mod Http
pub mod Membership
pub mod Node
