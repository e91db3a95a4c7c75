-- ===== src/Watch.antt =====
-- The package watch: the registry's server, its client and their protocol.
pub mod Client
pub mod Message
pub mod Server
