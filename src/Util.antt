-- ===== src/Util.antt =====
-- The package util: the parts of it that keep state or compute.
pub mod Bolt
pub mod BytesCache
pub mod Crypto
pub mod HashSet
pub mod IdGen
pub mod Misc
pub mod Rand
pub mod Xlog
