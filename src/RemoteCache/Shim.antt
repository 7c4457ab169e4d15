-- ===== src/RemoteCache/Shim.antt =====
-- remote_cache/shim.py: what the shim's services answer Buck2 with.
pub mod Pointer
pub mod State
pub mod Local
pub mod Proven
pub mod Lookup
pub mod Publish
pub mod Storage
pub mod Stream
pub mod Idle
