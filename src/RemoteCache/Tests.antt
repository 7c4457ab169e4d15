-- ===== src/RemoteCache/Tests.antt =====
-- The theorems about remote_cache/ at concrete inputs, and runs of its code.
mod Wire
mod Reapi
mod Bundle
mod Signing
mod Store
mod Shim
mod Handlers
mod Idle
