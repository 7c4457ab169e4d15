-- ===== src/RemoteCache.antt =====
-- remote_cache/: the local cache shim between Buck2 and a bucket.
mod Tests
pub mod Outcome
pub mod ReadAll
pub mod Wire
pub mod Reapi
pub mod Exec
pub mod Bundle
pub mod Signing
pub mod Store
pub mod Bucket
pub mod Shim
