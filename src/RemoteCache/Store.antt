-- ===== src/RemoteCache/Store.antt =====
-- remote_cache/store.py: the shim's local store, an index of rows beside blobs in files.
pub mod Table
pub mod State
pub mod Choose
pub mod Evict
pub mod Rows
pub mod Filed
pub mod Blobs
pub mod Results
pub mod Start
pub mod Reads
pub mod Held
pub mod Bounds
pub mod RowBound
pub mod Filing
pub mod Provenance
pub mod Presence
pub mod Stored
