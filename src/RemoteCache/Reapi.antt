-- ===== src/RemoteCache/Reapi.antt =====
-- remote_cache/reapi.py: the messages of the Remote Execution API that the cache exchanges. A class
-- is a record, `parse` a function of the bytes that may raise, and `to_bytes` the writer.
pub mod Digest
pub mod Result
pub mod Blobs
pub mod Stream
