-- ===== src/RemoteCache/Signing.antt =====
-- remote_cache/signing.py: who wrote an `ac/` object. `Envelope` is the stored form, `Authority` the
-- reader's half: which key is acted on, and what its signature covers, `Signer` the builder's.
pub mod Envelope
pub mod Authority
pub mod Signer
