-- ===== src/RemoteCache/Wire.antt =====
-- remote_cache/wire.py: the protobuf wire format. An offset `at` into `data` is modelled by the
-- bytes from there on, so `at >= len(data)` reads "none are left". A field at a varint's or a
-- length's value is a `Value`; numbers are non-negative, as everything the program writes is, so
-- the refusal of a negative one in `_write_varint` has no counterpart.
pub mod Varint
pub mod Fields
pub mod Writer
pub mod Message
pub mod ReadBack
pub mod RoundTrip
