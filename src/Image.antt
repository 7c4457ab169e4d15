-- ===== src/Image.antt =====
-- image/: what an image is built and updated from.
pub mod Version
mod Tests
