-- ===== src/Archive.antt =====
-- archive/: the archives that images and boxes are made of.
pub mod Cpio
mod Tests
