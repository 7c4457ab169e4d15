-- ===== src/Kmod.antt =====
-- kmod/kmod.py: the kernel modules that an initrd carries.
pub mod Names
pub mod Libkmod
pub mod Closure
pub mod Links
mod Tests
pub mod Fnmatch
pub mod Patterns
