-- ===== src/Packer.antt =====
-- crates/core/src/blob/packer.rs: the size of packs, and the packers.
pub mod Sizer
pub mod Basic
pub mod Writer
mod Samples
mod Tests
