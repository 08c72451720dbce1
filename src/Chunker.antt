-- ===== src/Chunker.antt =====
-- crates/core/src/chunker.rs with chunker/rabin.rs and chunker/fixed_size.rs: a file is cut into chunks.
-- The reader is the list of what its calls of `read` meet. The rolling hash is that of the crate
-- rustic_cdc, a parameter.
pub mod Reader
pub mod Pieces
pub mod Fixed
pub mod Rabin
pub mod Iter
mod Tests
