-- ===== src/Transport.antt =====
-- The packages below transport that frame data.
pub mod Chunk
pub mod Reads
pub mod Writes
