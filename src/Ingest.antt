-- ===== src/Ingest.antt =====
-- Taking repository sources in: the chunks of a file (internal/ingest).
pub mod Chunk
mod Tests
