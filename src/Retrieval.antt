-- ===== src/Retrieval.antt =====
-- Compiling retrieved items into a context pack under hard budgets (internal/retrieval).
pub mod Prefix
pub mod Compile
mod Tests
