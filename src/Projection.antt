-- ===== src/Projection.antt =====
-- Derived views of the event stream (internal/projection).
pub mod Types
pub mod Task
pub mod Runner
pub mod Rebuild
mod Tests
