-- ===== src/Event.antt =====
-- The control events of a workspace and their store (internal/contracts/events.go and
-- internal/store/events.go).
pub mod Types
mod Tests
pub mod Normalize
pub mod Append
