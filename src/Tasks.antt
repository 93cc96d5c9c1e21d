-- ===== src/Tasks.antt =====
-- The execution of tasks: claims under fenced leases, and outcomes (internal/store/tasks.go and
-- internal/contracts/tasks.go).
mod Tests
pub mod Types
pub mod Rules
pub mod Rows
pub mod Events
pub mod Idempotency
pub mod Outcomes
pub mod Claim
pub mod Create
pub mod Machine
pub mod Refinement
pub mod Fencing
pub mod Padding
