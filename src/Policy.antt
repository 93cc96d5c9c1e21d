-- ===== src/Policy.antt =====
-- Validation policy packs: admission control of repository changes (internal/policy/resolver.go and
-- the contracts that it reads).
pub mod Types
pub mod Budget
pub mod Approval
pub mod Resolve
pub mod Normalize
pub mod Admission
pub mod Order
mod Tests
