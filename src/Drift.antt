-- ===== src/Drift.antt =====
-- internal/core/drift.go.
pub mod Check
pub mod Found
mod Examples
