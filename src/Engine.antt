-- ===== src/Engine.antt =====
-- internal/core/engine.go.
pub mod State
pub mod Load
pub mod Store
pub mod Steps
pub mod Taken
pub mod Semantic
pub mod Merging
pub mod Loading
pub mod Saved
pub mod Apply
mod Examples
