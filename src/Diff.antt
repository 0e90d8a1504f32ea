-- ===== src/Diff.antt =====
-- internal/core/diff.go.
pub mod Script
pub mod Matrix
pub mod Replay
pub mod Hunks
pub mod Edits
pub mod Ends
pub mod Headers
pub mod Export
pub mod Changes
pub mod Examples
