-- ===== src/Component.antt =====
-- internal/core/component.go: component definitions and their enabled or disabled state.
pub mod Paths
pub mod Manager
pub mod Cycles
pub mod Valid
pub mod Enable
pub mod Effect
pub mod Enabling
pub mod Disable
pub mod Setup
pub mod Disabling
pub mod Indexing
pub mod Startup
pub mod Ownership
pub mod Filter
pub mod Saving
pub mod Counting
pub mod Graph
pub mod Kahn
pub mod KahnLoop
pub mod KahnStart
pub mod Acyclic
pub mod Walk
pub mod Dependents
pub mod Cascade
pub mod CascadeLoop
pub mod Cascading
pub mod Examples
mod CycleExamples
