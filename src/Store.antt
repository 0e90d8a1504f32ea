-- ===== src/Store.antt =====
-- The store plugins: pkg/zhiplugin/store and examples/zhi-store-memory.
pub mod Types
pub mod Plugin
pub mod Mirrored
pub mod Refines
pub mod Contract
pub mod Memory
pub mod Values
pub mod Storing
pub mod InSync
pub mod Disk
pub mod Json
pub mod Writing
pub mod Entries
pub mod JsonView
pub mod JsonMethods
pub mod JsonStoring
mod Examples
mod DiskExamples
