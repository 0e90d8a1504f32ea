-- ===== src/Sharing.antt =====
-- pkg/sharing/client/ref.go and pkg/sharing/lockfile/lockfile.go.
pub mod Reference
pub mod Cutting
pub mod Parsed
pub mod LockFile
pub mod Locked
mod Examples
