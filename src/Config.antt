-- ===== src/Config.antt =====
-- pkg/zhiplugin/config: paths, the configuration tree, and plugins merged under prefixes.
pub mod Path
pub mod Pattern
pub mod Tree
pub mod Trees
pub mod Merged
pub mod Routing
mod Examples
