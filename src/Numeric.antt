-- ===== src/Numeric.antt =====
-- internal/core/numeric.go and pkg/zhiplugin/config/convert.go.
pub mod Convert
pub mod Lossless
pub mod TryConvert
pub mod Converted
mod Examples
