-- ===== src/V5.antt =====
-- Format V5, rust/crates/mcfreeze-format/src/v5/: fingerprint-sorted blocks behind fences.
pub mod Fence
pub mod Block
pub mod Compress
pub mod Sketch
pub mod Meta
pub mod Reader
pub mod Builder
pub mod Examples
