-- ===== src/V4.antt =====
-- Format V4, rust/crates/mcfreeze-format/src/v4/: a Robin Hood hash index over a file of values.
pub mod Index
pub mod Reader
pub mod Writer
pub mod Spill
pub mod Examples
