-- ===== src/Loader.antt =====
-- rust/crates/mcfreeze-loader/src/: records from sources, routed to the partitions of a snapshot and
-- appended to their logs. A channel to the writer of a partition is the list of what was sent; it
-- is none when the writer has exited. That a channel is bounded only delays a producer. One source
-- is scattered, and the writers run when its channels are closed. Histograms, times and progress
-- reports are left out, and so is the preview of a key in an error, which is the key.
pub mod Scatter
pub mod Ranges
pub mod Routed
pub mod Refused
pub mod Logged
pub mod Limit
pub mod Capped
pub mod Phases
pub mod Rescan
pub mod Loaded
pub mod Examples
use mcfreeze.Base.{ℕ, Bytes, String}
use mcfreeze.Error.{Error, IoError}

-- `FormatId`
pub data FormatId : Type 0 where
  v4 v5 : FormatId

pub data LoaderError : Type 0 where
  format : Error → LoaderError
  io : IoError → LoaderError
  arrow source thread_pool join : String → LoaderError
  format_mismatch : (requested found : FormatId) → LoaderError
  value_too_large : (key : Bytes) (len max : ℕ) → LoaderError

pub data LoadResult (A : Type 0) : Type 0 where
  loaded : A → LoadResult A
  refused : LoaderError → LoadResult A
  panicked : LoadResult A
