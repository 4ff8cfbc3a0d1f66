-- ===== src/V5/Builder.antt =====
-- rust/crates/mcfreeze-format/src/v5/builder.rs: the files of a snapshot while it is built. A file
-- that is absent is none. A marker is published at once and is read back as what was written: its
-- JSON text is left out. Reads of absent files fail; failures to write, and the text of log lines,
-- are left out. Counters are natural numbers: they count bytes and keys of files.
pub mod Arrival
pub mod Sizes
pub mod Bounds
pub mod Frames
pub mod Appended
pub mod Tiles
pub mod Radix
pub mod Order
pub mod Partition
pub mod Emitted
pub mod Built
pub mod Written
pub mod Partitioned
pub mod Dedup
pub mod Whole
pub mod Entries
pub mod Opened
pub mod Filtered
pub mod Served
pub mod Found
pub mod Restart
pub mod Planning
pub mod Phases
pub mod Plans
pub mod Pinned
pub mod Resumed
pub mod Config
use mcfreeze.Base.{ℕ, List, [], ◌∷◌, Bool, Option, none, some, Bytes, String}
use mcfreeze.Error.{Result, ok, err, io, IoError}
use mcfreeze.V5.Compress.{Mode}

-- `arrival.stats`
pub record ArrivalStats : Type 0 where
  pub n_keys : ℕ
  pub data_bytes : ℕ
  pub hist : List ℕ

-- `v5.plan`
pub record Plan : Type 0 where
  pub block_size : ℕ
  pub inline_threshold : ℕ
  pub sketch : Bool
  pub compression : Mode
  pub min_compress_len : ℕ
  pub dict_checksum : Option ℕ
  pub n_samples : ℕ
  pub dict_len : ℕ
  pub dict_fallback : Bool
  pub sample_bytes_raw : ℕ
  pub sample_bytes_stored : ℕ

-- `build.done`
pub record PartitionBuildDone : Type 0 where
  pub n_keys : ℕ
  pub data_bytes : ℕ
  pub n_blocks : ℕ
  pub n_stubs : ℕ
  pub blocks_bytes : ℕ
  pub heap_bytes : ℕ
  pub sketch_bytes : ℕ
  pub sketch_checksum : Option ℕ
  pub value_bytes_raw : ℕ
  pub value_bytes_stored : ℕ
  pub n_compressed : ℕ
  pub n_raw : ℕ

-- A partition's directory. `buckets` are the files that `remove_bucket_files` matches by name: the
-- radix buckets, in their order, and the markers that were not yet renamed.
pub record Dir : Type 0 where
  pub arrival_bin : Option Bytes
  pub arrival_stats : Option ArrivalStats
  pub buckets : List Bytes
  pub blocks_bin : Option Bytes
  pub heap_bin : Option Bytes
  pub fences_bin : Option Bytes
  pub sketch_bin : Option Bytes
  pub build_done : Option PartitionBuildDone

-- An operation on the directory of a partition: what was done before an error stays done.
abbrev pub Io : Type 0 → Type 0 → Type 0
Io S A = S → Result A × S

-- `fs::read` and its kin: an absent file is an error.
abbrev pub read {ℓ} : {A : Type ℓ} → Option A → Result A
read none = err (io IoError.not_found)
read (some a) = ok a

unfoldable pub remove_bucket_files : Dir → Dir
remove_bucket_files dir = record dir { buckets = [] }

unfoldable pub sweep_partition_transients : Dir → Dir
unfolding remove_bucket_files
sweep_partition_transients dir =
    remove_bucket_files (record dir { arrival_bin = none; arrival_stats = none })

-- The reset at the head of `build_partition`.
unfoldable pub remove_outputs : Dir → Dir
remove_outputs dir = record dir {
  blocks_bin = none;
  heap_bin = none;
  fences_bin = none;
  sketch_bin = none;
}
