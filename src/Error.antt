-- ===== src/Error.antt =====
-- rust/crates/mcfreeze-format/src/error.rs: the error type of the format crate, and the results of
-- its functions. `panic` is a panic of the Rust code (an assertion, an index out of bounds), and
-- `stuck` is no Rust value: it marks a loop of the model whose fuel ran out.
use mcfreeze.Base.{ℕ, ◌≡◌, refl, String}

-- The kinds of `std::io::Error` that the code makes or asks for.
pub data IoError : Type 0 where
  not_found unexpected_eof invalid_data invalid_input unsupported broken_pipe other : IoError

pub data Error : Type 0 where
  invalid_partition_count : ℕ → Error
  offset_overflow : ℕ → Error
  psl_overflow : (psl n_keys n_buckets : ℕ) → Error
  duplicate_fingerprints : (max_count max_tolerated : ℕ) → Error
  record_too_large : (encoded capacity : ℕ) → Error
  value_too_large : (len max : ℕ) → Error
  assembler_poisoned : Error
  invalid_block_size : ℕ → Error
  invalid_block_count : ℕ → Error
  value_checksum_mismatch : Error
  compressed_value_without_codec : Error
  corrupt_frame : String → Error
  frame_content_too_large : (got max : ℕ) → Error
  decompress : IoError → Error
  dict_checksum_mismatch : (got expected : ℕ) → Error
  dict_train : IoError → Error
  dict_missing : (expected : ℕ) → IoError → Error
  zstd : IoError → Error
  unsupported_codec : String → Error
  invalid_compression_meta : String → Error
  dict_unreadable : IoError → Error
  sketch_build : String → Error
  corrupt_sketch : String → Error
  sketch_checksum_mismatch : (got expected : ℕ) → Error
  unsupported_sketch_kind : String → Error
  invalid_sketch_meta : String → Error
  snapshot_file_size : (partition : ℕ) (file : String) (got expected : ℕ) → Error
  snapshot_file_read : (partition : ℕ) (file : String) (source : IoError) → Error
  block_checksum_mismatch : Error
  corrupt_block : String → Error
  unsupported_hash_algorithm : String → Error
  unsupported_format_version : ℕ → Error
  unknown_format : (got expected : String) → Error
  finalize_before_build : Error
  io : IoError → Error
  json : Error

pub data Result {ℓ} (A : Type ℓ) : Type ℓ where
  ok : A → Result A
  err : Error → Result A
  panic : Result A
  stuck : Result A

module _ {ℓ κ} {A : Type ℓ} {B : Type κ} where
  infixl 5 ◌>>=◌
  -- The `?` operator, and what follows it.
  abbrev pub ◌>>=◌ : Result A → (A → Result B) → Result B
  stuck >>= k = stuck
  panic >>= k = panic
  err e >>= k = err e
  ok a >>= k = k a

  -- What succeeds has succeeded at its first step.
  pub >>=-eq-ok :
      (m : Result A) (k : A → Result B) {b : B}
      → (m >>= k) ≡ ok b
      → (a : A) × (m ≡ ok a) × (k a ≡ ok b)
  >>=-eq-ok stuck k e = cc
  >>=-eq-ok panic k e = cc
  >>=-eq-ok (err _) k e = cc
  >>=-eq-ok (ok a) k e = (a, refl, e)

infixl 5 ◌>>◌
abbrev pub ◌>>◌ {κ} : {B : Type κ} → Result (Unit {0}) → Result B → Result B
m >> next = m >>= λ _. next
