-- ===== src/V5/Meta.antt =====
-- rust/crates/mcfreeze-format/src/v5/meta.rs: the control data of a V5 snapshot and its validation.
-- The JSON text is read and written by serde; a `Meta` is what it reads. The version, which
-- the descriptor dispatches on, and the fields that no operation reads (`stats`, `encoding`, and
-- those recorded for provenance only) are left out.
pub mod Coherence
use mcfreeze.Base.{ℕ, ◌*◌, ◌^◌, List, [], ◌∷◌, Bool, true, false, not, ◌||◌, ◌&&◌, Option, none}
use mcfreeze.Base.{some}
use mcfreeze.Base.{ltb, leb, if◌then◌else◌, length, ◌%◌, String, string_eq}
use mcfreeze.Base.Words.{is_power_of_two}
use mcfreeze.Error.{Result, ok, err, ◌>>◌, invalid_block_size, invalid_block_count}
use mcfreeze.Error.{unsupported_hash_algorithm, unsupported_sketch_kind, invalid_sketch_meta}
use mcfreeze.Error.{unsupported_codec, invalid_compression_meta}
use mcfreeze.Layout.{Layout, new}

abbrev pub hash_algorithm_name : String
hash_algorithm_name = "xxhash64"

abbrev pub min_block_size : ℕ
min_block_size = 4096

abbrev pub sketch_kind : String
sketch_kind = "binary_fuse8"

abbrev pub codec_zstd : String
codec_zstd = "zstd"

pub record CompressionMeta : Type 0 where
  pub codec : String
  pub dict : Bool
  pub dict_checksum : Option ℕ

pub record PartitionMeta : Type 0 where
  pub n_blocks : ℕ
  pub sketch_checksum : Option ℕ

pub record Meta : Type 0 where
  pub hash_algorithm : String
  pub verify_seed : ℕ
  pub block_size : ℕ
  pub inline_threshold : ℕ
  -- The kind of the sketch.
  pub sketch : Option String
  pub compression : Option CompressionMeta
  pub partitions : List PartitionMeta

unfoldable pub validate_block_size : ℕ → Result (Unit {0})
validate_block_size block_size =
    if not (is_power_of_two 32 block_size) || ltb block_size min_block_size
    then err (invalid_block_size block_size)
    else ok tt

abbrev pub is_some {ℓ} : {A : Type ℓ} → Option A → Bool
is_some none = false
is_some (some a) = true

unfoldable pub check_kind : Option String → Result (Unit {0})
check_kind none = ok tt
check_kind (some kind) =
    if string_eq kind sketch_kind then ok tt else err (unsupported_sketch_kind kind)

-- The match on whether a sketch was written and whether there is a checksum.
unfoldable pub check_anchor : Bool → Bool → Result (Unit {0})
check_anchor true false =
    err (invalid_sketch_meta "non-empty partition with the filter enabled requires sketch_checksum")
check_anchor false true =
    err (invalid_sketch_meta "sketch_checksum present without a written sketch")
check_anchor _ _ = ok tt

unfoldable pub check_anchors : Bool → List PartitionMeta → Result (Unit {0})
unfolding check_anchor
check_anchors sketch [] = ok tt
check_anchors sketch (pm ∷ pms) =
    check_anchor (sketch && ltb 0 pm.n_blocks) (is_some pm.sketch_checksum)
    >> check_anchors sketch pms

unfoldable pub check_compression : Option CompressionMeta → Result (Unit {0})
check_compression none = ok tt
check_compression (some c) =
    if not (string_eq c.codec codec_zstd)
    then err (unsupported_codec c.codec)
    else if c.dict && not (is_some c.dict_checksum)
    then err (invalid_compression_meta "dict: true requires dict_checksum")
    else if not c.dict && is_some c.dict_checksum
    then err (invalid_compression_meta "dict_checksum requires dict: true")
    else ok tt

-- `checked_mul` of u64.
unfoldable pub check_block_counts : ℕ → List PartitionMeta → Result (Unit {0})
check_block_counts block_size [] = ok tt
check_block_counts block_size (pm ∷ pms) =
    if leb (2 ^ 64) (pm.n_blocks * block_size)
    then err (invalid_block_count pm.n_blocks)
    else check_block_counts block_size pms

-- `Meta::layout`
unfoldable pub layout : Meta → Result Layout
layout m =
    if not (string_eq m.hash_algorithm hash_algorithm_name)
    then err (unsupported_hash_algorithm m.hash_algorithm)
    else (validate_block_size m.block_size
        >> (check_kind m.sketch
            >> (check_anchors (is_some m.sketch) m.partitions
                >> (check_compression m.compression
                    >> (check_block_counts m.block_size m.partitions
                        >> new (length m.partitions % 2 ^ 32))))))
