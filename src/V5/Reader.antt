-- ===== src/V5/Reader.antt =====
-- rust/crates/mcfreeze-format/src/v5/reader.rs and snapshot.rs: opening a V5 snapshot and looking
-- a key up. A directory is a parameter: what reading each of its files gives. The hash, the filter
-- of the sketch and zstd are parameters as in the modules that use them.
pub mod Files
pub mod Locate
pub mod Held
pub mod Get
pub mod Assembled
use mcfreeze.Base.{ℕ, zero, suc, ◌+◌, ◌*◌, List, [], ◌∷◌, Bool, true, false, not, ◌&&◌}
use mcfreeze.Base.{Option, none, some, ltb, ◌==◌, if◌then◌else◌, length, get_elem?, Bytes, String}
use mcfreeze.Base.{◌⊎◌, inl, inr}
use mcfreeze.Base.Words.{from_le_bytes}
use mcfreeze.Data.{pread, fingerprint, verify_fingerprint}
use mcfreeze.Layout.{Layout, partition_of}
use mcfreeze.V5.Fence.{fence_of, candidate_blocks}
use mcfreeze.V5.Block.{Record, inline_record, stub_record, checksum32, find}
use mcfreeze.V5.Compress.{Zstd, Decompressor, decode, new_decompressor, verify_dict, map_err}
use mcfreeze.V5.Sketch.{Sketch, parse, contains, verify_sketch}
use mcfreeze.V5.Meta.{Meta, CompressionMeta, PartitionMeta, layout, is_some}
use mcfreeze.Error.{IoError, Error, Result, ok, err, panic, stuck, ◌>>=◌, ◌>>◌, io}
use mcfreeze.Error.{snapshot_file_size, snapshot_file_read, dict_unreadable}
use mcfreeze.Error.{invalid_compression_meta, invalid_sketch_meta, value_checksum_mismatch}

-- The flag of a miss tells whether it was paid for with I/O.
pub data GetOutcome : Type 0 where
  hit : Bytes → GetOutcome
  miss : Bool → GetOutcome

pub record Partition : Type 0 where
  pub fences : List ℕ
  pub blocks : Bytes
  pub heap : Bytes
  pub sketch : Option Sketch

pub record SnapshotReader (DCtx : Type 0) : Type 0 where
  pub partitions : List Partition
  pub layout : Layout
  pub verify_seed : ℕ
  pub block_size : ℕ
  pub codec : Option (Decompressor DCtx)

-- What reading the files of a snapshot gives: those of a partition by its index and their name.
pub record Directory : Type 0 where
  pub dict_file : IoError ⊎ Bytes
  pub partition_file : ℕ → String → IoError ⊎ Bytes

-- The cast of bytes to a slice of u32, on a little-endian machine.
unfoldable pub cast_slice : Bytes → List ℕ
cast_slice (a ∷ (b ∷ (c ∷ (d ∷ rest)))) = from_le_bytes (a ∷ (b ∷ (c ∷ (d ∷ [])))) ∷ cast_slice rest
cast_slice _ = []

-- `FenceArray::load` and `as_slice`. Memory for the copy is there.
unfoldable pub load : IoError ⊎ Bytes → ℕ → ℕ → Result (List ℕ)
load file expected_blocks partition = map_err io file >>= λ bytes.
    if not (length bytes == expected_blocks * 4)
    then err (snapshot_file_size partition "fences.bin" (length bytes) (expected_blocks * 4))
    else ok (cast_slice bytes)

unfoldable pub option_or {ℓ} : {A : Type ℓ} → Option A → Error → Result A
option_or none e = err e
option_or (some a) e = ok a

module _ (xxh64 : Bytes → ℕ → ℕ) (filter : Bytes → Bytes → ℕ → Bool) {Level CCtx DCtx : Type 0}
    (api : Zstd Level CCtx DCtx) where
  unfoldable pub open_codec :
      Directory → Option CompressionMeta → Result (Option (Decompressor DCtx))
  open_codec dir none = ok none
  open_codec dir (some c) = do
    dict ←
        (if c.dict
          then (option_or c.dict_checksum
                (invalid_compression_meta "dict: true requires dict_checksum")
              >>= λ expected. map_err dict_unreadable dir.dict_file >>= λ bytes.
                  verify_dict xxh64 bytes expected >> ok (some bytes))
          else ok none)
    d ← new_decompressor api dict
    ok (some d)

  unfoldable pub open_sketch : Directory → Bool → ℕ → PartitionMeta → Result (Option Sketch)
  open_sketch dir enabled i pm =
      if enabled && ltb 0 pm.n_blocks
      then (map_err (snapshot_file_read i "sketch.bin") (dir.partition_file i "sketch.bin")
          >>= λ bytes.
              option_or pm.sketch_checksum
                (invalid_sketch_meta "sketch present without sketch_checksum")
              >>= λ checksum.
                  verify_sketch xxh64 bytes checksum >> (parse bytes >>= λ s. ok (some s)))
      else ok none

  -- The body of the loop over the partitions.
  unfoldable pub open_partition : Directory → Bool → ℕ → ℕ → PartitionMeta → Result Partition
  unfolding open_sketch load
  open_partition dir enabled block_size i pm = do
    fences ← load (dir.partition_file i "fences.bin") pm.n_blocks i
    blocks ← map_err io (dir.partition_file i "blocks.bin")
    if not (length blocks == pm.n_blocks * block_size)
        then err (snapshot_file_size i "blocks.bin" (length blocks) (pm.n_blocks * block_size))
        else ok tt
    sketch ← open_sketch dir enabled i pm
    heap ← map_err io (dir.partition_file i "heap.bin")
    ok (record { fences = fences; blocks = blocks; heap = heap; sketch = sketch })

  unfoldable pub open_partitions :
      Directory → Bool → ℕ → ℕ → List PartitionMeta → Result (List Partition)
  unfolding open_partition
  open_partitions dir enabled block_size i [] = ok []
  open_partitions dir enabled block_size i (pm ∷ pms) = do
    part ← open_partition dir enabled block_size i pm
    parts ← open_partitions dir enabled block_size (suc i) pms
    ok (part ∷ parts)

  -- `SnapshotReader::open`
  unfoldable pub open_reader : Directory → Meta → Result (SnapshotReader DCtx)
  unfolding open_codec open_partitions
  open_reader dir m = do
    l ← layout m
    codec ← open_codec dir m.compression
    parts ← open_partitions dir (is_some m.sketch) m.block_size 0 m.partitions
    ok (record {
      partitions = parts;
      layout = l;
      verify_seed = m.verify_seed;
      block_size = m.block_size;
      codec = codec;
    })

  -- A lookup may take a context from the codec and gives it back.
  abbrev pub Lookup : Type 0
  Lookup = Result GetOutcome × Option (Decompressor DCtx)

  unfoldable pub hit_with : Result Bytes × Option (Decompressor DCtx) → Lookup
  hit_with (r, codec) = ((r >>= λ value. ok (hit value)), codec)

  -- The value of a record that matches: behind the block, or in the heap.
  unfoldable pub read_stub : Partition → ℕ → ℕ → ℕ → Result Bytes
  read_stub part heap_offset stored_len value_checksum =
      pread part.heap heap_offset stored_len >>= λ value.
      if checksum32 xxh64 value == value_checksum then ok value else err value_checksum_mismatch

  unfoldable pub resolve : Partition → Option (Decompressor DCtx) → Record → Lookup
  unfolding hit_with read_stub
  resolve part codec (inline_record vfp value compressed) =
      hit_with (decode api value compressed codec)
  resolve part codec (stub_record vfp stub compressed) =
      elim (read_stub part stub.heap_offset stub.stored_len stub.value_checksum) [
        | ok value ↦ hit_with (decode api value compressed codec)
        | err e ↦ (err e, codec)
        | panic ↦ (panic, codec)
        | stuck ↦ (stuck, codec)
      ]

  -- The loop over the candidate blocks.
  unfoldable pub get_loop : Partition → ℕ → ℕ → List ℕ → Bool → Option (Decompressor DCtx) → Lookup
  get_loop part block_size vfp [] paid codec = (ok (miss paid), codec)
  get_loop part block_size vfp (b ∷ bs) paid codec =
      elim (pread part.blocks (b * block_size) block_size >>= λ buf. find xxh64 buf vfp) [
        | ok (some rec) ↦ resolve part codec rec
        | ok none ↦ get_loop part block_size vfp bs true codec
        | err e ↦ (err e, codec)
        | panic ↦ (panic, codec)
        | stuck ↦ (stuck, codec)
      ]

  unfoldable pub get_in : Partition → ℕ → ℕ → ℕ → Option (Decompressor DCtx) → Lookup
  get_in part block_size fp vfp codec =
      let scan =
        get_loop part block_size vfp (candidate_blocks part.fences (fence_of fp)) false codec in
      elim part.sketch [
        | none ↦ scan
        | some sketch ↦ if contains filter sketch fp then scan else (ok (miss false), codec)
      ]

  -- `SnapshotReader::get`
  unfoldable pub get : SnapshotReader DCtx → Bytes → Lookup
  get reader key =
      let fp = fingerprint xxh64 key in
      let vfp = verify_fingerprint xxh64 key reader.verify_seed in
      elim (get_elem? reader.partitions (partition_of reader.layout fp)) [
        | none ↦ (panic, reader.codec)
        | some part ↦ get_in part reader.block_size fp vfp reader.codec
      ]
