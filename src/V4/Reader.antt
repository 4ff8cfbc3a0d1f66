-- ===== src/V4/Reader.antt =====
-- rust/crates/mcfreeze-format/src/v4/reader.rs and v4/index.rs: a lookup in a partition by groups of
-- eight buckets. The group probes for AVX2 and NEON are instances of the scalar one by other
-- instructions. The bytes of a file are its content, and `xxh64` is a parameter.
pub mod Group
pub mod Found
use mcfreeze.Base.{ℕ, zero, suc, ◌+◌, ◌-◌, ◌*◌, ◌%◌, ◌^◌, List, [], ◌∷◌, Bool, true, false, ltb}
use mcfreeze.Base.{leb, ◌==◌}
use mcfreeze.Base.{if◌then◌else◌, Option, none, some, Bytes, length, slice, take, replicate}
use mcfreeze.Base.{get_elem?}
use mcfreeze.Base.Words.{from_le_bytes}
use mcfreeze.Data.{pread, fingerprint, compact_fingerprint}
use mcfreeze.Error.{Result, ok, err, panic, stuck, ◌>>=◌, io, IoError}
use mcfreeze.Layout.{Layout, partition_of}
use mcfreeze.V4.Index.{Bucket, slot, is_empty, value_alignment, aligned_size, home_position}
use mcfreeze.V5.Reader.{GetOutcome, hit, miss}

abbrev pub no_match : ℕ
no_match = 2 ^ 32 - 1

abbrev pub group_size : ℕ
group_size = 8

abbrev pub value_header_size : ℕ
value_header_size = 12

pub record ProbeResult : Type 0 where
  pub offsets : List ℕ
  pub done : Bool

-- The loop of the scalar probe, from the `i`-th bucket of the group on.
unfoldable pub probe_from : ℕ → List Bucket → ℕ → ℕ → ℕ → ProbeResult
probe_from zero table cfp start i = record { offsets = []; done = false }
probe_from (suc left) table cfp start i =
    let bucket = slot table ((start + i) % length table) in
    let rest = probe_from left table cfp start (suc i) in
    if is_empty bucket
    then record { offsets = replicate (suc left) no_match; done = true }
    else record rest {
      offsets = (if bucket.fingerprint == cfp then bucket.offset else no_match) ∷ rest.offsets;
    }

unfoldable pub probe_group_scalar : List Bucket → ℕ → ℕ → ProbeResult
unfolding probe_from
probe_group_scalar table cfp start = probe_from group_size table cfp start 0

-- What is there of the bytes asked for.
unfoldable pub pread_up_to : Bytes → ℕ → ℕ → Bytes
pread_up_to file byte_offset size = slice byte_offset (byte_offset + size) file

-- The value behind a header, read again in full if the first read was too short for it.
unfoldable pub read_value : Bytes → ℕ → Bytes → Result (Option Bytes)
unfolding aligned_size
read_value file byte_offset first_read =
    let byte_len = from_le_bytes (slice 8 12 first_read) in
    let on_disk_size = value_header_size + byte_len in
    if leb on_disk_size (length first_read)
    then ok (some (slice value_header_size on_disk_size first_read))
    else if leb (2 ^ 32) on_disk_size
    then ok none
    else (pread file byte_offset (aligned_size on_disk_size % 2 ^ 32) >>= λ raw.
        if ltb (length raw) on_disk_size
        then panic
        else ok (some (slice value_header_size on_disk_size raw)))

unfoldable pub read_and_verify : Bytes → ℕ → ℕ → Result (Option Bytes)
unfolding pread_up_to read_value
read_and_verify file byte_offset expected_vfp =
    let page_remaining = 4096 - byte_offset % 4096 in
    let first_read = pread_up_to file byte_offset page_remaining in
    if ltb (length first_read) value_header_size
    then err (io IoError.unexpected_eof)
    else if from_le_bytes (take 8 first_read) == expected_vfp
    then read_value file byte_offset first_read
    else ok none

pub record PartitionReader : Type 0 where
  pub buckets : List Bucket
  pub data_file : Bytes
  pub verify_seed : ℕ

-- The loop over the offsets of a group: the value that verifies, and whether there was a candidate.
unfoldable pub try_offsets : Bytes → ℕ → List ℕ → Bool → Result (Option Bytes × Bool)
try_offsets file vfp [] had_candidate = ok (none, had_candidate)
try_offsets file vfp (o ∷ os) had_candidate = elim (o == no_match) [
  | true ↦ try_offsets file vfp os had_candidate
  | false ↦ elim (read_and_verify file (o * value_alignment) vfp) [
    | ok (some value) ↦ ok (some value, true)
    | ok none ↦ try_offsets file vfp os true
    | err e ↦ err e
    | panic ↦ panic
    | stuck ↦ stuck
  ]
]

-- The loop over the groups. Eight buckets to a round, so one round per bucket is enough.
unfoldable pub group_loop : ℕ → PartitionReader → ℕ → ℕ → (pos steps : ℕ) → Bool → Result GetOutcome
group_loop zero part cfp vfp pos steps had_candidate =
    if ltb steps (length part.buckets) then stuck else ok (miss had_candidate)
group_loop (suc fuel) part cfp vfp pos steps had_candidate =
    elim (ltb steps (length part.buckets)) [
      | false ↦ ok (miss had_candidate)
      | true ↦
          let result = probe_group_scalar part.buckets cfp pos in
          elim (try_offsets part.data_file vfp result.offsets had_candidate) [
            | ok (some value, had) ↦ ok (hit value)
            | ok (none, had) ↦ elim result.done [
              | true ↦ ok (miss had)
              | false ↦
                  group_loop fuel part cfp vfp ((pos + group_size) % length part.buckets)
                    (steps + group_size) had
            ]
            | err e ↦ err e
            | panic ↦ panic
            | stuck ↦ stuck
          ]
    ]

-- The V4 verification fingerprint is the plain hash.
unfoldable pub plain_fingerprint : (Bytes → ℕ → ℕ) → Bytes → ℕ → ℕ
plain_fingerprint xxh64 key seed = xxh64 key seed

-- `PartitionReader::get`
unfoldable pub partition_get : (Bytes → ℕ → ℕ) → PartitionReader → Bytes → ℕ → Result GetOutcome
unfolding plain_fingerprint home_position group_loop
partition_get xxh64 part key fp =
    let n = length part.buckets in
    if n == 0
    then ok (miss false)
    else group_loop n part (compact_fingerprint fp) (plain_fingerprint xxh64 key part.verify_seed)
        (home_position fp n) 0 false

-- `SnapshotReader::get`, over the partitions that `partition` makes of the mapped index.
unfoldable pub v4_get : (Bytes → ℕ → ℕ) → Layout → List PartitionReader → Bytes → Result GetOutcome
unfolding partition_get
v4_get xxh64 layout parts key =
    let fp = fingerprint xxh64 key in
    elim (get_elem? parts (partition_of layout fp)) [
      | none ↦ panic
      | some part ↦ partition_get xxh64 part key fp
    ]
