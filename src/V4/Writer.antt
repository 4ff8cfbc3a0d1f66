-- ===== src/V4/Writer.antt =====
-- rust/crates/mcfreeze-format/src/data.rs AlignedWriter, and v4/index.rs build and
-- write_unified_index: the values of a partition, and the index of all partitions. The writer below
-- keeps what it is given. `bucket_count`, a division in floating point, is a parameter; the growth
-- by half is exact for the sizes that a memory can hold.
pub mod RoundTrip
use mcfreeze.Base.{ℕ, zero, suc, ◌+◌, ◌-◌, ◌*◌, ◌/◌, ◌%◌, ◌^◌, List, [], ◌∷◌, ◌++◌, Bool, true}
use mcfreeze.Base.{false}
use mcfreeze.Base.{not, ◌&&◌, ltb, ◌==◌, if◌then◌else◌, Bytes, length, replicate, bit_and}
use mcfreeze.Base.Words.{to_le_bytes}
use mcfreeze.Error.{Error, Result, ok, err, panic, stuck, psl_overflow}
use mcfreeze.V4.Index.{Bucket, default_bucket, insert, aligned_size, value_alignment}
use mcfreeze.V4.Reader.{plain_fingerprint, value_header_size}

pub record AlignedWriter : Type 0 where
  pub inner : Bytes
  pub byte_offset : ℕ
  pub verify_seed : ℕ

-- `AlignedWriter::new`
unfoldable pub new_writer : Bytes → ℕ → Result AlignedWriter
new_writer inner verify_seed =
    if verify_seed == 0
    then panic
    else ok (record { inner = inner; byte_offset = 0; verify_seed = verify_seed })

-- The length is cut to 32 bits, and its sum with the header wraps in a release build.
abbrev pub on_disk_size : Bytes → ℕ
on_disk_size value = (value_header_size + length value % 2 ^ 32) % 2 ^ 32

unfoldable pub write_value :
    (Bytes → ℕ → ℕ) → AlignedWriter → Bytes → Bytes → (ℕ × ℕ) × AlignedWriter
unfolding plain_fingerprint
write_value xxh64 w key value =
    let aligned_offset = w.byte_offset / value_alignment in
    let vfp = plain_fingerprint xxh64 key w.verify_seed in
    let padded = aligned_size (on_disk_size value) in
    let pad = replicate (padded - on_disk_size value) 0 in
    (
      (aligned_offset, on_disk_size value),
      record w {
        inner =
            w.inner
            ++ (to_le_bytes 8 vfp ++ (to_le_bytes 4 (length value % 2 ^ 32) ++ (value ++ pad)));
        byte_offset = w.byte_offset + padded;
      },
    )

-- The inner loop of `build`: none when a probe length overflowed. Other errors are passed over, and
-- an insertion has no other.
unfoldable pub insert_all : List Bucket → List ℕ → List Bucket → Result (Bool × List Bucket)
insert_all table psls [] = ok (true, table)
insert_all table psls (e ∷ es) = elim (insert table psls e) [
  | ok (table', psls') ↦ insert_all table' psls' es
  | err failure ↦ ok (false, table)
  | panic ↦ panic
  | stuck ↦ stuck
]

-- `(n * 1.5).ceil()`
unfoldable pub grow : ℕ → ℕ
grow n = (3 * n + 1) / 2

unfoldable pub build_loop : ℕ → List Bucket → ℕ → ℕ → Result (List Bucket × ℕ)
unfolding insert_all grow
build_loop zero entries n_buckets retries = stuck
build_loop (suc fuel) entries n_buckets retries =
    elim (insert_all (replicate n_buckets default_bucket) (replicate n_buckets 0) entries) [
      | ok (true, table) ↦ ok (table, retries)
      | ok (false, table) ↦ build_loop fuel entries (grow n_buckets) (suc retries)
      | err e ↦ err e
      | panic ↦ panic
      | stuck ↦ stuck
    ]

-- `build`, with as many tries as the caller grants.
unfoldable pub build : (ℕ → ℕ) → ℕ → List Bucket → Result (List Bucket × ℕ)
unfolding build_loop
build bucket_count fuel entries = build_loop fuel entries (bucket_count (length entries)) 0

abbrev pub index_alignment : ℕ
index_alignment = 2 * 1024 * 1024

pub record UnifiedIndexInfo : Type 0 where
  pub offsets : List ℕ
  pub n_buckets : List ℕ

unfoldable pub bucket_bytes : List Bucket → Bytes
bucket_bytes [] = []
bucket_bytes (b ∷ bs) = to_le_bytes 4 b.fingerprint ++ (to_le_bytes 4 b.offset ++ bucket_bytes bs)

unfoldable pub align_index : ℕ → ℕ
align_index n = bit_and (n + index_alignment - 1) (2 ^ 64 - 1 - (index_alignment - 1))

abbrev cons_info : ℕ → ℕ → UnifiedIndexInfo → UnifiedIndexInfo
cons_info offset n info = record { offsets = offset ∷ info.offsets; n_buckets = n ∷ info.n_buckets }

-- The loop of `write_unified_index`: what is written from `file_offset` on. A file that is made
-- longer reads as zeros.
unfoldable pub write_tables : ℕ → List (List Bucket) → Bytes × UnifiedIndexInfo
unfolding bucket_bytes align_index
write_tables file_offset [] = ([], record { offsets = []; n_buckets = [] })
write_tables file_offset (t ∷ []) =
    (bucket_bytes t, record { offsets = file_offset ∷ []; n_buckets = length t ∷ [] })
write_tables file_offset (t ∷ (t' ∷ ts)) =
    let end = file_offset + length (bucket_bytes t) in
    let next = if end % index_alignment == 0 then end else align_index end in
    let (bytes, info) = write_tables next (t' ∷ ts) in
    (bucket_bytes t ++ (replicate (next - end) 0 ++ bytes), cons_info file_offset (length t) info)

-- `write_unified_index`
unfoldable pub write_unified_index : List (List Bucket) → Bytes × UnifiedIndexInfo
unfolding write_tables
write_unified_index tables = write_tables 0 tables
