-- ===== src/V4/Spill.antt =====
-- rust/crates/mcfreeze-format/src/v4/spill.rs: the records of a partition between the scatter and
-- the build of its index. A file is its bytes; failures to write are left out.
pub mod Returns
use mcfreeze.Base.{ℕ, zero, suc, ◌+◌, ◌-◌, ◌%◌, ◌^◌, List, [], ◌∷◌, ◌++◌, Option, none, some, not}
use mcfreeze.Base.{ltb, ◌==◌}
use mcfreeze.Base.{if◌then◌else◌, Bool, true, false, ◌&&◌, Bytes, length, take, drop}
use mcfreeze.Base.Words.{to_le_bytes, from_le_bytes}
use mcfreeze.Error.{Result, ok, err, panic, stuck, io, IoError, ◌>>=◌}
use mcfreeze.V4.Index.{Bucket}

-- `b"KVSPIL3\n"`
abbrev pub spill_magic : Bytes
spill_magic = 75 ∷ (86 ∷ (83 ∷ (80 ∷ (73 ∷ (76 ∷ (51 ∷ (10 ∷ [])))))))

abbrev pub spill_header_size : ℕ
spill_header_size = 16

abbrev pub spill_record_size : ℕ
spill_record_size = 8

pub record SpillWriter : Type 0 where
  pub out : Bytes
  pub count : ℕ

-- `SpillWriter::create`
unfoldable pub create_spill : SpillWriter
create_spill = record { out = spill_magic ++ to_le_bytes 8 0; count = 0 }

-- `bytemuck::bytes_of` on a little-endian machine.
unfoldable pub record_bytes : Bucket → Bytes
record_bytes b = to_le_bytes 4 b.fingerprint ++ to_le_bytes 4 b.offset

unfoldable pub push_bucket : Bucket → SpillWriter → SpillWriter
unfolding record_bytes
push_bucket b w = record { out = w.out ++ record_bytes b; count = w.count + 1 }

-- `SpillWriter::finish`: the file and the count that is returned.
unfoldable pub finish_spill : SpillWriter → Bytes × ℕ
finish_spill w =
    (take 8 w.out ++ (to_le_bytes 8 (w.count % 2 ^ 64) ++ drop 16 w.out), w.count % 2 ^ 64)

-- A reader of the file's rest, and an iterator over it.
pub record SpillReader : Type 0 where
  pub file : Bytes
  pub count : ℕ

pub record SpillIter : Type 0 where
  pub reader : Bytes
  pub remaining : ℕ

-- `read_exact` into a buffer of `n` bytes: these, and what is behind them.
unfoldable pub read_exact : ℕ → Bytes → Result (Bytes × Bytes)
read_exact n input =
    if ltb (length input) n
    then err (io IoError.unexpected_eof)
    else ok (take n input, drop n input)

-- The comparison of two arrays.
unfoldable pub same_bytes : Bytes → Bytes → Bool
same_bytes [] [] = true
same_bytes (x ∷ xs) (y ∷ ys) = x == y && same_bytes xs ys
same_bytes _ _ = false

-- `SpillReader::open`, behind the read of the header.
abbrev pub check_header : Bytes × Bytes → Result SpillReader
check_header (hdr, rest) =
    if not (same_bytes (take 8 hdr) spill_magic)
    then err (io IoError.invalid_data)
    else ok (record { file = rest; count = from_le_bytes (drop 8 hdr) })

unfoldable pub open_spill : Bytes → Result SpillReader
unfolding read_exact same_bytes
open_spill file = read_exact spill_header_size file >>= check_header

unfoldable pub spill_records : SpillReader → SpillIter
spill_records r = record { reader = r.file; remaining = r.count }

-- `bytemuck::from_bytes`
unfoldable pub bucket_of : Bytes → Bucket
bucket_of buf = record {
  fingerprint = from_le_bytes (take 4 buf);
  offset = from_le_bytes (drop 4 buf);
}

-- What a round of `next` makes of its read.
abbrev pub on_record : SpillIter → Result (Bytes × Bytes) → Option (Result Bucket) × SpillIter
on_record it (ok (buf, rest)) =
    (some (ok (bucket_of buf)), record { reader = rest; remaining = it.remaining - 1 })
on_record it (err e) = (some (err e), record it { reader = [] })
on_record it panic = (some panic, it)
on_record it stuck = (some stuck, it)

unfoldable pub next_record : SpillIter → Option (Result Bucket) × SpillIter
unfolding read_exact bucket_of
next_record it =
    if it.remaining == 0 then (none, it) else on_record it (read_exact spill_record_size it.reader)

-- What `collect` makes of an answer, over the records behind it.
abbrev pub collect_on :
    (SpillIter → Result (List Bucket)) → Option (Result Bucket) × SpillIter → Result (List Bucket)
collect_on next (none, it) = ok []
collect_on next (some (ok b), it) = next it >>= λ bs. ok (b ∷ bs)
collect_on next (some (err e), it) = err e
collect_on next (some panic, it) = panic
collect_on next (some stuck, it) = stuck

-- `collect::<Result<_>>` of the iterator. A round uses a record up, or ends.
unfoldable pub collect_records : ℕ → SpillIter → Result (List Bucket)
unfolding next_record
collect_records zero it = stuck
collect_records (suc fuel) it = collect_on (collect_records fuel) (next_record it)

-- The records of a spill file: `open`, `records` and `collect`.
unfoldable pub read_spill : Bytes → Result (List Bucket)
unfolding open_spill spill_records collect_records
read_spill file = open_spill file >>= λ r. collect_records (suc r.count) (spill_records r)
