-- ===== src/Data.antt =====
-- rust/crates/mcfreeze-format/src/data.rs, v4/index.rs and v5/mod.rs: reads of a file at a place,
-- and the fingerprints of a key. A file that is open for reading is its bytes; `read_exact_at` of
-- the standard library fails where the file ends too soon. `xxh64` is a parameter.
use mcfreeze.Base.{ℕ, ◌+◌, ◌/◌, ◌^◌, ◌≡◌, ◌&&◌, ltb, ◌==◌, Bytes, slice}
use mcfreeze.Base.{if◌then◌else◌, length, arith, ◌≤◌}
use mcfreeze.Error.{Result, ok, err, io, IoError}

unfoldable pub pread : Bytes → ℕ → ℕ → Result Bytes
pread file byte_offset size =
    if ltb 0 size && ltb (length file) (byte_offset + size)
    then err (io IoError.unexpected_eof)
    else ok (slice byte_offset (byte_offset + size) file)

pub pread-ok :
    (file : Bytes) (byte_offset size : ℕ)
    → byte_offset + size ≤ length file
    → pread file byte_offset size ≡ ok (slice byte_offset (byte_offset + size) file)
unfolding pread
pread-ok file byte_offset size h = ground arith

module _ (xxh64 : Bytes → ℕ → ℕ) where
  unfoldable pub fingerprint : Bytes → ℕ
  fingerprint key = let h = xxh64 key 0 in if h == 0 then 1 else h

  -- `v5::verify_fingerprint`: never the padding sentinel 0.
  unfoldable pub verify_fingerprint : Bytes → ℕ → ℕ
  verify_fingerprint key seed = let h = xxh64 key seed in if h == 0 then 1 else h

-- Zero stays free for the empty buckets.
unfoldable pub compact_fingerprint : ℕ → ℕ
compact_fingerprint fp = let t = fp / 2 ^ 32 in if t == 0 then 1 else t
