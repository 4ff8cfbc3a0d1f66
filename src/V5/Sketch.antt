-- ===== src/V5/Sketch.antt =====
-- rust/crates/mcfreeze-format/src/v5/sketch.rs: the filter of a partition. `from_dma` and
-- `contains` of the xorf crate are one parameter, a function of the descriptor, the fingerprint
-- bytes and the fingerprint asked for; `try_from` of that crate is another, which gives a
-- descriptor and fingerprint bytes.
pub mod Parse
use mcfreeze.Base.{ℕ, zero, suc, ◌+◌, ◌-◌, ◌*◌, ◌%◌, Bool, true, false, not, ◌||◌, ltb, ◌==◌}
use mcfreeze.Base.{if◌then◌else◌, length, slice, take, drop, Bytes}
use mcfreeze.Base.Words.{from_le_bytes, is_power_of_two}
use mcfreeze.Error.{Result, ok, err, corrupt_sketch, sketch_checksum_mismatch, sketch_build}
use mcfreeze.Base.{List, String, ◌⊎◌, inl, inr, ◌++◌}
use mcfreeze.V5.Block.{checksum32}

-- `DESCRIPTOR_LEN`: 8 bytes of seed, and three fields of 4 bytes.
abbrev pub descriptor_len : ℕ
descriptor_len = 20

pub record Sketch : Type 0 where
  pub buf : Bytes

abbrev pub segment_length : Bytes → ℕ
segment_length buf = from_le_bytes (slice 8 12 buf)

abbrev pub segment_length_mask : Bytes → ℕ
segment_length_mask buf = from_le_bytes (slice 12 16 buf)

abbrev pub segment_count_length : Bytes → ℕ
segment_count_length buf = from_le_bytes (slice 16 20 buf)

-- `Sketch::parse`. A remainder by zero cannot be reached: the test before returns.
unfoldable pub parse : Bytes → Result Sketch
parse buf =
    if ltb (length buf) descriptor_len
    then err (corrupt_sketch "sketch shorter than its descriptor")
    else let sl = segment_length buf in
      let scl = segment_count_length buf in
      let n_fingerprints = length buf - descriptor_len in
      if sl == 0 || not (is_power_of_two 32 sl) || not (segment_length_mask buf == sl - 1)
      then err (corrupt_sketch "invalid sketch segment descriptor")
      else if not (scl % sl == 0) || not (n_fingerprints == scl + 2 * sl)
      then err (corrupt_sketch "sketch descriptor/fingerprint length mismatch")
      else ok (record { buf = buf })

unfoldable pub contains : (Bytes → Bytes → ℕ → Bool) → Sketch → ℕ → Bool
contains filter sketch fp =
    filter (take descriptor_len sketch.buf) (drop descriptor_len sketch.buf) fp

unfoldable pub verify_sketch : (Bytes → ℕ → ℕ) → Bytes → ℕ → Result (Unit {0})
verify_sketch xxh64 sketch expected =
    let got = checksum32 xxh64 sketch in
    if got == expected then ok tt else err (sketch_checksum_mismatch got expected)

-- The bytes of a filter, descriptor first, or the error of its construction.
unfoldable pub serialize : String ⊎ (Bytes × Bytes) → Result Bytes
serialize (inl e) = err (sketch_build e)
serialize (inr (descriptor, fingerprints)) = ok (descriptor ++ fingerprints)

-- `sketch::build`, for a `try_from` whose descriptors have the 20 bytes that are copied.
unfoldable pub build : (List ℕ → String ⊎ (Bytes × Bytes)) → List ℕ → Result Bytes
unfolding serialize
build try_from fps = serialize (try_from fps)
