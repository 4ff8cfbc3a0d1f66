-- ===== src/V5/Examples.antt =====
-- Tests of the V5 modules, and their theorems at concrete inputs: a hash that adds, a codec that
-- drops zeros, and blocks of 64 bytes.
pub mod Codec
pub mod Lookups
pub mod Build
pub mod Logged
pub mod Planned
pub mod Built
use mathlib.Core.List.{flatten}
use mcfreeze.Base.{ℕ, zero, suc, ◌+◌, ◌-◌, ◌*◌, ◌/◌, ◌%◌, ◌^◌, ◌<◌, ◌≤◌, ◌≡◌, ◌↔◌, ◌≢◌, refl}
use mcfreeze.Base.{List, [], ◌∷◌}
use mcfreeze.Base.{Bytes, Bool, true, false, Option, none, some, All, map, replicate, ◌++◌, arith}
use mcfreeze.Base.{Elem, IsSorted}
use mcfreeze.Base.Words.{from_le_bytes, to_le_bytes}
use mcfreeze.Error.{Result, ok, err, invalid_partition_count}
use mcfreeze.Layout.{Layout}
use mcfreeze.Layout
use mcfreeze.V5.Fence.{candidate_blocks}
use mcfreeze.V5.Fence.Candidates.{IsCandidate, candidate_blocks-IsCandidate}
use mcfreeze.V5.Block.{Record, inline_record, stub_record, Stub, find, verify}
use mcfreeze.V5.Block.Encoding.{IsStorable, record_size, payload}
use mcfreeze.V5.Block.Scan.{first_match, size_of_records}
use mcfreeze.V5.Block.Seal.{seal, find-seal}
use mcfreeze.V5.Block.Pack.{Entry, recs, group_fences}
use mcfreeze.V5.Block.Refine.{CanHold, IsGroup, assemble, groups, assemble-groups}
use mcfreeze.V5.Meta.{Meta, layout}
use mcfreeze.V5.Meta.Coherence.{layout_iff, IsCoherent}
use mcfreeze.V5.Sketch.{Sketch, parse}
use mcfreeze.V5.Sketch.Parse.{parse_iff, IsDescribed}

-- A hash to test with.
abbrev pub add_hash : Bytes → ℕ → ℕ
add_hash bytes seed = from_le_bytes bytes + seed + 1

-- The record of the key with the bytes 1 2, for the verification seed 4: a frame for seven zeros.
abbrev pub first_entry : Entry
first_entry = record { fp = 514; rec = inline_record 518 (160 ∷ (7 ∷ (0 ∷ (0 ∷ (0 ∷ []))))) true }

abbrev pub second_entry : Entry
second_entry = record {
  fp = 3 * 2 ^ 32 + 1;
  rec = stub_record 600 (record { heap_offset = 64; stored_len = 5000; value_checksum = 77 }) true;
}

abbrev pub entries : List Entry
entries = first_entry ∷ (second_entry ∷ [])

pub entries-CanHold : All (CanHold 64) entries
unfolding record_size payload to_le_bytes
entries-CanHold = (
  ((omega arith, omega arith, omega arith), omega arith),
  (((omega arith, omega arith, omega arith, omega arith, omega arith), omega arith), tt),
)

new-partition_of_example :
    ((k : ℕ) → k < 32 → 8 ≡ 2 ^ k → (l : Layout) × (Layout.new 8 ≡ ok l))
    × (((k : ℕ) → k < 32 → 8 ≢ 2 ^ k) → Layout.new 8 ≡ err (invalid_partition_count 8))
    × ((l : Layout)
        → Layout.new 8 ≡ ok l
        → (Layout.partition_of l 1234567 ≡ 1234567 % 8) × (Layout.partition_of l 1234567 < 8))
new-partition_of_example = Layout.new-partition_of 8 1234567

candidate_blocks-IsCandidate_example :
    Elem 1 (candidate_blocks (3 ∷ (5 ∷ (5 ∷ (9 ∷ [])))) 5)
    ↔ IsCandidate (3 ∷ (5 ∷ (5 ∷ (9 ∷ [])))) 5 1
candidate_blocks-IsCandidate_example = candidate_blocks-IsCandidate (3 ∷ (5 ∷ (5 ∷ (9 ∷ [])))) 5 1 (
  (omega arith, (omega arith, (omega arith, tt))),
  ((omega arith, (omega arith, tt)), ((omega arith, tt), (tt, tt))),
)

find-seal_example :
    find add_hash (seal add_hash 64 (recs entries)) 518 ≡ ok (first_match 518 (recs entries))
unfolding size_of_records record_size payload to_le_bytes
find-seal_example =
    find-seal add_hash 64 518 (recs entries) ((entries-CanHold.0).0, ((entries-CanHold.1.0).0, tt))
      (omega arith) (omega arith)

assemble-groups_example :
    (assemble add_hash 64 entries
      ≡ ok (
        group_fences (groups 64 entries),
        map (λ g. seal add_hash 64 (recs g)) (groups 64 entries),
      ))
    × (flatten (groups 64 entries) ≡ entries)
    × All (IsGroup 64) (groups 64 entries)
assemble-groups_example =
    assemble-groups add_hash 64 entries (omega arith) (omega arith) (omega arith) entries-CanHold

abbrev meta_of_two : Meta
meta_of_two = record {
  hash_algorithm = "xxhash64";
  verify_seed = 4;
  block_size = 8192;
  inline_threshold = 4096;
  sketch = some "binary_fuse8";
  compression = none;
  partitions =
      record { n_blocks = 3; sketch_checksum = some 99 }
      ∷ (record { n_blocks = 0; sketch_checksum = none } ∷ []);
}

layout_iff_example : ((l : Layout) × (layout meta_of_two ≡ ok l)) ↔ IsCoherent meta_of_two
layout_iff_example = layout_iff meta_of_two

-- Segments of length 4, eight fingerprints in the count and eight more behind it.
abbrev sketch_bytes : Bytes
sketch_bytes =
    replicate 8 1 ++ (to_le_bytes 4 4 ++ (to_le_bytes 4 3 ++ (to_le_bytes 4 8 ++ replicate 16 5)))

parse_iff_example : ((s : Sketch) × (parse sketch_bytes ≡ ok s)) ↔ IsDescribed sketch_bytes
parse_iff_example = parse_iff sketch_bytes
