-- ===== src/V5/Examples/Logged.antt =====
-- From a log of two frames to lookups, and the steps between.
use mcfreeze.Base.{ℕ, ◌+◌, ◌*◌, ◌^◌, ◌≤◌, ◌<◌, ◌≡◌, ◌≢◌, refl, List, [], ◌∷◌, Bytes, Bool}
use mcfreeze.Base.{true, false, none, some, arith, inl, inr, map, All, length, Option, min, ◌⊎◌}
use mcfreeze.Base.Words.{to_le_bytes, from_le_bytes}
use mcfreeze.Data.{fingerprint, verify_fingerprint}
use mcfreeze.Error.{ok, err, io, IoError}
use mcfreeze.Layout
use mcfreeze.V5.Compress.{decode}
use mcfreeze.V5.Fence.{range_from}
use mcfreeze.V5.Meta.{validate_block_size}
use mcfreeze.V5.Reader
use mcfreeze.V5.Reader.{SnapshotReader, get, hit, miss, open_partition}
use mcfreeze.V5.Builder.{Dir, PartitionBuildDone}
use mcfreeze.V5.Builder.Arrival.{FrameRef, V5Appender, appender, parse_frames, scatter_to_buckets}
use mcfreeze.V5.Builder.Arrival.{frame_bytes}
use mcfreeze.V5.Builder.Frames.{Frame, IsFrame, log, frame, view}
use mcfreeze.V5.Builder.Appended.{Item, append_all, frame_of, append_all-parse_frames}
use mcfreeze.V5.Builder.Tiles.{Tiles, parse_frames-Tiles}
use mcfreeze.V5.Builder.Radix.{bucket, scatter_to_buckets-log}
use mcfreeze.V5.Builder.Order.{IsOrdered, frame_fps}
use mcfreeze.V5.Builder.Sizes.{sum, auto_tune_block_size, bucket_count}
use mcfreeze.V5.Builder.Bounds.{IsMedian, Covers, auto_tune_block_size-Covers, bucket_count-Covers}
use mcfreeze.V5.Builder.Partition.{build_partition, build_output, Output}
use mcfreeze.V5.Builder.Whole.{build_output-IsWritten, IsSketch, kept}
use mcfreeze.V5.Builder.Written.{IsWritten}
use mcfreeze.V5.Builder.Served.{build_partition-open_partition, directory_of, partition_meta}
use mcfreeze.V5.Builder.Restart.{build_partition-resumes}
use mcfreeze.V5.Builder.Found.{Follows, get-logged, get-unlogged}
use mcfreeze.V5.Examples.Codec.{zero_codec}
use mcfreeze.V5.Examples.Lookups.{filter_all}
use mcfreeze.V5.Examples.Build.{hash, sort_refs, try_from, plan, can_build, try_from-IsFilter}

abbrev pub first_frame : Frame
first_frame = record { fp = 514; vfp = 518; value = 7 ∷ (8 ∷ (9 ∷ [])) }

abbrev pub second_frame : Frame
second_frame = record { fp = 3 * 2 ^ 32 + 1; vfp = 600; value = [] }

abbrev pub frames : List Frame
frames = second_frame ∷ (first_frame ∷ [])

frames-IsFrame : All IsFrame frames
frames-IsFrame =
    ((omega arith, omega arith, omega arith), ((omega arith, omega arith, omega arith), tt))

frames-nonzero : All (λ f. f.vfp ≢ 0) frames
frames-nonzero = ((λ e. absurd (omega arith)), ((λ e. absurd (omega arith)), tt))

small_log : length (log frames) < 2 ^ 64
unfolding log frame frame_bytes to_le_bytes
small_log = omega arith

abbrev scattered : Dir
scattered = record {
  arrival_bin = some (log frames);
  arrival_stats = none;
  buckets = [];
  blocks_bin = some (1 ∷ []);
  heap_bin = none;
  fences_bin = none;
  sketch_bin = none;
  build_done = none;
}

abbrev root_dict : IoError ⊎ Bytes
root_dict = inl IoError.not_found

build_partition-open_partition_example :
    (done : PartitionBuildDone) × (dir' : Dir) × (part : Reader.Partition) × (build_partition hash
        sort_refs try_from zero_codec tt plan none 16 scattered
      ≡ (ok done, dir'))
    × (open_partition hash filter_all zero_codec
          (directory_of root_dict (λ _. dir'))
          true
          4096
          0
          (partition_meta done)
        ≡ ok part)
    × (done.n_keys ≡ 2)
    × (done.data_bytes ≡ length (log frames))
    × (dir'.arrival_bin ≡ none)
    × (dir'.build_done ≡ some done)
build_partition-open_partition_example =
    build_partition-open_partition hash sort_refs try_from filter_all zero_codec tt plan none none
      (λ value. none) can_build try_from-IsFilter 16 frames scattered root_dict 0 frames-IsFrame
      frames-nonzero small_log refl refl

build_output-IsWritten_example :
    (sorted : List Frame) × (sketch : Option Bytes) × (out : Output) × IsOrdered sorted frames
    × IsSketch hash sort_refs try_from zero_codec tt plan none none
        (λ value. none)
        can_build
        (frame_fps sorted)
        sketch
    × (build_output hash sort_refs try_from zero_codec tt plan none 16 (log frames) ≡ ok out)
    × IsWritten hash zero_codec plan
        (length (log frames))
        (map
          (kept hash sort_refs try_from zero_codec tt plan none none (λ value. none) can_build)
          sorted)
        sketch
        out
build_output-IsWritten_example =
    build_output-IsWritten hash sort_refs try_from zero_codec tt plan none none (λ value. none)
      can_build 16 frames frames-IsFrame frames-nonzero small_log

abbrev built_part : Reader.Partition
built_part = build_partition-open_partition_example.2

abbrev reader : SnapshotReader (Unit {0})
reader = record {
  partitions = built_part ∷ [];
  layout = record { n_partitions = 1; partition_mask = 0 };
  verify_seed = 4;
  block_size = 4096;
  codec = none;
}

follows :
    (key : Bytes)
    → Layout.partition_of reader.layout (fingerprint hash key) ≡ 0
    → Follows hash sort_refs try_from filter_all zero_codec tt plan none 16 frames reader key
follows key routed =
    let (done, dir', part, built, opened, _, _, _, _) = build_partition-open_partition_example in
    record {
      dir = scattered;
      dir' = dir';
      done = done;
      part = part;
      root = root_dict;
      index = 0;
      log_there = refl;
      not_done = refl;
      built = built;
      opened = opened;
      block_size = refl;
      routed = rw routed refl;
    }

get-logged_example :
    get hash filter_all zero_codec reader (1 ∷ (2 ∷ [])) ≡ (ok (hit (7 ∷ (8 ∷ (9 ∷ [])))), none)
unfolding fingerprint verify_fingerprint Layout.partition_of from_le_bytes decode
get-logged_example =
    get-logged hash sort_refs try_from filter_all zero_codec tt plan none none (λ value. none)
      can_build try_from-IsFilter 16 frames reader (1 ∷ (2 ∷ [])) (follows (1 ∷ (2 ∷ [])) refl)
      first_frame frames-IsFrame frames-nonzero small_log
      (((λ e. absurd (omega arith)), tt), (tt, tt)) (inr (inl refl)) refl refl refl

get-unlogged_example :
    (paid : Bool) × (get hash filter_all zero_codec reader (9 ∷ []) ≡ (ok (miss paid), none))
unfolding fingerprint verify_fingerprint Layout.partition_of from_le_bytes
get-unlogged_example =
    get-unlogged hash sort_refs try_from filter_all zero_codec tt plan none none (λ value. none)
      can_build try_from-IsFilter 16 frames reader (9 ∷ []) (follows (9 ∷ []) refl) frames-IsFrame
      frames-nonzero small_log ((λ e. absurd (omega arith)), ((λ e. absurd (omega arith)), tt))

abbrev items : List Item
items =
    record { key = 9 ∷ []; fp = 10; value = [] }
    ∷ (record { key = 1 ∷ (2 ∷ []); fp = 514; value = 7 ∷ (8 ∷ []) } ∷ [])

hash-lt : (bytes : Bytes) (seed : ℕ) → hash bytes seed < 2 ^ 64
hash-lt bytes seed = omega arith

append_all-parse_frames_example :
    (a : V5Appender) × (refs : List FrameRef) × (append_all hash items (appender 4 scattered).0
      ≡ (ok tt, a))
    × (parse_frames a.out ≡ ok refs)
    × (map (view a.out) refs ≡ map (frame_of hash 4) items)
    × (a.n_keys ≡ 2)
    × (a.data_bytes ≡ length a.out)
append_all-parse_frames_example =
    append_all-parse_frames hash 4 scattered items hash-lt
      ((omega arith, omega arith), ((omega arith, omega arith), tt))

parse_frames-Tiles_example :
    ((fs : List FrameRef) × (parse_frames (1 ∷ (2 ∷ [])) ≡ ok fs) × Tiles (1 ∷ (2 ∷ [])) 0 fs)
    ⊎ (parse_frames (1 ∷ (2 ∷ [])) ≡ err (io IoError.unexpected_eof))
parse_frames-Tiles_example = parse_frames-Tiles (1 ∷ (2 ∷ []))

scatter_to_buckets-log_example :
    scatter_to_buckets (log frames) 4 ≡ ok (map (λ i. log (bucket 62 i frames)) (range_from 0 4))
scatter_to_buckets-log_example = scatter_to_buckets-log 2 frames (omega arith) frames-IsFrame

auto_tune_block_size-Covers_example :
    (b : ℕ) × (auto_tune_block_size (0 ∷ (3 ∷ (5 ∷ []))) ≡ ok b)
    × (validate_block_size b ≡ ok tt)
    × (((sum (0 ∷ (3 ∷ (5 ∷ []))) ≡ 0) × (b ≡ 4096))
        ⊎ ((i : ℕ) × IsMedian (0 ∷ (3 ∷ (5 ∷ []))) i × Covers (min (i + 1) 31) b))
auto_tune_block_size-Covers_example = auto_tune_block_size-Covers (0 ∷ (3 ∷ (5 ∷ [])))

bucket_count-Covers_example :
    (k : ℕ) × (k ≤ 6) × (bucket_count 1000 300 ≡ 2 ^ k) × ((1000 ≤ 2 ^ k * 300) ⊎ (k ≡ 6))
bucket_count-Covers_example = bucket_count-Covers 1000 300

-- The same log, where a crashed build left other files.
abbrev crashed : Dir
crashed = record scattered {
  buckets = (5 ∷ []) ∷ [];
  blocks_bin = none;
  heap_bin = some (6 ∷ []);
  sketch_bin = some (4 ∷ []);
}

build_partition-resumes_example :
    (build_partition hash sort_refs try_from zero_codec tt plan none 16 crashed
      ≡ (ok build_partition-open_partition_example.0, build_partition-open_partition_example.1))
    × (build_partition hash sort_refs try_from zero_codec tt
          (record plan { sketch = false })
          none
          8
          build_partition-open_partition_example.1
        ≡ (ok build_partition-open_partition_example.0, build_partition-open_partition_example.1))
build_partition-resumes_example =
    build_partition-resumes hash sort_refs try_from zero_codec tt plan
      (record plan { sketch = false }) none none 16 8 scattered crashed
      build_partition-open_partition_example.1 build_partition-open_partition_example.0 refl refl
      refl refl build_partition-open_partition_example.3
