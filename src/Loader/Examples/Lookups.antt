-- ===== src/Loader/Examples/Lookups.antt =====
-- Two records, loaded into a snapshot of one partition and looked up.
use mcfreeze.Base.{ℕ, ◌^◌, ◌<◌, ◌≡◌, refl, List, [], ◌∷◌, Bytes, arith, All, none, some, inl, inr}
use mcfreeze.Base.{length}
use mathlib.Core.List.{flatten}
use mcfreeze.Base.Words.{is_power_of_two, from_le_bytes, to_le_bytes}
use mcfreeze.Data.{fingerprint, verify_fingerprint}
use mcfreeze.Error.{ok, IoError}
use mcfreeze.Layout
use mcfreeze.Layout.{Layout, partition_of}
use mcfreeze.V5.Compress.{decode}
use mcfreeze.V5.Reader.{Partition, SnapshotReader, open_partition, get, hit}
use mcfreeze.V5.Builder.{Dir, PartitionBuildDone}
use mcfreeze.V5.Builder.Arrival.{appender, frame_bytes}
use mcfreeze.V5.Builder.Frames.{log, frame}
use mcfreeze.V5.Builder.Partition.{build_partition}
use mcfreeze.V5.Builder.Entries.{IsDistinct}
use mcfreeze.V5.Builder.Served.{directory_of, partition_meta}
use mcfreeze.V5.Examples.Codec.{zero_codec}
use mcfreeze.V5.Examples.Lookups.{filter_all}
use mcfreeze.V5.Examples.Build.{hash, sort_refs, try_from, plan, can_build, try_from-IsFilter}
use mcfreeze.Loader.{loaded}
use mcfreeze.Loader.Scatter.{PartitionBatch, PartitionStats, Fanout, fanout, new_channels}
use mcfreeze.Loader.Scatter.{scatter_batches, partition_writer}
use mcfreeze.Loader.Ranges.{list_from}
use mcfreeze.Loader.Routed.{AllFit, routed_to}
use mcfreeze.Loader.Logged.{v5_appender}
use mcfreeze.Loader.Loaded.{frames_for, ReadsBack, get-loaded}
use mcfreeze.Loader.Examples.{empty_dir}

abbrev one_partition : Layout
one_partition = record { n_partitions = 1; partition_mask = 0 }

one_partition-made : Layout.new 1 ≡ ok one_partition
unfolding Layout.new is_power_of_two
one_partition-made = refl

abbrev two_records : List (List (Bytes × Bytes))
two_records = ((9 ∷ [], []) ∷ []) ∷ (((1 ∷ (2 ∷ []), 7 ∷ (8 ∷ [])) ∷ []) ∷ [])

two_records-AllFit : All (AllFit 4) two_records
two_records-AllFit = ((omega arith, tt), ((omega arith, tt), tt))

hash-lt : (bytes : Bytes) (seed : ℕ) → hash bytes seed < 2 ^ 64
hash-lt bytes seed = omega arith

abbrev reader_of : Partition → SnapshotReader (Unit {0})
reader_of part = record {
  partitions = part ∷ [];
  layout = one_partition;
  verify_seed = 4;
  block_size = 4096;
  codec = none;
}

reader_of-ReadsBack :
    (part : Partition)
    → ReadsBack hash one_partition zero_codec plan
        (λ value. none)
        4
        (1 ∷ (2 ∷ []))
        (7 ∷ (8 ∷ []))
        part
        (reader_of part)
unfolding fingerprint partition_of decode from_le_bytes
reader_of-ReadsBack part = record {
  same_layout = refl;
  same_seed = refl;
  block_size = refl;
  routed = refl;
  decodes = refl;
}

distinct : IsDistinct (
    frames_for hash hash-lt 1 one_partition one_partition-made 4
      (omega arith)
      4
      two_records
      (1 ∷ (2 ∷ [])))
unfolding routed_to fingerprint verify_fingerprint partition_of from_le_bytes flatten
distinct = (((λ e. absurd (omega arith)), tt), (tt, tt))

small :
    length (
      log (
        frames_for hash hash-lt 1 one_partition one_partition-made 4
          (omega arith)
          4
          two_records
          (1 ∷ (2 ∷ []))))
    < 2 ^ 64
unfolding routed_to fingerprint verify_fingerprint partition_of from_le_bytes flatten log frame
    frame_bytes to_le_bytes
small = omega arith

get-loaded_example :
    (f : Fanout) × (queues : ℕ → List PartitionBatch) × (stats : PartitionStats) × (dir : Dir)
    × (done : PartitionBuildDone) × (dir' : Dir) × (part : Partition) × (scatter_batches hash
          two_records
          (fanout one_partition 4)
          (new_channels one_partition)
        ≡ (loaded tt, f, list_from (λ i. some (queues i)) 0 1))
    × (partition_writer
          (v5_appender hash)
          (queues (partition_of one_partition (fingerprint hash (1 ∷ (2 ∷ [])))))
          (appender 4 (empty_dir (partition_of one_partition (fingerprint hash (1 ∷ (2 ∷ [])))))).0
          (appender 4 (empty_dir (partition_of one_partition (fingerprint hash (1 ∷ (2 ∷ [])))))).1
        ≡ (loaded stats, dir))
    × (build_partition hash sort_refs try_from zero_codec tt plan none 16 dir ≡ (ok done, dir'))
    × (open_partition hash filter_all zero_codec
          (directory_of (inl IoError.not_found) (λ _. dir'))
          plan.sketch
          plan.block_size
          (partition_of one_partition (fingerprint hash (1 ∷ (2 ∷ []))))
          (partition_meta done)
        ≡ ok part)
    × (get hash filter_all zero_codec (reader_of part) (1 ∷ (2 ∷ []))
        ≡ (ok (hit (7 ∷ (8 ∷ []))), (reader_of part).codec))
unfolding flatten
get-loaded_example =
    get-loaded hash hash-lt 1 one_partition one_partition-made 4 (omega arith) sort_refs try_from
      filter_all zero_codec tt plan none none (λ value. none) can_build try_from-IsFilter 16
      two_records 4 empty_dir (inl IoError.not_found) (1 ∷ (2 ∷ [])) (7 ∷ (8 ∷ [])) reader_of
      two_records-AllFit (inr (inl refl)) distinct small refl reader_of-ReadsBack
