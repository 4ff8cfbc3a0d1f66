-- ===== src/Loader/Examples.antt =====
-- Two records for one partition, and capped loads of two sources.
pub mod Lookups
use mcfreeze.Base.{ℕ, ◌+◌, ◌^◌, ◌<◌, ◌≤◌, ◌%◌, ◌≡◌, refl, List, [], ◌∷◌, Bytes, arith, All, none}
use mcfreeze.Base.{some, min, length}
use mcfreeze.Base.{replicate, ltb, if◌then◌else◌}
use mathlib.Core.List.{flatten}
use mcfreeze.Base.Words.{is_power_of_two}
use mcfreeze.Error.{ok}
use mcfreeze.Layout
use mcfreeze.Layout.{Layout}
use mcfreeze.V5.Builder.{Dir}
use mcfreeze.V5.Builder.Arrival.{FrameRef, appender}
use mcfreeze.Loader.{loaded, refused, source}
use mcfreeze.Base.{inr}
use mcfreeze.Loader.Phases.{LoadRoot, run_scatter, v5_builder, absent, torn, check_scatter_done}
use mcfreeze.Loader.Rescan.{run_scatter-completes, run_scatter-failed}
use mcfreeze.Loader.Scatter.{PartitionBatch, Fanout, scatter_batches, fanout, new_channels}
use mcfreeze.Loader.Scatter.{PartitionStats, partition_writer}
use mcfreeze.Loader.{value_too_large}
use mcfreeze.Loader.Scatter.{scatter_batch}
use mcfreeze.Loader.Refused.{IsFanout, scatter_batch-refuses}
use mcfreeze.Loader.Ranges.{list_from}
use mcfreeze.Loader.Routed.{AllFit, routed_to, value_bytes, scatter_batches-routed_to}
use mcfreeze.Loader.Logged.{v5_appender, IsLogged, scatter_batches-IsLogged}
use mcfreeze.Loader.Limit.{Limited, waiting, ended, check_budget, receive_batch}
use mcfreeze.Loader.Limit.{set_phase, take_from_budget, limit_sources, IsReached, started}
use mcfreeze.Loader.Limit.{stepped, check, receive}
use mcfreeze.Loader.Capped.{rows, row_cap, limit_sources-row_cap}

abbrev key_hash : Bytes → ℕ → ℕ
key_hash bytes seed = length bytes + 6

abbrev two_partitions : Layout
two_partitions = record { n_partitions = 2; partition_mask = 1 }

two_partitions-made : Layout.new 2 ≡ ok two_partitions
unfolding Layout.new is_power_of_two
two_partitions-made = refl

abbrev batches : List (List (Bytes × Bytes))
batches =
    ((1 ∷ [], 7 ∷ (8 ∷ [])) ∷ ((2 ∷ (3 ∷ []), []) ∷ [])) ∷ ([] ∷ (((4 ∷ [], 9 ∷ []) ∷ []) ∷ []))

batches-AllFit : All (AllFit 2) batches
batches-AllFit = ((omega arith, (omega arith, tt)), (tt, ((omega arith, tt), tt)))

scatter_batches-routed_to_example :
    (f : Fanout) × (queues : ℕ → List PartitionBatch) × (scatter_batches key_hash batches
        (fanout two_partitions 2)
        (new_channels two_partitions)
      ≡ (loaded tt, f, list_from (λ i. some (queues i)) 0 2))
    × ((i : ℕ)
        → flatten (queues i)
          ≡ routed_to key_hash 2 two_partitions two_partitions-made 2 i (flatten batches))
    × (f.sub_batches ≡ replicate 2 [])
    × (f.n_keys ≡ length (flatten batches))
    × (f.data_bytes ≡ value_bytes (flatten batches))
scatter_batches-routed_to_example =
    scatter_batches-routed_to key_hash 2 two_partitions two_partitions-made 2 batches batches-AllFit

-- A hash of 64-bit words.
abbrev word_hash : Bytes → ℕ → ℕ
word_hash bytes seed = (length bytes + seed) % 2 ^ 64

word_hash-lt : (bytes : Bytes) (seed : ℕ) → word_hash bytes seed < 2 ^ 64
word_hash-lt bytes seed = omega arith

abbrev pub empty_dir : ℕ → Dir
empty_dir _ = record {
  arrival_bin = none;
  arrival_stats = none;
  buckets = [];
  blocks_bin = none;
  heap_bin = none;
  fences_bin = none;
  sketch_bin = none;
  build_done = none;
}

scatter_batches-IsLogged_example :
    (f : Fanout) × (queues : ℕ → List PartitionBatch) × (scatter_batches word_hash batches
        (fanout two_partitions 2)
        (new_channels two_partitions)
      ≡ (loaded tt, f, list_from (λ i. some (queues i)) 0 2))
    × ((i : ℕ)
        → (stats : PartitionStats) × (dir : Dir) × (partition_writer
              (v5_appender word_hash)
              (queues i)
              (appender 5 (empty_dir i)).0
              (appender 5 (empty_dir i)).1
            ≡ (loaded stats, dir))
          × IsLogged word_hash 5
              (routed_to word_hash 2 two_partitions two_partitions-made 2 i (flatten batches))
              stats
              dir
          × (dir.build_done ≡ (empty_dir i).build_done))
    × (f.n_keys ≡ length (flatten batches))
    × (f.data_bytes ≡ value_bytes (flatten batches))
scatter_batches-IsLogged_example =
    scatter_batches-IsLogged word_hash word_hash-lt 2 two_partitions two_partitions-made 2
      (omega arith) batches 5 empty_dir batches-AllFit

-- Two sources under a limit of three rows: both check the budget before either takes from it.
abbrev at_start : Limited ℕ
at_start = limit_sources 3

abbrev both_wait : Limited ℕ
both_wait = check_budget 1 (check_budget 0 at_start)

abbrev second_first : Limited ℕ
second_first = receive_batch 1 (loaded (some (5 ∷ (6 ∷ [])))) both_wait

abbrev both_took : Limited ℕ
both_took = receive_batch 0 (loaded (some (7 ∷ (8 ∷ [])))) second_first

both_took-IsReached : IsReached 3 both_took
unfolding limit_sources check_budget receive_batch set_phase take_from_budget
both_took-IsReached =
    stepped second_first both_took
      (stepped both_wait second_first
        (stepped (check_budget 0 at_start) both_wait
          (stepped at_start (check_budget 0 at_start) started (check 0 at_start refl))
          (check 1 (check_budget 0 at_start) refl))
        (receive 1 (loaded (some (5 ∷ (6 ∷ [])))) both_wait refl))
      (receive 0 (loaded (some (7 ∷ (8 ∷ [])))) second_first refl)

four_rows : rows both_took.fetched < 2 ^ 63
unfolding rows limit_sources check_budget receive_batch take_from_budget flatten
four_rows = omega arith

limit_sources-row_cap_example :
    (rows both_took.drawn ≡ min (rows both_took.fetched) (row_cap 3))
    × (rows both_took.drawn ≤ 3)
    × ((check_budget 0 both_took).phases 0
        ≡ (if ltb (rows both_took.drawn) (row_cap 3) then waiting else ended))
limit_sources-row_cap_example = limit_sources-row_cap 3 both_took 0 both_took-IsReached four_rows

abbrev new_dirs : List Dir
new_dirs = list_from empty_dir 0 2

run_scatter-completes_example :
    (root : LoadRoot Dir) × (run_scatter
        (v5_builder word_hash 5)
        word_hash
        two_partitions
        2
        (record { batches = batches; failure = none })
        (record { scatter_done = absent; dirs = new_dirs })
      ≡ (
        loaded (record {
          n_keys = length (flatten batches);
          data_bytes = value_bytes (flatten batches);
        }),
        root,
      ))
    × (check_scatter_done (v5_builder word_hash 5) two_partitions root
        ≡ (loaded (some (record { n_keys = length (flatten batches); data_bytes = 0 })), root))
    × ((check_scatter_done
          (v5_builder word_hash 5)
          two_partitions
          (record root { scatter_done = torn })).0
        ≡ loaded (some (record { n_keys = length (flatten batches); data_bytes = 0 })))
    × ((check_scatter_done
          (v5_builder word_hash 5)
          two_partitions
          (record root { scatter_done = torn })).1.dirs
        ≡ root.dirs)
run_scatter-completes_example =
    run_scatter-completes word_hash word_hash-lt 2 two_partitions two_partitions-made 2
      (omega arith) batches 5 empty_dir absent torn batches-AllFit (inr refl)

run_scatter-failed_example :
    (root : LoadRoot Dir) × (run_scatter
        (v5_builder word_hash 5)
        word_hash
        two_partitions
        2
        (record { batches = batches; failure = some "read session expired" })
        (record { scatter_done = absent; dirs = new_dirs })
      ≡ (refused (source "read session expired"), root))
    × ((check_scatter_done (v5_builder word_hash 5) two_partitions root).0
        ≡ loaded (some (record { n_keys = length (flatten batches); data_bytes = 0 })))
run_scatter-failed_example =
    run_scatter-failed word_hash word_hash-lt 2 two_partitions two_partitions-made 2 (omega arith)
      batches 5 empty_dir "read session expired" batches-AllFit

-- A fan-out that has sent two records.
abbrev second_batch : Fanout
second_batch = record {
  layout = two_partitions;
  sub_batches = [] ∷ ([] ∷ []);
  n_keys = 2;
  data_bytes = 3;
  max_value_bytes = 2;
}

scatter_batch-refuses_example :
    (f : Fanout) × (scatter_batch key_hash
        ((1 ∷ [], 7 ∷ []) ∷ ((2 ∷ [], 8 ∷ (8 ∷ (8 ∷ []))) ∷ ((3 ∷ [], []) ∷ [])))
        second_batch
        (new_channels two_partitions)
      ≡ (refused (value_too_large (2 ∷ []) 3 2), f, new_channels two_partitions))
    × IsFanout key_hash 2 two_partitions two_partitions-made 2 f
    × (f.n_keys ≡ 2 + 1)
    × (f.data_bytes ≡ 3 + value_bytes ((1 ∷ [], 7 ∷ []) ∷ []))
scatter_batch-refuses_example =
    scatter_batch-refuses key_hash 2 two_partitions two_partitions-made 2 ((1 ∷ [], 7 ∷ []) ∷ [])
      ((3 ∷ [], []) ∷ []) (2 ∷ []) (8 ∷ (8 ∷ (8 ∷ []))) second_batch (new_channels two_partitions)
      (record { same_layout = refl; same_max = refl; slots = refl }) (omega arith, tt) (omega arith)
