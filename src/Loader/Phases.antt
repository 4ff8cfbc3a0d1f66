-- ===== src/Loader/Phases.antt =====
-- rust/crates/mcfreeze-loader/src/lib.rs and scatter.rs: the scatter of a load, whether it has been
-- done, and what it leaves at the root of a snapshot.
use mcfreeze.Base.{ℕ, List, [], ◌∷◌, Bool, Option, none, some, Bytes, String, map, true, false}
use mcfreeze.Base.{if◌then◌else◌}
use mcfreeze.Error.{Result, ok, err, panic, stuck}
use mcfreeze.Layout.{Layout}
use mcfreeze.V5.Builder.{Dir}
use mcfreeze.V5.Builder.Arrival.{V5Appender, appender}
use mcfreeze.V5.Builder.Planning.{scatter_probe}
use mcfreeze.V5.Builder.Sizes.{sum}
use mcfreeze.Loader.{FormatId, v4, v5, LoadResult, loaded, refused, panicked, source}
use mcfreeze.Loader.{format, format_mismatch}
use mcfreeze.Loader.Scatter.{Channel, Fanout, PartitionStats, PartitionAppender}
use mcfreeze.Loader.Scatter.{partition_writer, scatter_batches, fanout, new_channels}
use mcfreeze.Loader.Logged.{v5_appender}

-- `ScatterDone`, with the number of keys of each partition.
pub record ScatterDone : Type 0 where
  pub format : FormatId
  pub n_keys : ℕ
  pub n_partitions : ℕ
  pub data_bytes : ℕ
  pub partitions : List ℕ

-- The file `scatter.done`: absent, not parseable, or what was written.
pub data Sentinel : Type 0 where
  absent torn : Sentinel
  written : ScatterDone → Sentinel

-- The root of a snapshot, over the directories of its partitions.
pub record LoadRoot (D : Type 0) : Type 0 where
  pub scatter_done : Sentinel
  pub dirs : List D

-- What the scatter uses of a `FormatBuilder`.
pub record FormatBuilder (A D : Type 0) : Type 0 where
  pub format : FormatId
  pub appender : D → A × D
  pub sink : PartitionAppender A D
  pub scatter_probe : D → Result (Option (ℕ × ℕ))

pub record ScatterDoneInfo : Type 0 where
  pub n_keys : ℕ
  pub data_bytes : ℕ

pub record ScatterStats : Type 0 where
  pub n_keys : ℕ
  pub data_bytes : ℕ

same_format : FormatId → FormatId → Bool
same_format v4 v4 = true
same_format v5 v5 = true
same_format _ _ = false

-- A probe, and those of the partitions behind it: the first that is none ends the loop.
abbrev pub on_probe :
    Result (Option (ℕ × ℕ))
    → LoadResult (Option (List (ℕ × ℕ)))
    → LoadResult (Option (List (ℕ × ℕ)))
on_probe (err e) rest = refused (format e)
on_probe panic rest = panicked
on_probe stuck rest = panicked
on_probe (ok none) rest = loaded none
on_probe (ok (some probe)) (loaded (some probes)) = loaded (some (probe ∷ probes))
on_probe (ok (some probe)) rest = rest

module _ {A D : Type 0} (builder : FormatBuilder A D) where
  -- The loop over the partitions' probes.
  unfoldable pub probe_all : List D → LoadResult (Option (List (ℕ × ℕ)))
  probe_all [] = loaded (some [])
  probe_all (d ∷ ds) = on_probe (builder.scatter_probe d) (probe_all ds)

  -- The sentinel that the probes amount to, and its information.
  abbrev pub rederive :
      Layout
      → LoadResult (Option (List (ℕ × ℕ)))
      → LoadRoot D
      → LoadResult (Option ScatterDoneInfo) × LoadRoot D
  rederive layout (refused e) root = (refused e, root)
  rederive layout panicked root = (panicked, root)
  rederive layout (loaded none) root = (loaded none, root)
  rederive layout (loaded (some probes)) root =
      let n_keys = sum (map (λ (p : ℕ × ℕ). p.0) probes) in
      (
        loaded (some (record { n_keys = n_keys; data_bytes = 0 })),
        record root {
          scatter_done = written (record {
            format = builder.format;
            n_keys = n_keys;
            n_partitions = layout.n_partitions;
            data_bytes = sum (map (λ (p : ℕ × ℕ). p.1) probes);
            partitions = map (λ (p : ℕ × ℕ). p.0) probes;
          });
        },
      )

  -- What a sentinel that was read says.
  unfoldable pub on_sentinel :
      Layout → Sentinel → LoadRoot D → LoadResult (Option ScatterDoneInfo) × LoadRoot D
  unfolding same_format probe_all
  on_sentinel layout (written done) root =
      if same_format done.format builder.format
      then (loaded (some (record { n_keys = done.n_keys; data_bytes = 0 })), root)
      else (refused (format_mismatch builder.format done.format), root)
  on_sentinel layout absent root = rederive layout (probe_all root.dirs) root
  on_sentinel layout torn root = rederive layout (probe_all root.dirs) root

  unfoldable pub check_scatter_done :
      Layout → LoadRoot D → LoadResult (Option ScatterDoneInfo) × LoadRoot D
  unfolding on_sentinel
  check_scatter_done layout root = on_sentinel layout root.scatter_done root

  -- The writers of all partitions, each on what its channel held when it was closed.
  unfoldable pub write_partitions :
      List Channel → List D → List (LoadResult PartitionStats) × List D
  unfolding partition_writer
  write_partitions [] ds = ([], ds)
  write_partitions (c ∷ channels) [] = ([], [])
  write_partitions (none ∷ channels) (d ∷ ds) =
      let (rs, ds') = write_partitions channels ds in (panicked ∷ rs, d ∷ ds')
  write_partitions (some queue ∷ channels) (d ∷ ds) =
      let (rs, ds') = write_partitions channels ds in
      let (a, d1) = builder.appender d in
      let (r, d') = partition_writer builder.sink queue a d1 in (r ∷ rs, d' ∷ ds')

-- A writer's statistics before those of the writers behind it, in the order of `handle.await??`.
abbrev pub join_writer :
    LoadResult PartitionStats → LoadResult (List PartitionStats) → LoadResult (List PartitionStats)
join_writer (loaded stats) (loaded rest) = loaded (stats ∷ rest)
join_writer (loaded stats) (refused e) = refused e
join_writer (loaded stats) panicked = panicked
join_writer (refused e) rest = refused e
join_writer panicked rest = panicked

unfoldable pub join_writers : List (LoadResult PartitionStats) → LoadResult (List PartitionStats)
join_writers [] = loaded []
join_writers (r ∷ rs) = join_writer r (join_writers rs)

-- `ScatterPhase::finish`, behind the join of the writers.
unfoldable pub phase_finish :
    {D : Type 0}
    → FormatId
    → Layout
    → ℕ
    → LoadResult (List PartitionStats)
    → LoadRoot D
    → LoadResult ScatterStats × LoadRoot D
phase_finish fmt layout data_bytes (loaded stats) root =
    let n_keys = sum (map (λ (p : PartitionStats). p.n_keys) stats) in
    (
      loaded (record { n_keys = n_keys; data_bytes = data_bytes }),
      record root {
        scatter_done = written (record {
          format = fmt;
          n_keys = n_keys;
          n_partitions = layout.n_partitions;
          data_bytes = data_bytes;
          partitions = map (λ (p : PartitionStats). p.n_keys) stats;
        });
      },
    )
phase_finish fmt layout data_bytes (refused e) root = (refused e, root)
phase_finish fmt layout data_bytes panicked root = (panicked, root)

-- A source: its batches, and the error that ends it, if one does.
pub record KvSource : Type 0 where
  pub batches : List (List (Bytes × Bytes))
  pub failure : Option String

module _ {A D : Type 0} (builder : FormatBuilder A D) where
  -- The end of a scatter. On an error the fan-out and the phase are dropped: the channels close, and
  -- the writers, which are detached, seal what they received.
  abbrev pub end_scatter :
      Layout
      → Option String
      → LoadResult (Unit {0}) × Fanout × List Channel
      → LoadRoot D
      → LoadResult ScatterStats × LoadRoot D
  end_scatter layout none (loaded _, f, channels) root =
      let (rs, dirs) = write_partitions builder channels root.dirs in
      phase_finish builder.format layout f.data_bytes (join_writers rs)
        (record root { dirs = dirs })
  end_scatter layout (some e) (loaded _, f, channels) root =
      (refused (source e), record root { dirs = (write_partitions builder channels root.dirs).1 })
  end_scatter layout failure (refused e, f, channels) root =
      (refused e, record root { dirs = (write_partitions builder channels root.dirs).1 })
  end_scatter layout failure (panicked, f, channels) root =
      (panicked, record root { dirs = (write_partitions builder channels root.dirs).1 })

  unfoldable pub run_scatter :
      (Bytes → ℕ → ℕ) → Layout → ℕ → KvSource → LoadRoot D → LoadResult ScatterStats × LoadRoot D
  unfolding scatter_batches fanout new_channels phase_finish join_writers write_partitions
  run_scatter xxh64 layout max src root =
      end_scatter layout src.failure
        (scatter_batches xxh64 src.batches (fanout layout max) (new_channels layout)) root

-- The scatter's part of `V5Builder`.
abbrev pub v5_builder : (Bytes → ℕ → ℕ) → ℕ → FormatBuilder V5Appender Dir
v5_builder xxh64 seed = record {
  format = v5;
  appender = appender seed;
  sink = v5_appender xxh64;
  scatter_probe = λ dir. ok (scatter_probe dir);
}
