-- ===== src/Loader/Rescan.antt =====
-- The scatter of the V5 format over whole roots, and what a later process makes of it.
use mcfreeze.Base.{ℕ, zero, suc, ◌+◌, ◌^◌, ◌<◌, ◌≤◌, ◌≡◌, refl, ap, ◌∙◌, List, [], ◌∷◌}
use mcfreeze.Base.{true, false, map, arith, Bytes, String, Option, some, none, ◌==◌, length, All}
use mcfreeze.Base.{inl, inr, ◌⊎◌}
use mathlib.Core.List.{flatten}
use mcfreeze.Data.{fingerprint}
use mcfreeze.Error.{ok}
use mcfreeze.Layout
use mcfreeze.Layout.{Layout, partition_of, partition_of-mod, new_fields}
use mcfreeze.V5.Block.{max_value_len}
use mcfreeze.V5.Builder.{Dir, ArrivalStats}
use mcfreeze.V5.Builder.Arrival.{V5Appender}
use mcfreeze.V5.Builder.Planning.{scatter_probe}
use mcfreeze.V5.Builder.Sizes.{sum}
use mcfreeze.Loader.{v5, LoadResult, loaded, refused, source}
use mcfreeze.Loader.Scatter.{Channel, Fanout, fanout, new_channels, scatter_batches}
use mcfreeze.Loader.Scatter.{PartitionBatch, PartitionStats, partition_writer}
use mcfreeze.Loader.Ranges.{list_from, list_from-eq, map-list_from, sum-list_from-one}
use mcfreeze.Loader.Ranges.{sum-list_from-zero}
use mcfreeze.Loader.Routed.{AllFit, routed_to, value_bytes}
use mcfreeze.Loader.Logged.{scatter_batches-IsLogged}
use mcfreeze.Loader.Phases.{LoadRoot, FormatBuilder, Sentinel, absent, torn, v5_builder}
use mcfreeze.Loader.Phases.{check_scatter_done, probe_all, on_sentinel, write_partitions}
use mcfreeze.Loader.Phases.{join_writer, join_writers, phase_finish, end_scatter, run_scatter}
use mcfreeze.Loader.Phases.{ScatterStats, ScatterDoneInfo}

scatter_probe-marked :
    (dir : Dir) (marker : ArrivalStats)
    → dir.arrival_stats ≡ some marker
    → scatter_probe dir ≡ some (marker.n_keys, marker.data_bytes)
unfolding scatter_probe
scatter_probe-marked dir marker h = rw h refl

-- What a process is told of a scatter of `n_keys` records.
abbrev told_of : ℕ → LoadResult (Option ScatterDoneInfo)
told_of n_keys = loaded (some (record { n_keys = n_keys; data_bytes = 0 }))

-- What a scatter returns.
abbrev returns_of : ℕ → ℕ → LoadResult ScatterStats
returns_of n_keys data_bytes = loaded (record { n_keys = n_keys; data_bytes = data_bytes })

join_writers-list_from :
    (st : ℕ → PartitionStats) (s n : ℕ)
    → join_writers (list_from (λ i. loaded (st i)) s n) ≡ loaded (list_from st s n)
unfolding join_writers list_from
join_writers-list_from st s zero = refl
join_writers-list_from st s (suc n) =
    ap (join_writer (loaded (st s))) (join_writers-list_from st (suc s) n)

module _ {A D : Type 0} (builder : FormatBuilder A D) where
  write_partitions-list_from :
      (q : ℕ → List PartitionBatch) (st : ℕ → PartitionStats) (d d' : ℕ → D) (s n : ℕ)
      → ((i : ℕ)
          → partition_writer builder.sink
              (q i)
              (builder.appender (d i)).0
              (builder.appender (d i)).1
            ≡ (loaded (st i), d' i))
      → write_partitions builder (list_from (λ i. some (q i)) s n) (list_from d s n)
        ≡ (list_from (λ i. loaded (st i)) s n, list_from d' s n)
  unfolding write_partitions list_from
  write_partitions-list_from q st d d' s zero h = refl
  write_partitions-list_from q st d d' s (suc n) h =
      rw (h s, write_partitions-list_from q st d d' (suc s) n h) refl

  probe_all-list_from :
      (d : ℕ → D) (p : ℕ → ℕ × ℕ) (s n : ℕ)
      → ((i : ℕ) → builder.scatter_probe (d i) ≡ ok (some (p i)))
      → probe_all builder (list_from d s n) ≡ loaded (some (list_from p s n))
  unfolding probe_all list_from
  probe_all-list_from d p s zero h = refl
  probe_all-list_from d p s (suc n) h = rw (h s, probe_all-list_from d p (suc s) n h) refl

module _ (xxh64 : Bytes → ℕ → ℕ) (bounded : (bytes : Bytes) (s : ℕ) → xxh64 bytes s < 2 ^ 64)
    (n : ℕ) (layout : Layout) (made : Layout.new n ≡ ok layout) (max : ℕ)
    (within : max ≤ max_value_len) where
  -- Every record is routed to exactly one partition.
  sum-routed_to :
      (kvs : List (Bytes × Bytes))
      → sum (list_from (λ i. length (routed_to xxh64 n layout made max i kvs)) 0 n) ≡ length kvs
  unfolding routed_to
  sum-routed_to [] = sum-list_from-zero 0 n
  sum-routed_to ((key, value) ∷ kvs) =
      let p = partition_of layout (fingerprint xxh64 key) in
      let (_, below) = partition_of-mod n (fingerprint xxh64 key) made in
      let at_own : (p == 0 + p) ≡ true = ground arith in
      let rest = λ (i : ℕ). length (routed_to xxh64 n layout made max i kvs) in
      sum-list_from-one p 0 n rest
        (λ i. length (routed_to xxh64 n layout made max i ((key, value) ∷ kvs))) below
        (rw at_own (omega arith))
        (λ i other. let apart : (p == i) ≡ false = ground (arith, other) in rw apart refl)
      ∙ ap suc (sum-routed_to kvs)

  abbrev builder_of : ℕ → FormatBuilder V5Appender Dir
  builder_of seed = v5_builder xxh64 seed

  -- A scatter of all batches, its writers, and the probes of what they left.
  record IsScattered (batches : List (List (Bytes × Bytes))) (seed : ℕ) (dirs : List Dir)
      (f : Fanout) (channels : List Channel) : Type 0 where
    stats : List PartitionStats
    results : List (LoadResult PartitionStats)
    left : List Dir
    probes : List (ℕ × ℕ)
    wrote : write_partitions (builder_of seed) channels dirs ≡ (results, left)
    joined : join_writers results ≡ loaded stats
    keys : sum (map (λ (p : PartitionStats). p.n_keys) stats) ≡ length (flatten batches)
    probed : probe_all (builder_of seed) left ≡ loaded (some probes)
    probed_keys : sum (map (λ (p : ℕ × ℕ). p.0) probes) ≡ length (flatten batches)
    bytes : f.data_bytes ≡ value_bytes (flatten batches)

  scatter_batches-IsScattered :
      (batches : List (List (Bytes × Bytes))) (seed : ℕ) (dirs : ℕ → Dir)
      → All (AllFit max) batches
      → (f : Fanout) × (channels : List Channel) × (scatter_batches xxh64 batches
            (fanout layout max)
            (new_channels layout)
          ≡ (loaded tt, f, channels))
        × IsScattered batches seed (list_from dirs 0 n) f channels
  unfolding scatter_probe
  scatter_batches-IsScattered batches seed dirs fit =
      let (f, queues, run, writers, _, bytes) =
        scatter_batches-IsLogged xxh64 bounded n layout made max within batches seed dirs fit in
      let st = λ (i : ℕ). (writers i).0 in
      let left = λ (i : ℕ). (writers i).1 in
      let logged = λ (i : ℕ). (writers i).3 in
      let probes : ℕ → ℕ × ℕ = λ i. ((logged i).marker.n_keys, (logged i).marker.data_bytes) in
      let total = sum-routed_to (flatten batches) in
      (
        f,
        list_from (λ i. some (queues i)) 0 n,
        run,
        record {
          stats = list_from st 0 n;
          results = list_from (λ i. loaded (st i)) 0 n;
          left = list_from left 0 n;
          probes = list_from probes 0 n;
          wrote =
              write_partitions-list_from (builder_of seed) queues st dirs left 0 n
                (λ i. (writers i).2);
          joined = join_writers-list_from st 0 n;
          keys =
              ap sum (
                map-list_from (λ (p : PartitionStats). p.n_keys) st 0 n
                ∙ list_from-eq (λ i. (st i).n_keys) _ 0 n (λ i le. (logged i).n_keys))
              ∙ total;
          probed =
              probe_all-list_from (builder_of seed) left probes 0 n
                (λ i. ap ok (scatter_probe-marked (left i) (logged i).marker (logged i).marked));
          probed_keys =
              ap sum (
                map-list_from (λ (p : ℕ × ℕ). p.0) probes 0 n
                ∙ list_from-eq (λ i. (probes i).0) _ 0 n (λ i le. (logged i).marked_keys))
              ∙ total;
          bytes = bytes;
        },
      )

  -- What a later process is told of a scatter of the batches.
  abbrev pub info_of : List (List (Bytes × Bytes)) → Option ScatterDoneInfo
  info_of batches = some (record { n_keys = length (flatten batches); data_bytes = 0 })

  check-absent :
      (batches : List (List (Bytes × Bytes))) (seed : ℕ) (dirs : List Dir) (f : Fanout)
      (channels : List Channel) (sentinel : Sentinel)
      → (s : IsScattered batches seed dirs f channels) → (sentinel ≡ absent) ⊎ (sentinel ≡ torn)
      → ((check_scatter_done
            (builder_of seed)
            layout
            (record { scatter_done = sentinel; dirs = s.left })).0
          ≡ loaded (info_of batches))
        × ((check_scatter_done
              (builder_of seed)
              layout
              (record { scatter_done = sentinel; dirs = s.left })).1.dirs
            ≡ s.left)
  unfolding check_scatter_done on_sentinel
  check-absent batches seed dirs f channels sentinel s (inl gone) =
      rw gone (rw s.probed (ap told_of s.probed_keys, refl))
  check-absent batches seed dirs f channels sentinel s (inr broken) =
      rw broken (rw s.probed (ap told_of s.probed_keys, refl))

  -- A scatter that has completed is not done again. For batches within the limits, it succeeds,
  -- counts the records and the bytes of their values, and publishes `scatter.done`; a later process
  -- that finds the root so, or without `scatter.done`, or with one that is torn, is told that the
  -- scatter is complete, with the number of records, and the directories of the partitions stay as
  -- the writers left them.
  pub run_scatter-completes :
      (batches : List (List (Bytes × Bytes))) (seed : ℕ) (dirs : ℕ → Dir)
      (before sentinel : Sentinel)
      → All (AllFit max) batches
      → (sentinel ≡ absent) ⊎ (sentinel ≡ torn)
      → (root : LoadRoot Dir) × (run_scatter
            (builder_of seed)
            xxh64
            layout
            max
            (record { batches = batches; failure = none })
            (record { scatter_done = before; dirs = list_from dirs 0 n })
          ≡ (
            loaded (record {
              n_keys = length (flatten batches);
              data_bytes = value_bytes (flatten batches);
            }),
            root,
          ))
        × (check_scatter_done (builder_of seed) layout root ≡ (loaded (info_of batches), root))
        × ((check_scatter_done (builder_of seed) layout (record root { scatter_done = sentinel })).0
            ≡ loaded (info_of batches))
        × ((check_scatter_done
              (builder_of seed)
              layout
              (record root { scatter_done = sentinel })).1.dirs
            ≡ root.dirs)
  unfolding run_scatter phase_finish check_scatter_done on_sentinel
  run_scatter-completes batches seed dirs before sentinel fit lost =
      let (f, channels, run, s) = scatter_batches-IsScattered batches seed dirs fit in
      let (told, kept) =
        check-absent batches seed (list_from dirs 0 n) f channels sentinel s lost in
      let before_root : LoadRoot Dir = record {
        scatter_done = before;
        dirs = list_from dirs 0 n;
      } in
      let after : LoadRoot Dir = record { scatter_done = before; dirs = s.left } in
      let n_keys = sum (map (λ (p : PartitionStats). p.n_keys) s.stats) in
      let root = (phase_finish v5 layout f.data_bytes (loaded s.stats) after).1 in
      (
        root,
        ap (λ z. end_scatter (builder_of seed) layout none z before_root) run
            ∙ ap
                (λ w.
                  phase_finish v5 layout f.data_bytes (join_writers w.0)
                    (record before_root { dirs = w.1 }))
                s.wrote
            ∙ ap (λ j. phase_finish v5 layout f.data_bytes j after) s.joined
            ∙ ap (λ k. (returns_of k f.data_bytes, root)) s.keys
            ∙ ap (λ b. (returns_of (length (flatten batches)) b, root)) s.bytes,
        ap (λ k. (told_of k, root)) s.keys,
        told,
        kept,
      )

  -- A scatter that fails is taken for complete: when a source delivers batches and then fails, the
  -- load returns the error of the source, but the writers seal the logs of what had been delivered,
  -- and the next process on the root is told that the scatter is complete, with the number of those
  -- records. The root had no `scatter.done` before, and the writers run to their end, as they do
  -- unless the process exits first.
  pub run_scatter-failed :
      (batches : List (List (Bytes × Bytes))) (seed : ℕ) (dirs : ℕ → Dir) (e : String)
      → All (AllFit max) batches
      → (root : LoadRoot Dir) × (run_scatter
            (builder_of seed)
            xxh64
            layout
            max
            (record { batches = batches; failure = some e })
            (record { scatter_done = absent; dirs = list_from dirs 0 n })
          ≡ (refused (source e), root))
        × ((check_scatter_done (builder_of seed) layout root).0 ≡ loaded (info_of batches))
  unfolding run_scatter
  run_scatter-failed batches seed dirs e fit =
      let (f, channels, run, s) = scatter_batches-IsScattered batches seed dirs fit in
      let (told, _) =
        check-absent batches seed (list_from dirs 0 n) f channels absent s (inl refl) in
      let before : LoadRoot Dir = record { scatter_done = absent; dirs = list_from dirs 0 n } in
      (
        record { scatter_done = absent; dirs = s.left },
        ap (λ z. end_scatter (builder_of seed) layout (some e) z before) run
            ∙ ap (λ w. (refused (source e), record before { dirs = w.1 })) s.wrote,
        told,
      )
