-- ===== src/V5/Builder/Phases.antt =====
-- rust/crates/mcfreeze-format/src/v5/builder.rs: `plan`, `build` and `finalize`, the phases of a
-- build behind the scatter.
use mcfreeze.Base.{ℕ, List, [], ◌∷◌, Bool, true, false, Option, none, some, map}
use mcfreeze.Base.{Bytes, String, ◌⊎◌}
use mcfreeze.Error.{IoError, Result, ok, err, ◌>>=◌, finalize_before_build}
use mcfreeze.V5.Compress.{Zstd, Mode, mode_none}
use mcfreeze.V5.Meta.{Meta, CompressionMeta, PartitionMeta, is_some, sketch_kind, codec_zstd}
use mcfreeze.V5.Meta.{hash_algorithm_name}
use mcfreeze.V5.Builder.{Dir, Plan, PartitionBuildDone, Io, sweep_partition_transients}
use mcfreeze.V5.Builder.Arrival.{FrameRef}
use mcfreeze.V5.Builder.Sizes.{sum}
use mcfreeze.V5.Builder.Partition.{build_partition, ◌⨾◌}
use mcfreeze.V5.Builder.Planning.{IndexDone, Root, State, ensure_plan, load_dict, lift}

-- `sweep_transients`
unfoldable pub sweep_transients : Root → Root
sweep_transients root = record root {
  plan_file = none;
  dirs = map sweep_partition_transients root.dirs;
}

-- The results of the builds, collected: the first error wins.
unfoldable pub collect_results : List (Result PartitionBuildDone) → Result (List PartitionBuildDone)
collect_results [] = ok []
collect_results (r ∷ rs) = r >>= λ done. collect_results rs >>= λ dones. ok (done ∷ dones)

unfoldable pub index_of : Plan → List PartitionBuildDone → IndexDone
index_of plan partitions = record {
  n_keys = sum (map (λ p. p.n_keys) partitions);
  block_size = plan.block_size;
  inline_threshold = plan.inline_threshold;
  sketch = plan.sketch;
  compression = plan.compression;
  dict_checksum = plan.dict_checksum;
  partitions = partitions;
}

-- The sentinel of the phase, the end of the plan file, and the builder's memory.
unfoldable pub finish_index : Plan → List PartitionBuildDone → Io State ℕ
unfolding index_of
finish_index plan partitions st =
    let done = index_of plan partitions in
    (
      ok done.n_keys,
      record {
        builder = record (st.builder) { done = some done };
        root = record (st.root) { index_done = some done; plan_file = none };
      },
    )

-- The compression section of the metadata.
unfoldable pub compression_meta : Mode → Option ℕ → Option CompressionMeta
compression_meta mode_none dict_checksum = none
compression_meta _ dict_checksum =
    some
      (record { codec = codec_zstd; dict = is_some dict_checksum; dict_checksum = dict_checksum })

unfoldable pub sketch_meta : Bool → Option String
sketch_meta true = some sketch_kind
sketch_meta false = none

unfoldable pub meta_of : ℕ → IndexDone → Meta
unfolding compression_meta sketch_meta
meta_of verify_seed done = record {
  hash_algorithm = hash_algorithm_name;
  verify_seed = verify_seed;
  block_size = done.block_size;
  inline_threshold = done.inline_threshold;
  sketch = sketch_meta done.sketch;
  compression = compression_meta done.compression done.dict_checksum;
  partitions =
      map
        (λ (p : PartitionBuildDone).
          (let pm : PartitionMeta = record {
            n_blocks = p.n_blocks;
            sketch_checksum = p.sketch_checksum;
          } in
            pm))
        done.partitions;
}

unfoldable pub finalize_with : Option IndexDone → Io State (Unit {0})
unfolding meta_of
finalize_with none st = (err finalize_before_build, st)
finalize_with (some done) st = (
  ok tt,
  record st { root = record (st.root) { meta_json = some (meta_of st.builder.verify_seed done) } },
)

unfoldable pub finalize : Io State (Unit {0})
unfolding finalize_with
finalize st = finalize_with st.builder.done st

module _ (xxh64 : Bytes → ℕ → ℕ) (sort : List FrameRef → List FrameRef)
    (try_from : List ℕ → String ⊎ (Bytes × Bytes)) {Level CCtx DCtx : Type 0}
    (api : Zstd Level CCtx DCtx) (level : Level)
    (from_samples : List Bytes → ℕ → IoError ⊎ Bytes) where
  -- `V5Builder::plan`: nothing is left to plan once the index is complete.
  unfoldable pub plan : Io State (Unit {0})
  unfolding ensure_plan
  plan st = elim st.root.index_done [
    | some done ↦ (ok tt, st)
    | none ↦ (ensure_plan xxh64 api level from_samples ⨾ λ _. λ s. (ok tt, s)) st
  ]

  -- The builds of all partitions, each with its own result.
  unfoldable pub build_dirs :
      Plan → Option Bytes → ℕ → List Dir → List (Result PartitionBuildDone) × List Dir
  unfolding build_partition
  build_dirs p dict bucket_bytes [] = ([], [])
  build_dirs p dict bucket_bytes (d ∷ ds) =
      let (r, d') = build_partition xxh64 sort try_from api level p dict bucket_bytes d in
      let (rs, ds') = build_dirs p dict bucket_bytes ds in (r ∷ rs, d' ∷ ds')

  unfoldable pub build_all : Plan → Option Bytes → Io State (List PartitionBuildDone)
  unfolding build_dirs collect_results
  build_all p dict st =
      let (rs, ds) = build_dirs p dict st.builder.bucket_bytes st.root.dirs in
      (collect_results rs, record st { root = record (st.root) { dirs = ds } })

  unfoldable pub build_with : Option IndexDone → Io State ℕ
  unfolding sweep_transients ensure_plan build_all finish_index
  build_with (some done) st = (
    ok done.n_keys,
    record { builder = record (st.builder) { done = some done }; root = sweep_transients st.root },
  )
  build_with none st =
      (ensure_plan xxh64 api level from_samples ⨾ λ p. λ s.
          ((lift (load_dict xxh64 p.dict_checksum s.root.dict_bin) ⨾ build_all p) ⨾ finish_index p)
            s)
        st

  unfoldable pub build : Io State ℕ
  unfolding build_with
  build st = build_with st.root.index_done st
