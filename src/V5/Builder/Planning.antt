-- ===== src/V5/Builder/Planning.antt =====
-- rust/crates/mcfreeze-format/src/v5/builder.rs: the phases of a snapshot, from the plan over the
-- builds of the partitions to the metadata. The root's files and the partitions' directories, in
-- their order, are a state that the phases pass on; the memory of the process is another part of
-- it. Builds of partitions run in threads, but each on a directory of its own: they are modelled in
-- turn. Versions, times, log lines and the statistics that only finalize copies are left out.
use mcfreeze.Base.{ℕ, ◌+◌, ◌*◌, ◌/◌, List, [], ◌∷◌, Bool, true, false, Option, none}
use mcfreeze.Base.{some, ltb, ◌==◌, if◌then◌else◌, length, replicate, Bytes, ◌⊎◌, inl, inr}
use mcfreeze.Error.{IoError, Result, ok, err, panic, stuck, ◌>>=◌, ◌>>◌, other, dict_missing}
use mcfreeze.V5.Block.{checksum32, encoded_len}
use mcfreeze.V5.Compress.{Zstd, Compressor, compress, new_compressor, Mode, mode_none, mode_zstd}
use mcfreeze.V5.Compress.{mode_zstd_dict, verify_dict}
use mcfreeze.V5.Compress.RoundTrip.{stored_bytes}
use mcfreeze.V5.Meta.{Meta}
use mcfreeze.V5.Builder.{Dir, Plan, PartitionBuildDone, Io, read}
use mcfreeze.V5.Builder.Arrival.{sample_arrival_prefix}
use mcfreeze.V5.Builder.Sizes.{auto_tune_block_size, count_in, bit_len, hist_buckets}
use mcfreeze.V5.Builder.Partition.{◌⨾◌}

abbrev pub sample_prefix_bytes : ℕ
sample_prefix_bytes = 64 * 1024 * 1024

abbrev pub default_dict_len : ℕ
default_dict_len = 64 * 1024

-- `index.done`, without what only reports copy.
pub record IndexDone : Type 0 where
  pub n_keys : ℕ
  pub block_size : ℕ
  pub inline_threshold : ℕ
  pub sketch : Bool
  pub compression : Mode
  pub dict_checksum : Option ℕ
  pub partitions : List PartitionBuildDone

-- The files at the root, and the partitions' directories.
pub record Root : Type 0 where
  pub plan_file : Option Plan
  pub dict_bin : Option Bytes
  pub index_done : Option IndexDone
  pub meta_json : Option Meta
  pub dirs : List Dir

-- The builder of a process: its configuration, and what it has planned and built.
pub record V5Builder : Type 0 where
  pub verify_seed : ℕ
  pub block_size_override : Option ℕ
  pub bucket_bytes : ℕ
  pub sketch : Bool
  pub compression : Mode
  pub min_compress_len : ℕ
  pub plan : Option Plan
  pub done : Option IndexDone

pub record State : Type 0 where
  pub builder : V5Builder
  pub root : Root

-- What `scatter_probe` reports: the keys and bytes of a partition whose scatter is complete.
abbrev pub probe_stats : Dir → Option (ℕ × ℕ)
probe_stats dir = elim dir.arrival_stats [
  | none ↦ none
  | some stats ↦ some (stats.n_keys, stats.data_bytes)
]

unfoldable pub scatter_probe : Dir → Option (ℕ × ℕ)
scatter_probe dir = elim (probe_stats dir) [
  | some probe ↦ some probe
  | none ↦ elim dir.build_done [ none ↦ none | some done ↦ some (done.n_keys, done.data_bytes) ]
]

abbrev pub lift : {A S : Type 0} → Result A → Io S A
lift r s = (r, s)

-- `*h += s` over the two histograms zipped.
unfoldable pub merge_hist : List ℕ → List ℕ → List ℕ
merge_hist [] ss = []
merge_hist (h ∷ hs) [] = h ∷ hs
merge_hist (h ∷ hs) (s ∷ ss) = (h + s) ∷ merge_hist hs ss

unfoldable pub merge_stats : List Dir → List ℕ → Result (List ℕ)
unfolding merge_hist
merge_stats [] hist = ok hist
merge_stats (d ∷ ds) hist =
    read d.arrival_stats >>= λ stats. merge_stats ds (merge_hist hist stats.hist)

-- The samples of the first partition that has any.
unfoldable pub sample_pool : List Dir → Result (List Bytes)
sample_pool [] = ok []
sample_pool (d ∷ ds) = sample_arrival_prefix d.arrival_bin sample_prefix_bytes >>= λ samples.
    if length samples == 0 then sample_pool ds else ok samples

-- A dictionary that was trained is written before the plan can name it; one that was not makes the
-- plan fall back.
unfoldable pub take_dict :
    (Bytes → ℕ → ℕ) → IoError ⊎ Bytes → Plan → Root → (Plan × Option Bytes) × Root
take_dict xxh64 (inl e) plan root =
    ((record plan { compression = mode_zstd; dict_fallback = true }, none), root)
take_dict xxh64 (inr bytes) plan root = (
  (
    record plan { dict_checksum = some (checksum32 xxh64 bytes); dict_len = length bytes },
    some bytes,
  ),
  record root { dict_bin = some bytes },
)

-- The dictionary that a plan names, checked.
unfoldable pub load_dict : (Bytes → ℕ → ℕ) → Option ℕ → Option Bytes → Result (Option Bytes)
load_dict xxh64 none dict_bin = ok none
load_dict xxh64 (some expected) none = err (dict_missing expected IoError.not_found)
load_dict xxh64 (some expected) (some dict) = verify_dict xxh64 dict expected >> ok (some dict)

-- The builder keeps a plan that it got.
unfoldable pub keep_plan : V5Builder → Result Plan × Root → Result Plan × State
keep_plan b (ok plan, root) =
    (ok plan, record { builder = record b { plan = some plan }; root = root })
keep_plan b (err e, root) = (err e, record { builder = b; root = root })
keep_plan b (panic, root) = (panic, record { builder = b; root = root })
keep_plan b (stuck, root) = (stuck, record { builder = b; root = root })

module _ (xxh64 : Bytes → ℕ → ℕ) {Level CCtx DCtx : Type 0} (api : Zstd Level CCtx DCtx)
    (level : Level) (from_samples : List Bytes → ℕ → IoError ⊎ Bytes) where
  unfoldable pub train : Mode → List Bytes → Plan → Root → (Plan × Option Bytes) × Root
  unfolding take_dict
  train mode_none samples plan root = ((plan, none), root)
  train mode_zstd samples plan root = ((plan, none), root)
  train mode_zstd_dict samples plan root =
      take_dict xxh64
        (if length samples == 0 then inl other else from_samples samples default_dict_len) plan root

  -- The loop over the samples: the histogram of the stored sizes, and the totals of the plan.
  unfoldable pub measure : Compressor CCtx → List Bytes → Plan → List ℕ → Result (Plan × List ℕ)
  measure c [] plan hist = ok (plan, hist)
  measure c (v ∷ vs) plan hist = do
    frame ← compress api c v
    let stored = length (stored_bytes api v frame)
    hist' ← count_in (bit_len 64 (encoded_len stored)) hist
    measure c vs
        (record plan {
          sample_bytes_raw = plan.sample_bytes_raw + length v;
          sample_bytes_stored = plan.sample_bytes_stored + stored;
        })
        hist'

  unfoldable pub plan_compression : Mode → Plan → Io Root (Plan × List ℕ)
  unfolding sample_pool train measure
  plan_compression mode plan root =
      (lift (sample_pool root.dirs) ⨾ λ samples. λ r.
          let ((plan', dict), r') =
            train mode samples (record plan { n_samples = length samples }) r in
          (
            (new_compressor api level dict plan'.min_compress_len >>= λ c.
                measure c samples plan' (replicate hist_buckets 0)),
            r',
          ))
        root

  -- The sampled sizes replace the raw ones, unless there is no sample.
  unfoldable pub plan_sizes : Mode → List ℕ → Plan → Io Root (Plan × List ℕ)
  unfolding plan_compression
  plan_sizes mode_none hist plan root = (ok (plan, hist), root)
  plan_sizes mode hist plan root =
      (plan_compression mode plan ⨾ λ p.
      λ r. (ok (p.0, if ltb 0 p.0.n_samples then p.1 else hist), r))
        root

  -- A plan that is derived, before its sizes are known.
  abbrev pub plan_of : V5Builder → Plan
  plan_of b = record {
    block_size = 0;
    inline_threshold = 0;
    sketch = b.sketch;
    compression = b.compression;
    min_compress_len = b.min_compress_len;
    dict_checksum = none;
    n_samples = 0;
    dict_len = 0;
    dict_fallback = false;
    sample_bytes_raw = 0;
    sample_bytes_stored = 0;
  }

  unfoldable pub block_size_of : Option ℕ → List ℕ → Result ℕ
  block_size_of none hist = auto_tune_block_size hist
  block_size_of (some block_size) hist = ok block_size

  -- The end of a plan: its block size, and `v5.plan`.
  unfoldable pub write_plan : Option ℕ → Plan × List ℕ → Io Root Plan
  unfolding block_size_of
  write_plan override p = lift (block_size_of override p.1) ⨾ λ block_size. λ r.
      let plan = record p.0 { block_size = block_size; inline_threshold = block_size / 2 } in
      (ok plan, record r { plan_file = some plan })

  -- The branch of `ensure_plan` without a plan file.
  unfoldable pub derive_plan : V5Builder → Io Root Plan
  unfolding plan_sizes write_plan merge_stats
  derive_plan b root =
      (lift (merge_stats root.dirs (replicate hist_buckets 0)) ⨾ λ hist. λ r.
          (plan_sizes b.compression hist (plan_of b) ⨾ write_plan b.block_size_override)
            (record r { dict_bin = none }))
        root

  unfoldable pub load_or_derive : Option Plan → V5Builder → Io Root Plan
  unfolding load_dict derive_plan
  load_or_derive none b root = derive_plan b root
  load_or_derive (some plan) b root =
      (load_dict xxh64 plan.dict_checksum root.dict_bin >>= λ _. ok plan, root)

  unfoldable pub plan_with : Option Plan → Io State Plan
  unfolding load_or_derive keep_plan
  plan_with (some plan) st = (ok plan, st)
  plan_with none st = keep_plan st.builder (load_or_derive st.root.plan_file st.builder st.root)

  unfoldable pub ensure_plan : Io State Plan
  unfolding plan_with
  ensure_plan st = plan_with st.builder.plan st
