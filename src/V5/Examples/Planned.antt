-- ===== src/V5/Examples/Planned.antt =====
-- A plan for one partition of two records, without compression, asked for twice.
use mcfreeze.Base.{ℕ, ◌++◌, ◌≡◌, refl, List, [], ◌∷◌, Bytes, ◌⊎◌, inl, none, some, true, false}
use mcfreeze.Base.{replicate}
use mcfreeze.Error.{ok, IoError}
use mcfreeze.V5.Meta.{validate_block_size}
use mcfreeze.V5.Compress.{mode_none, mode_zstd}
use mcfreeze.V5.Builder.{Plan, Dir, ArrivalStats}
use mcfreeze.V5.Builder.Built.{IsPlanned}
use mcfreeze.V5.Builder.Planning.{Root, V5Builder, State, ensure_plan, load_or_derive, derive_plan}
use mcfreeze.V5.Builder.Planning.{merge_stats, merge_hist, plan_sizes, write_plan, block_size_of}
use mcfreeze.V5.Builder.Planning.{plan_with, keep_plan, plan_of}
use mcfreeze.V5.Builder.Sizes.{auto_tune_block_size, sum, median_bucket, div_ceil}
use mcfreeze.V5.Builder.Pinned.{ensure_plan-pinned}
use mcfreeze.V5.Builder.Config.{BuilderConfig, new_builder, check_override}
use mcfreeze.V5.Builder.Config.{new_builder-ensure_plan}
use mcfreeze.Layout
use mcfreeze.Base.Words.{is_power_of_two}
use mcfreeze.V5.Examples.Build.{hash}
use mcfreeze.V5.Examples.Codec.{zero_codec}

abbrev pub no_training : List Bytes → ℕ → IoError ⊎ Bytes
no_training samples size = inl IoError.other

abbrev pub builder : V5Builder
builder = record {
  verify_seed = 4;
  block_size_override = none;
  bucket_bytes = 16;
  sketch = true;
  compression = mode_none;
  min_compress_len = 64;
  plan = none;
  done = none;
}

abbrev pub stats : ArrivalStats
stats = record { n_keys = 2; data_bytes = 43; hist = replicate 5 0 ++ (2 ∷ replicate 27 0) }

abbrev pub dir : Dir
dir = record {
  arrival_bin = some [];
  arrival_stats = some stats;
  buckets = [];
  blocks_bin = none;
  heap_bin = none;
  fences_bin = none;
  sketch_bin = none;
  build_done = none;
}

abbrev pub root : Root
root = record {
  plan_file = none;
  dict_bin = some (1 ∷ []);
  index_done = none;
  meta_json = none;
  dirs = dir ∷ [];
}

abbrev planned : Plan
planned = record (plan_of hash zero_codec tt no_training builder) {
  block_size = 4096;
  inline_threshold = 2048;
}

abbrev after_plan : State
after_plan = record {
  builder = record builder { plan = some planned };
  root = record root { plan_file = some planned; dict_bin = none };
}

first_plan :
    ensure_plan hash zero_codec tt no_training (record { builder = builder; root = root })
    ≡ (ok planned, after_plan)
unfolding ensure_plan plan_with keep_plan load_or_derive derive_plan merge_stats merge_hist
    plan_sizes write_plan block_size_of auto_tune_block_size sum median_bucket div_ceil
first_plan = refl

-- Another process, with other wishes.
abbrev pub other_builder : V5Builder
other_builder = record builder {
  compression = mode_zstd;
  sketch = false;
  block_size_override = some 8192;
}

ensure_plan-pinned_example :
    ensure_plan hash zero_codec tt no_training
      (record { builder = other_builder; root = after_plan.root })
    ≡ (
      ok planned,
      record { builder = record other_builder { plan = some planned }; root = after_plan.root },
    )
ensure_plan-pinned_example =
    ensure_plan-pinned hash zero_codec tt no_training builder other_builder root after_plan planned
      refl refl first_plan

abbrev config : BuilderConfig
config = record {
  n_partitions = 1;
  verify_seed = 4;
  block_size = none;
  bucket_bytes = some 16;
  sketch = true;
  compression = mode_none;
  min_compress_len = 64;
}

one_partition : new_builder config ≡ ok (record { n_partitions = 1; partition_mask = 0 }, builder)
unfolding new_builder check_override Layout.new is_power_of_two
one_partition = refl

new_builder-ensure_plan_example :
    (config.n_partitions ≡ config.n_partitions)
    × IsPlanned planned
    × (validate_block_size 4096 ≡ ok tt)
new_builder-ensure_plan_example =
    new_builder-ensure_plan hash zero_codec tt no_training config
      (record { n_partitions = 1; partition_mask = 0 }) builder root after_plan planned
      one_partition refl first_plan
