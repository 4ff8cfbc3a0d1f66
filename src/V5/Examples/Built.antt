-- ===== src/V5/Examples/Built.antt =====
-- A whole build of a root with one partition whose log has one record, and its repetition.
use mcfreeze.Base.{◌≡◌, refl, [], ◌∷◌, some}
use mcfreeze.Base.Words.{to_le_bytes, from_le_bytes, is_power_of_two}
use mcfreeze.Error.{ok}
use mcfreeze.V5.Block.{align8, encoded_len, checksum32, new_assembler, cut, write_header}
use mcfreeze.V5.Block.{push_header}
use mcfreeze.V5.Block.{push_payload, push_inline, finish}
use mcfreeze.V5.Block.Pack.{collect}
use mcfreeze.V5.Fence.{fence_of}
use mcfreeze.V5.Meta.{validate_block_size}
use mcfreeze.V5.Sketch
use mcfreeze.V5.Sketch.{serialize}
use mcfreeze.V5.Builder.{sweep_partition_transients, remove_bucket_files, remove_outputs}
use mcfreeze.V5.Builder.Arrival.{frame_bytes, parse_frames, parse_frames_loop}
use mcfreeze.V5.Builder.Arrival.{scatter_to_buckets}
use mcfreeze.V5.Builder.Sizes.{auto_tune_block_size, sum, median_bucket, div_ceil, bucket_count}
use mcfreeze.V5.Builder.Sizes.{next_power_of_two}
use mcfreeze.V5.Builder.Partition.{build_partition, build_unless, build_output, emit_output}
use mcfreeze.V5.Builder.Partition.{emit_buckets, emit_frames, emit_frame, emit_value, emit_stored}
use mcfreeze.V5.Builder.Partition.{compress_value, with_asm, dedup, dedup_step, write_sketch}
use mcfreeze.V5.Builder.Partition.{split_arrival, partition_compressor, settle, publish, fences_le}
use mcfreeze.V5.Builder.Planning.{Root, State, ensure_plan, load_or_derive, derive_plan}
use mcfreeze.V5.Builder.Planning.{merge_stats, merge_hist, plan_sizes, write_plan, block_size_of}
use mcfreeze.V5.Builder.Planning.{plan_with, keep_plan, load_dict}
use mcfreeze.V5.Builder.Phases.{build, build_with, build_all, build_dirs, collect_results}
use mcfreeze.V5.Builder.Phases.{finish_index, sweep_transients, finalize}
use mcfreeze.V5.Builder.Resumed.{build-resumes}
use mcfreeze.V5.Examples.Build.{hash, sort_refs, try_from}
use mcfreeze.V5.Examples.Codec.{zero_codec}
use mcfreeze.V5.Examples.Planned.{builder, other_builder, root, dir, no_training}

abbrev scattered_root : Root
scattered_root = record root {
  dirs = record dir { arrival_bin = some (frame_bytes 514 518 (7 ∷ (8 ∷ []))) } ∷ [];
}

abbrev scattered_state : State
scattered_state = record { builder = builder; root = scattered_root }

abbrev built_state : State
built_state = (build hash sort_refs try_from zero_codec tt no_training scattered_state).1

first_build :
    build hash sort_refs try_from zero_codec tt no_training scattered_state ≡ (ok 1, built_state)
unfolding build build_with build_all build_dirs collect_results finish_index ensure_plan plan_with
    keep_plan load_or_derive derive_plan merge_stats merge_hist plan_sizes write_plan block_size_of
    auto_tune_block_size sum median_bucket div_ceil load_dict build_partition build_unless
    build_output emit_output emit_buckets emit_frames emit_frame emit_value emit_stored
    compress_value with_asm dedup dedup_step write_sketch split_arrival partition_compressor settle
    publish fences_le bucket_count next_power_of_two frame_bytes parse_frames parse_frames_loop
    to_le_bytes from_le_bytes is_power_of_two align8 encoded_len checksum32 new_assembler cut
    write_header push_header push_payload push_inline finish collect fence_of remove_outputs
    remove_bucket_files sweep_partition_transients Sketch.build serialize validate_block_size
    scatter_to_buckets
first_build = refl

build-resumes_example :
    (resumed : State) × (build hash sort_refs try_from zero_codec tt no_training
        (record { builder = other_builder; root = built_state.root })
      ≡ (ok 1, resumed))
    × (resumed.root ≡ sweep_transients built_state.root)
    × ((finalize resumed).0 ≡ ok tt)
    × ((finalize resumed).1.root.meta_json ≡ (finalize built_state).1.root.meta_json)
unfolding build auto_tune_block_size remove_bucket_files remove_outputs frame_bytes to_le_bytes
    scatter_to_buckets from_le_bytes new_assembler align8 parse_frames push_inline finish collect
    Sketch.build
build-resumes_example =
    build-resumes hash sort_refs try_from zero_codec tt no_training scattered_state built_state 1
      other_builder first_build refl
