-- ===== src/V5/Builder/Written.antt =====
-- What the files of a built partition hold, as a function of the frames of its bucket files.
use mcfreeze.Base.{ℕ, ◌+◌, ◌^◌, ◌<◌, ◌≡◌, refl, ap, ◌∙◌, List, [], ◌∷◌}
use mcfreeze.Base.{◌++◌, Option, length, Bytes, map, arith, All}
use mcfreeze.Base.{append_assoc, append-nil, if◌then◌else◌, ◌⊎◌, String}
use mathlib.Core.List.{flatten}
use mcfreeze.Error.{ok}
use mcfreeze.V5.Block.{finish, checksum32}
use mcfreeze.V5.Block.Pack.{collect, recs, group_fences}
use mcfreeze.V5.Block.Refine.{CanHold, groups, assemble-steps}
use mcfreeze.V5.Block.Seal.{seal}
use mcfreeze.V5.Compress.{Zstd, Compressor}
use mcfreeze.V5.Builder.{Plan}
use mcfreeze.V5.Builder.Arrival.{FrameRef}
use mcfreeze.V5.Builder.Partition.{Emit, emit_start, Output, output_of, emit_output}
use mcfreeze.V5.Builder.Partition.{write_sketch, option_map, fences_le}
use mcfreeze.V5.Builder.Emitted.{Kept, entries_from, heap_from, after_all, after}
use mcfreeze.V5.Builder.Emitted.{after_all-heap_offset}
use mcfreeze.V5.Builder.Built.{ReadsAll, IsKept, IsPlanned, emit_buckets-after}
use mcfreeze.V5.Builder.Built.{entries_from-CanHold}

abbrev pub kept_fps : List Kept → List ℕ
kept_fps = map (λ k. k.source.fp)

module _ (xxh64 : Bytes → ℕ → ℕ) {Level CCtx DCtx : Type 0} (api : Zstd Level CCtx DCtx)
    (plan : Plan) where
  after_all-n_keys :
      (ks : List Kept) (st : Emit) → (after_all xxh64 api plan ks st).n_keys ≡ st.n_keys + length ks
  unfolding after_all
  after_all-n_keys [] st = omega arith
  after_all-n_keys (k ∷ ks) st = omega (arith, after_all-n_keys ks (after xxh64 api plan k st))

  after_all-sketch_fps :
      (ks : List Kept) (st : Emit)
      → (after_all xxh64 api plan ks st).sketch_fps
        ≡ (if plan.sketch then st.sketch_fps ++ kept_fps ks else st.sketch_fps)
  unfolding after_all
  after_all-sketch_fps [] st = ground (arith, append-nil st.sketch_fps)
  after_all-sketch_fps (k ∷ ks) st = ground (
    arith,
    after_all-sketch_fps ks (after xxh64 api plan k st),
    append_assoc st.sketch_fps (k.source.fp ∷ []) (kept_fps ks),
  )

  write_sketch-fps :
      (try_from : List ℕ → String ⊎ (Bytes × Bytes)) (fps : List ℕ)
      → write_sketch xxh64 try_from plan.sketch (if plan.sketch then fps else [])
        ≡ write_sketch xxh64 try_from plan.sketch fps
  unfolding write_sketch
  write_sketch-fps try_from fps = ground arith

  -- What the output of a build holds for the entries of its frames.
  pub record IsWritten (arrival_bytes : ℕ) (ks : List Kept) (sketch : Option Bytes) (out : Output)
      : Type 0 where
    pub blocks :
        out.blocks
        ≡ flatten (
            map
              (λ g. seal xxh64 plan.block_size (recs g))
              (groups plan.block_size (entries_from xxh64 api plan 0 ks)))
    pub fences :
        out.fence_bytes
        ≡ fences_le (group_fences (groups plan.block_size (entries_from xxh64 api plan 0 ks)))
    pub heap : out.heap ≡ heap_from xxh64 api plan ks
    pub sketch_bytes : out.sketch_bytes ≡ sketch
    pub n_blocks :
        out.done.n_blocks
        ≡ length (group_fences (groups plan.block_size (entries_from xxh64 api plan 0 ks)))
    pub sketch_checksum : out.done.sketch_checksum ≡ option_map (checksum32 xxh64) sketch
    pub n_keys : out.done.n_keys ≡ length ks
    pub data_bytes : out.done.data_bytes ≡ arrival_bytes
    pub entries : All (CanHold plan.block_size) (entries_from xxh64 api plan 0 ks)
    pub admitted : All (IsKept xxh64 api plan) ks
    pub heap_bytes : out.done.heap_bytes ≡ length out.heap

  pub emit_output-IsWritten :
      (sort : List FrameRef → List FrameRef) (try_from : List ℕ → String ⊎ (Bytes × Bytes))
      (level : Level) (c : Option (Compressor CCtx)) (arrival_bytes : ℕ) (bufs : List Bytes)
      (kss : List (List Kept)) (sketch : Option Bytes)
      → IsPlanned plan
      → All (IsKept xxh64 api plan) (flatten kss)
      → length (heap_from xxh64 api plan (flatten kss)) < 2 ^ 64
      → ReadsAll xxh64 sort api plan c bufs kss
      → write_sketch xxh64 try_from plan.sketch (kept_fps (flatten kss)) ≡ ok sketch
      → (out : Output) × (emit_output xxh64 sort try_from api level plan c arrival_bytes bufs
          ≡ ok out)
        × IsWritten arrival_bytes (flatten kss) sketch out
  unfolding emit_output
  emit_output-IsWritten sort try_from level c arrival_bytes bufs kss sketch p h room reads sk =
      let ks = flatten kss in
      let es = entries_from xxh64 api plan 0 ks in
      let can = entries_from-CanHold xxh64 api plan ks 0 p h (omega (arith, room)) in
      let (asm, asm', new, run, done, blocks) =
        assemble-steps xxh64 plan.block_size es p.2 (omega (arith, p.0)) (omega (arith, p.1)) can in
      let emitted =
        emit_buckets-after xxh64 sort api plan c bufs kss (emit_start asm) asm' reads run in
      let st : Emit = record (after_all xxh64 api plan ks (emit_start asm)) { asm = asm' } in
      let sk' =
        ap (write_sketch xxh64 try_from plan.sketch) (after_all-sketch_fps ks (emit_start asm))
        ∙ write_sketch-fps try_from (kept_fps ks)
        ∙ sk in
      let heap = after_all-heap_offset xxh64 api plan ks (emit_start asm) in
      let fences = group_fences (groups plan.block_size es) in
      (
        output_of xxh64 plan arrival_bytes st (finish xxh64 collect asm').1 fences sketch,
        rw new (rw emitted (rw done (rw sk' refl))),
        record {
          blocks = ap flatten blocks;
          fences = refl;
          heap = heap.1;
          sketch_bytes = refl;
          n_blocks = refl;
          sketch_checksum = refl;
          n_keys = omega (arith, after_all-n_keys ks (emit_start asm));
          data_bytes = refl;
          entries = can;
          admitted = h;
          heap_bytes = omega (arith, heap.0, ap length heap.1);
        },
      )
