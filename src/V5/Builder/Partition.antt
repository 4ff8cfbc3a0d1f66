-- ===== src/V5/Builder/Partition.antt =====
-- rust/crates/mcfreeze-format/src/v5/builder.rs: `build_partition`, from the arrival log to the
-- files of a partition. The buffered writers of the blocks and of the heap are the bytes they have
-- taken; the files hold them when the writers are closed. `sort_unstable_by_key` is a parameter,
-- and so are zstd, its level, the hash and the construction of the sketch.
use mcfreeze.Base.{ℕ, ◌+◌, ◌*◌, ◌%◌, ◌^◌, List, [], ◌∷◌, ◌++◌, Bool, not}
use mcfreeze.Base.{Option, none, some, leb, ◌==◌, ◌&&◌, if◌then◌else◌, length, slice, Bytes}
use mcfreeze.Base.{String, ◌⊎◌, ◌≡◌, ap, refl}
use mathlib.Core.List.{flatten}
use mcfreeze.Base.Words.{to_le_bytes}
use mcfreeze.Error.{Result, ok, err, panic, stuck, ◌>>=◌, ◌>>◌}
use mcfreeze.V5.Block.{Asm, Assembler, Stub, checksum32, push_inline, push_stub, new_assembler}
use mcfreeze.V5.Block.{finish}
use mcfreeze.V5.Block.Pack.{collect}
use mcfreeze.V5.Compress.{Zstd, Compressor, compress, new_compressor, mode_none}
use mcfreeze.V5.Compress.RoundTrip.{stored_bytes, is_compressed}
use mcfreeze.V5.Sketch
use mcfreeze.V5.Builder.{Dir, Plan, PartitionBuildDone, Io, read, remove_bucket_files}
use mcfreeze.V5.Builder.{sweep_partition_transients, remove_outputs}
use mcfreeze.V5.Builder.Arrival.{FrameRef, parse_frames, scatter_to_buckets}
use mcfreeze.V5.Builder.Sizes.{bucket_count}

-- The variables of the loop over the buckets; `heap_out` and the sink of `asm` are what was
-- written.
pub record Emit : Type 0 where
  pub heap_out : Bytes
  pub n_keys : ℕ
  pub n_stubs : ℕ
  pub heap_offset : ℕ
  pub value_bytes_raw : ℕ
  pub value_bytes_stored : ℕ
  pub n_compressed : ℕ
  pub n_raw : ℕ
  pub sketch_fps : List ℕ
  pub asm : Assembler (List Bytes)

module _ {A B : Type 0} {S : Type 0} where
  abbrev pub and_then : Result A × S → (A → Io S B) → Result B × S
  and_then (ok a, s) f = f a s
  and_then (err e, s) f = (err e, s)
  and_then (panic, s) f = (panic, s)
  and_then (stuck, s) f = (stuck, s)

  infixl 5 ◌⨾◌
  -- One step of a state after another; an error of the first ends both.
  abbrev pub ◌⨾◌ : Io S A → (A → Io S B) → Io S B
  ◌⨾◌ m f s = and_then (m s) f

  -- What is done after a step that succeeds.
  pub ⨾-ok :
      (m : Io S A) (f : A → Io S B) (s s' : S) (a : A) → m s ≡ (ok a, s') → (m ⨾ f) s ≡ f a s'
  ⨾-ok m f s s' a h = ap (λ r. and_then r f) h

module _ {A B S : Type 0} where
  -- What succeeds has succeeded at its first step.
  pub and_then-eq-ok :
      (run : Result A × S) (f : A → Io S B) (b : B) (s' : S)
      → and_then run f ≡ (ok b, s')
      → (a : A) × (s : S) × (run ≡ (ok a, s)) × (f a s ≡ (ok b, s'))
  and_then-eq-ok (ok a, s) f b s' h = (a, s, refl, h)
  and_then-eq-ok (err e, s) f b s' h = let k : Path (Result B × S) (err e, s) (ok b, s') = h in cc
  and_then-eq-ok (panic, s) f b s' h = let k : Path (Result B × S) (panic, s) (ok b, s') = h in cc
  and_then-eq-ok (stuck, s) f b s' h = let k : Path (Result B × S) (stuck, s) (ok b, s') = h in cc

-- A call of the assembler.
unfoldable pub with_asm : Asm (List Bytes) (Unit {0}) → Io Emit (Unit {0})
with_asm m st = let (r, asm) = m st.asm in (r, record st { asm = asm })

-- One element before others, unless it equals the first of them.
unfoldable pub dedup_step : ℕ → List ℕ → List ℕ
dedup_step x [] = x ∷ []
dedup_step x (y ∷ ys) = if x == y then y ∷ ys else x ∷ (y ∷ ys)

-- `Vec::dedup`: of equal neighbours one stays.
unfoldable pub dedup : List ℕ → List ℕ
unfolding dedup_step
dedup [] = []
dedup (x ∷ xs) = dedup_step x (dedup xs)

module _ (xxh64 : Bytes → ℕ → ℕ) {Level CCtx DCtx : Type 0} (api : Zstd Level CCtx DCtx) where
  unfoldable pub compress_value : Option (Compressor CCtx) → Bytes → Result (Option Bytes)
  compress_value none value = ok none
  compress_value (some c) value = compress api c value

  -- The counters and the heap, and the push of a value as it is stored.
  unfoldable pub emit_stored : Plan → ℕ → ℕ → Bytes → Option Bytes → Io Emit (Unit {0})
  unfolding with_asm
  emit_stored plan fp vfp value frame st =
      let stored = stored_bytes api value frame in
      let compressed = is_compressed api frame in
      let st' = record st {
        value_bytes_raw = st.value_bytes_raw + length value;
        value_bytes_stored = st.value_bytes_stored + length stored;
        n_compressed = if compressed then st.n_compressed + 1 else st.n_compressed;
        n_raw = if compressed then st.n_raw else st.n_raw + 1;
      } in
      let stub : Stub = record {
        heap_offset = st.heap_offset;
        stored_len = length stored % 2 ^ 32;
        value_checksum = checksum32 xxh64 stored;
      } in
      if leb (length stored % 2 ^ 32) plan.inline_threshold
      then (with_asm (push_inline xxh64 collect fp vfp stored compressed) ⨾ λ _.
            λ s. (ok tt, record s { n_keys = s.n_keys + 1 }))
          st'
      else (with_asm (push_stub xxh64 collect fp vfp stub compressed) ⨾ λ _. λ s. (
        ok tt,
        record s {
          heap_offset = s.heap_offset + length stored;
          n_stubs = s.n_stubs + 1;
          n_keys = s.n_keys + 1;
        },
      ))
          (record st' { heap_out = st.heap_out ++ stored })

  -- The body of the loop over the frames of a bucket file.
  unfoldable pub emit_value : Plan → Option (Compressor CCtx) → ℕ → ℕ → Bytes → Io Emit (Unit {0})
  unfolding compress_value emit_stored
  emit_value plan compressor fp vfp value st =
      let fps = if plan.sketch then st.sketch_fps ++ (fp ∷ []) else st.sketch_fps in
      let st' = record st { sketch_fps = fps } in
      elim (compress_value compressor value) [
        | ok frame ↦ emit_stored plan fp vfp value frame st'
        | err e ↦ (err e, st')
        | panic ↦ (panic, st')
        | stuck ↦ (stuck, st')
      ]

  unfoldable pub emit_frame :
      Plan → Option (Compressor CCtx) → Bytes → FrameRef → Io Emit (Unit {0})
  unfolding emit_value
  emit_frame plan compressor buf f =
      emit_value plan compressor f.fp f.vfp (slice f.start (f.start + f.len) buf)

  unfoldable pub emit_frames :
      Plan → Option (Compressor CCtx) → Bytes → List FrameRef → Io Emit (Unit {0})
  unfolding emit_frame
  emit_frames plan compressor buf [] st = (ok tt, st)
  emit_frames plan compressor buf (f ∷ fs) st =
      (emit_frame plan compressor buf f ⨾ λ _. emit_frames plan compressor buf fs) st

  -- The loop over the bucket files.
  unfoldable pub emit_buckets :
      (List FrameRef → List FrameRef)
      → Plan
      → Option (Compressor CCtx)
      → List Bytes
      → Io Emit (Unit {0})
  unfolding emit_frames
  emit_buckets sort plan compressor [] st = (ok tt, st)
  emit_buckets sort plan compressor (buf ∷ bufs) st = elim (parse_frames buf) [
    | ok frames ↦
        (emit_frames plan compressor buf (sort frames) ⨾ λ _.
        emit_buckets sort plan compressor bufs)
          st
    | err e ↦ (err e, st)
    | panic ↦ (panic, st)
    | stuck ↦ (stuck, st)
  ]

-- The compressor of a partition, if its plan has one.
unfoldable pub partition_compressor :
    {Level CCtx DCtx : Type 0}
    → Zstd Level CCtx DCtx
    → Level
    → Plan
    → Option Bytes
    → Result (Option (Compressor CCtx))
partition_compressor api level plan dict = elim plan.compression [
  | mode_none ↦ ok none
  | _ ↦ new_compressor api level dict plan.min_compress_len >>= λ c. ok (some c)
]

-- The bucket files of an arrival log; a single bucket is the log itself.
unfoldable pub split_arrival : Bytes → ℕ → Result (List Bytes)
split_arrival arrival n_buckets =
    if n_buckets == 1 then ok (arrival ∷ []) else scatter_to_buckets arrival n_buckets

-- `sketch.bin` and its checksum, for a partition that has fingerprints.
unfoldable pub write_sketch :
    (Bytes → ℕ → ℕ) → (List ℕ → String ⊎ (Bytes × Bytes)) → Bool → List ℕ → Result (Option Bytes)
write_sketch xxh64 try_from sketch fps =
    if sketch && not (length fps == 0)
    then (Sketch.build try_from (dedup fps) >>= λ bytes. ok (some bytes))
    else ok none

abbrev pub option_map {ℓ κ} : {A : Type ℓ} {B : Type κ} → (A → B) → Option A → Option B
option_map f none = none
option_map f (some a) = some (f a)

abbrev pub size_or_zero : Option Bytes → ℕ
size_or_zero none = 0
size_or_zero (some bytes) = length bytes

-- What a partition's build comes to: its blocks, heap, fences and sketch, and its `build.done`.
pub record Output : Type 0 where
  pub blocks : Bytes
  pub heap : Bytes
  pub fence_bytes : Bytes
  pub sketch_bytes : Option Bytes
  pub done : PartitionBuildDone

unfoldable pub fences_le : List ℕ → Bytes
fences_le [] = []
fences_le (f ∷ fs) = to_le_bytes 4 f ++ fences_le fs

abbrev pub emit_start : Assembler (List Bytes) → Emit
emit_start asm = record {
  heap_out = [];
  n_keys = 0;
  n_stubs = 0;
  heap_offset = 0;
  value_bytes_raw = 0;
  value_bytes_stored = 0;
  n_compressed = 0;
  n_raw = 0;
  sketch_fps = [];
  asm = asm;
}

abbrev pub output_of :
    (Bytes → ℕ → ℕ) → Plan → ℕ → Emit → Assembler (List Bytes) → List ℕ → Option Bytes → Output
output_of xxh64 plan arrival_bytes st asm fences sketch = record {
  blocks = flatten asm.sink_state;
  heap = st.heap_out;
  fence_bytes = fences_le fences;
  sketch_bytes = sketch;
  done = record {
    n_keys = st.n_keys;
    data_bytes = arrival_bytes;
    n_blocks = length fences;
    n_stubs = st.n_stubs;
    blocks_bytes = length fences * plan.block_size;
    heap_bytes = st.heap_offset;
    sketch_bytes = size_or_zero sketch;
    sketch_checksum = option_map (checksum32 xxh64) sketch;
    value_bytes_raw = st.value_bytes_raw;
    value_bytes_stored = st.value_bytes_stored;
    n_compressed = st.n_compressed;
    n_raw = st.n_raw;
  };
}

-- `sketch.bin` after a build: a build without a sketch does not write the file.
abbrev pub sketch_file : Option Bytes → Option Bytes → Option Bytes
sketch_file (some bytes) old = some bytes
sketch_file none old = old

-- The files of a build, its marker, and then the sweep.
unfoldable pub publish : Output → Dir → Dir
publish out dir = sweep_partition_transients (record dir {
  blocks_bin = some out.blocks;
  heap_bin = some out.heap;
  fences_bin = some out.fence_bytes;
  sketch_bin = sketch_file out.sketch_bytes dir.sketch_bin;
  build_done = some out.done;
})

-- The end of a build: its files and its marker, or its error.
unfoldable pub settle : Result Output → Io Dir PartitionBuildDone
unfolding publish
settle (ok out) dir = (ok out.done, publish out dir)
settle (err e) dir = (err e, dir)
settle panic dir = (panic, dir)
settle stuck dir = (stuck, dir)

module _ (xxh64 : Bytes → ℕ → ℕ) (sort : List FrameRef → List FrameRef)
    (try_from : List ℕ → String ⊎ (Bytes × Bytes)) {Level CCtx DCtx : Type 0}
    (api : Zstd Level CCtx DCtx) (level : Level) where
  -- From the bucket files on: the blocks and what goes with them.
  unfoldable pub emit_output : Plan → Option (Compressor CCtx) → ℕ → List Bytes → Result Output
  unfolding emit_buckets write_sketch
  emit_output plan compressor arrival_bytes bufs = do
    asm ← new_assembler plan.block_size []
    let run = emit_buckets xxh64 api sort plan compressor bufs (emit_start asm)
    run.0
    let closed = finish xxh64 collect run.1.asm
    fences ← closed.0
    sketch ← write_sketch xxh64 try_from plan.sketch run.1.sketch_fps
    ok (output_of xxh64 plan arrival_bytes run.1 closed.1 fences sketch)

  unfoldable pub build_output : Plan → Option Bytes → ℕ → Bytes → Result Output
  unfolding emit_output split_arrival partition_compressor bucket_count
  build_output plan dict bucket_bytes arrival = do
    bufs ← split_arrival arrival (bucket_count (length arrival) bucket_bytes)
    compressor ← partition_compressor api level plan dict
    emit_output plan compressor (length arrival) bufs

  -- The match on `build.done`. A build that fails leaves partial outputs and buckets, which are left
  -- out here: the next build begins with their removal.
  unfoldable pub build_unless :
      Plan → Option Bytes → ℕ → Option PartitionBuildDone → Io Dir PartitionBuildDone
  unfolding build_output settle
  build_unless plan dict bucket_bytes (some done) dir = (ok done, sweep_partition_transients dir)
  build_unless plan dict bucket_bytes none dir =
      let dir' = remove_bucket_files (remove_outputs dir) in
      settle (read dir'.arrival_bin >>= build_output plan dict bucket_bytes) dir'

  unfoldable pub build_partition : Plan → Option Bytes → ℕ → Io Dir PartitionBuildDone
  unfolding build_unless
  build_partition plan dict bucket_bytes dir =
      build_unless plan dict bucket_bytes dir.build_done dir
