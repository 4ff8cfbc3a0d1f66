-- ===== src/V5/Builder/Served.antt =====
-- From the arrival log to a lookup: a partition that `build_partition` built is opened by the
-- reader, which finds every key of the log and no other.
use mathlib.Core.List.{flatten, Permᴰ}
use mathlib.Core.List.Permᴰ
use mcfreeze.Base.{ℕ, ◌*◌, ◌^◌, ◌<◌, ◌≡◌, ◌≢◌, refl, sym, ap, ◌∙◌, List, []}
use mcfreeze.Base.{◌∷◌, Bool, true, not, Option, none, some, length, Bytes, map, arith}
use mcfreeze.Base.{subst, All, Elem, inl, inr, ◌⊎◌, String, ltb, ◌==◌}
use mcfreeze.Error.{IoError, ok}
use mcfreeze.V5.Block.Pack.{Entry, recs, group_fences}
use mcfreeze.V5.Block.Refine.{IsGroup, groups, groups-contents}
use mcfreeze.V5.Block.Seal.{seal}
use mcfreeze.V5.Compress.{Zstd, Compressor}
use mcfreeze.V5.Meta.{PartitionMeta}
use mcfreeze.V5.Reader.{Directory, Partition, open_partition}
use mcfreeze.V5.Reader.Locate.{fps}
use mcfreeze.V5.Builder.{Dir, Plan, PartitionBuildDone, remove_bucket_files, remove_outputs}
use mcfreeze.V5.Builder.{sweep_partition_transients}
use mcfreeze.V5.Builder.Arrival.{FrameRef}
use mcfreeze.V5.Builder.Frames.{Frame, IsFrame, log}
use mcfreeze.V5.Builder.Order.{IsOrdered, frame_fps, All-Perm, All-map, length-Perm}
use mcfreeze.V5.Builder.Partition.{Output, publish, settle, build_unless, build_output}
use mcfreeze.V5.Builder.Partition.{build_partition, fences_le}
use mcfreeze.V5.Builder.Emitted.{Kept, entries_from}
use mcfreeze.V5.Builder.Written.{IsWritten}
use mcfreeze.V5.Builder.Whole.{CanBuild, build_output-IsWritten, kept, IsSketch, kept_fps-fps}
use mcfreeze.V5.Builder.Entries.{entries_from-fps}
use mcfreeze.V5.Builder.Opened.{empty_groups, length-map}
use mcfreeze.V5.Builder.Entries.{entries_from-All}
use mcfreeze.V5.Reader.{load, open_sketch}
use mcfreeze.V5.Builder.Opened.{
  named, file_of, named-publish, named-publish_sketch, length-sealed, load-fences_le,
}
use mcfreeze.V5.Builder.Opened.{group_fences-lt}
use mcfreeze.V5.Builder.Filtered.{IsFilter, sketch_of, open_sketch-Written}

-- The files of the partitions, by their directories.
abbrev pub directory_of : IoError ⊎ Bytes → (ℕ → Dir) → Directory
directory_of dict dirs = record { dict_file = dict; partition_file = λ i name. named (dirs i) name }

-- What `finalize` records of a partition.
abbrev pub partition_meta : PartitionBuildDone → PartitionMeta
partition_meta done = record { n_blocks = done.n_blocks; sketch_checksum = done.sketch_checksum }

pub Elem-Perm : {A : Type 0} {xs ys : List A} (a : A) → Permᴰ xs ys → Elem a xs → Elem a ys
Elem-Perm a Permᴰ.nil h = h
Elem-Perm a (Permᴰ.cons e p) (inl same) = inl (same ∙ e)
Elem-Perm a (Permᴰ.cons e p) (inr there) = inr (Elem-Perm a p there)
Elem-Perm a (Permᴰ.swap e e') (inl same) = inr (inl (same ∙ e))
Elem-Perm a (Permᴰ.swap e e') (inr (inl same)) = inl (same ∙ e')
Elem-Perm a (Permᴰ.swap e e') (inr (inr there)) = inr (inr there)
Elem-Perm a (Permᴰ.trans p q) h = Elem-Perm a q (Elem-Perm a p h)

-- A build begins without a sketch.
pub reset_sketch : (dir : Dir) → (remove_bucket_files (remove_outputs dir)).sketch_bin ≡ none
unfolding remove_bucket_files remove_outputs
reset_sketch dir = refl

-- A directory whose files are those of an output opens.
open_written :
    (xxh64 : Bytes → ℕ → ℕ) (try_from : List ℕ → String ⊎ (Bytes × Bytes))
    (filter : Bytes → Bytes → ℕ → Bool) {Level CCtx DCtx : Type 0} (api : Zstd Level CCtx DCtx)
    (dict : IoError ⊎ Bytes) (dirs : ℕ → Dir) (dir : Dir) (i block_size : ℕ) (enabled : Bool)
    (gs : List (List Entry)) (sketch : Option Bytes) (out : Output)
    → dirs i ≡ publish out dir
    → All (IsGroup block_size) gs
    → All (λ e. e.fp < 2 ^ 64) (flatten gs)
    → out.blocks ≡ flatten (map (λ g. seal xxh64 block_size (recs g)) gs)
    → out.fence_bytes ≡ fences_le (group_fences gs)
    → out.done.n_blocks ≡ length (group_fences gs)
    → open_sketch xxh64 filter api (directory_of dict dirs) enabled i (partition_meta out.done)
      ≡ ok (sketch_of sketch)
    → open_partition xxh64 filter api
        (directory_of dict dirs)
        enabled
        block_size
        i
        (partition_meta out.done)
      ≡ ok (record {
        fences = group_fences gs;
        blocks = out.blocks;
        heap = out.heap;
        sketch = sketch_of sketch;
      })
unfolding open_partition
open_written xxh64 try_from filter api dict dirs dir i block_size enabled gs sketch out at_i good
      small blocks fences n_blocks opened =
    let (f, b, h) = named-publish out dir in
    let read = λ (name : String). ap (λ d. named d name) at_i in
    let loaded : load (named (dirs i) "fences.bin") out.done.n_blocks i ≡ ok (group_fences gs) =
      ap (λ z. load z out.done.n_blocks i) (read "fences.bin" ∙ f ∙ ap inr fences)
      ∙ ap (λ n. load (inr (fences_le (group_fences gs))) n i) n_blocks
      ∙ load-fences_le (group_fences gs) i (group_fences-lt gs small) in
    let whole : (length out.blocks == out.done.n_blocks * block_size) ≡ true = ground (
      arith,
      ap length blocks,
      length-sealed xxh64 block_size gs good,
      ap (λ n. n * block_size) n_blocks,
    ) in
    rw loaded (rw (read "blocks.bin" ∙ b) (rw whole (rw opened (rw (read "heap.bin" ∙ h) refl))))

map-keep :
    (keep : Frame → Kept)
    → ((f : Frame) → (keep f).source ≡ f)
    → (fs : List Frame) → map (λ k. k.source) (map keep fs) ≡ fs
map-keep keep same [] = refl
map-keep keep same (f ∷ fs) = rw (same f) (ap (λ zs. f ∷ zs) (map-keep keep same fs))

module _ (xxh64 : Bytes → ℕ → ℕ) (sort : List FrameRef → List FrameRef)
    (try_from : List ℕ → String ⊎ (Bytes × Bytes)) (filter : Bytes → Bytes → ℕ → Bool)
    {Level CCtx DCtx : Type 0} (api : Zstd Level CCtx DCtx) (level : Level) (plan : Plan)
    (dict : Option Bytes) (c : Option (Compressor CCtx)) (made : Bytes → Option Bytes)
    (can : CanBuild xxh64 sort try_from api level plan dict c made)
    (good : IsFilter try_from filter) where
  abbrev pub kepts : List Frame → List Kept
  kepts sorted = map (kept xxh64 sort try_from api level plan dict c made can) sorted

  abbrev pub entries : List Frame → List Entry
  entries sorted = entries_from xxh64 api plan 0 (kepts sorted)

  -- The partition that the reader holds of an output.
  abbrev pub part_of : List Frame → Option Bytes → Output → Partition
  part_of sorted sketch out = record {
    fences = group_fences (groups plan.block_size (entries sorted));
    blocks = out.blocks;
    heap = out.heap;
    sketch = sketch_of sketch;
  }

  -- What a build of the frames comes to.
  pub record Build (bucket_bytes : ℕ) (fs : List Frame) : Type 0 where
    pub sorted : List Frame
    pub sketch : Option Bytes
    pub out : Output
    pub ordered : IsOrdered sorted fs
    pub framed : All IsFrame sorted
    pub sketched :
        IsSketch xxh64 sort try_from api level plan dict c made can (frame_fps sorted) sketch
    pub built : build_output xxh64 sort try_from api level plan dict bucket_bytes (log fs) ≡ ok out
    pub written : IsWritten xxh64 api plan (length (log fs)) (kepts sorted) sketch out

  pub sources : (sorted : List Frame) → map (λ k. k.source) (kepts sorted) ≡ sorted
  sources sorted =
      map-keep (kept xxh64 sort try_from api level plan dict c made can) (λ f. refl) sorted

  pub build_fps : (sorted : List Frame) → fps (entries sorted) ≡ frame_fps sorted
  build_fps sorted =
      entries_from-fps xxh64 api plan 0 (kepts sorted)
      ∙ kept_fps-fps xxh64 sort try_from api level plan dict c made can sorted

  pub open-Build :
      (bucket_bytes : ℕ) (fs : List Frame) (b : Build bucket_bytes fs) (root : IoError ⊎ Bytes)
      (dirs : ℕ → Dir) (i : ℕ) (dir : Dir)
      → dirs i ≡ publish b.out dir
      → dir.sketch_bin ≡ none
      → open_partition xxh64 filter api
          (directory_of root dirs)
          plan.sketch
          plan.block_size
          i
          (partition_meta b.out.done)
        ≡ ok (part_of b.sorted b.sketch b.out)
  open-Build bucket_bytes fs b root dirs i dir at_i no_sketch =
      let es = entries b.sorted in
      let gs = groups plan.block_size es in
      let w = b.written in
      let (flat, groups_good) =
        groups-contents xxh64 plan.block_size es (omega (arith, can.planned.0))
          (omega (arith, can.planned.1)) w.entries in
      let small : All (λ e. e.fp < 2 ^ 64) es =
        entries_from-All xxh64 api plan 0 (kepts b.sorted) (λ n. n < 2 ^ 64)
          (subst (All (λ f. f.fp < 2 ^ 64)) (sym (sources b.sorted))
            (All-map IsFrame (λ f. f.fp < 2 ^ 64) b.sorted (λ f h. h.0) b.framed)) in
      let len : length (flatten gs) ≡ length (frame_fps b.sorted) =
        ap length flat
        ∙ sym (length-map (λ (e : Entry). e.fp) es)
        ∙ ap length (build_fps b.sorted) in
      let none_of : (length (frame_fps b.sorted) == 0) ≡ not (ltb 0 b.out.done.n_blocks) =
        ap (λ n. n == 0) (sym len)
        ∙ empty_groups plan.block_size gs groups_good
        ∙ ap (λ n. not (ltb 0 n)) (sym w.n_blocks) in
      let sketch_file =
        ap (λ d. named d "sketch.bin") at_i
        ∙ named-publish_sketch b.out dir no_sketch
        ∙ ap file_of w.sketch_bytes in
      let opened =
        open_sketch-Written xxh64 try_from filter good api (directory_of root dirs) plan.sketch i
          (partition_meta b.out.done) (frame_fps b.sorted) b.sketch b.ordered.0 b.sketched none_of
          sketch_file w.sketch_checksum in
      open_written xxh64 try_from filter api root dirs dir i plan.block_size plan.sketch gs b.sketch
        b.out at_i groups_good (subst (All (λ e. e.fp < 2 ^ 64)) (sym flat) small) w.blocks w.fences
        w.n_blocks opened

  pub make-Build :
      (bucket_bytes : ℕ) (fs : List Frame)
      → All IsFrame fs
      → All (λ f. f.vfp ≢ 0) fs
      → length (log fs) < 2 ^ 64
      → Build bucket_bytes fs
  make-Build bucket_bytes fs h nz room =
      let (sorted, sketch, out, ordered, sketched, built, written) =
        build_output-IsWritten xxh64 sort try_from api level plan dict c made can bucket_bytes fs h
          nz room in
      record {
        sorted = sorted;
        sketch = sketch;
        out = out;
        ordered = ordered;
        framed = All-Perm IsFrame (Permᴰ.symm ordered.1) h;
        sketched = sketched;
        built = built;
        written = written;
      }

  -- `build_partition` on a directory whose log was written and that has no `build.done`.
  pub build_partition-out :
      (bucket_bytes : ℕ) (fs : List Frame) (b : Build bucket_bytes fs) (dir : Dir)
      → dir.arrival_bin ≡ some (log fs)
      → dir.build_done ≡ none
      → build_partition xxh64 sort try_from api level plan dict bucket_bytes dir
        ≡ (ok b.out.done, publish b.out (remove_bucket_files (remove_outputs dir)))
  unfolding build_partition build_unless settle remove_bucket_files remove_outputs
  build_partition-out bucket_bytes fs b dir log_there not_done =
      rw not_done (rw log_there (rw (b.built, build_partition, build_unless) refl))

  -- A partition whose arrival log is complete is built and then opens: whatever frames were logged,
  -- within the format's limits and less than 2 ^ 64 bytes in all, and whatever a build that was
  -- interrupted left, `build_partition` succeeds, and `open_partition` accepts the files by the
  -- block count and the sketch checksum of the marker. The plan is one of the builder, the
  -- compressor compresses all values, and the filter is one of distinct fingerprints.
  pub build_partition-open_partition :
      (bucket_bytes : ℕ) (fs : List Frame) (dir : Dir) (root : IoError ⊎ Bytes) (i : ℕ)
      → All IsFrame fs
      → All (λ f. f.vfp ≢ 0) fs
      → length (log fs) < 2 ^ 64
      → dir.arrival_bin ≡ some (log fs)
      → dir.build_done ≡ none
      → (done : PartitionBuildDone) × (dir' : Dir) × (part : Partition) × (build_partition xxh64
            sort try_from api level plan dict bucket_bytes dir
          ≡ (ok done, dir'))
        × (open_partition xxh64 filter api
              (directory_of root (λ _. dir'))
              plan.sketch
              plan.block_size
              i
              (partition_meta done)
            ≡ ok part)
        × (done.n_keys ≡ length fs)
        × (done.data_bytes ≡ length (log fs))
        × (dir'.arrival_bin ≡ none)
        × (dir'.build_done ≡ some done)
  unfolding publish sweep_partition_transients remove_bucket_files
  build_partition-open_partition bucket_bytes fs dir root i h nz room log_there not_done =
      let b = make-Build bucket_bytes fs h nz room in
      let dir0 = remove_bucket_files (remove_outputs dir) in
      (
        b.out.done,
        publish b.out dir0,
        part_of b.sorted b.sketch b.out,
        build_partition-out bucket_bytes fs b dir log_there not_done,
        open-Build bucket_bytes fs b root (λ _. publish b.out dir0) i dir0 refl (reset_sketch dir),
        b.written.n_keys
            ∙ (length-map (kept xxh64 sort try_from api level plan dict c made can) b.sorted
                ∙ length-Perm b.ordered.1),
        b.written.data_bytes,
        refl,
        refl,
      )
