-- ===== src/V5/Builder/Found.antt =====
-- Lookups in a partition that was built from an arrival log.
use mathlib.Core.List.Permᴰ
use mcfreeze.Base.{ℕ, ◌^◌, ◌<◌, ◌≡◌, ◌≢◌, refl, sym, ap, ◌∙◌, List, []}
use mcfreeze.Base.{◌∷◌, Bool, Option, none, some, length, Bytes, map, arith}
use mcfreeze.Base.{subst, All, Elem, inl, inr, ◌⊎◌, String, IsSorted, get_elem?}
use mcfreeze.Data.{fingerprint, verify_fingerprint}
use mcfreeze.Error.{IoError, Result, ok}
use mcfreeze.Layout.{partition_of}
use mcfreeze.V5.Block.Pack.{Entry, recs}
use mcfreeze.V5.Block.Refine.{groups, assemble, assemble-groups, CanHold}
use mcfreeze.V5.Block.Seal.{seal}
use mcfreeze.V5.Compress.{Zstd, Compressor, decode}
use mcfreeze.V5.Compress.RoundTrip.{stored_bytes, is_compressed}
use mcfreeze.V5.Reader.{Partition, SnapshotReader, open_partition, get, hit, miss}
use mcfreeze.V5.Reader.Assembled.{Serves, get-assemble, get-absent, resolve-stored}
use mcfreeze.V5.Builder.{Dir, Plan, PartitionBuildDone, remove_bucket_files, remove_outputs}
use mcfreeze.V5.Builder.Arrival.{FrameRef}
use mcfreeze.V5.Builder.Frames.{Frame, IsFrame, log}
use mcfreeze.V5.Builder.Order.{All-Perm, frame_fps}
use mcfreeze.V5.Builder.Partition.{publish, build_partition}
use mcfreeze.V5.Builder.Whole.{CanBuild, kept}
use mcfreeze.V5.Builder.Entries.{IsDistinct, IsDistinct-Perm, entries_from_unique}
use mcfreeze.V5.Builder.Entries.{entries_from-vfp, entries_from-Keeps}
use mcfreeze.V5.Builder.Filtered.{IsFilter, sketch_of-Admits}
use mcfreeze.V5.Builder.Served.{directory_of, partition_meta, Elem-Perm, Build, entries, kepts}
use mcfreeze.V5.Builder.Served.{part_of, build_fps, sources, open-Build, reset_sketch, make-Build}
use mcfreeze.V5.Builder.Served.{build_partition-out}

pub Elem-map : {A B : Type 0} (f : A → B) (xs : List A) (x : A) → Elem x xs → Elem (f x) (map f xs)
Elem-map f [] x h = absurd h
Elem-map f (y ∷ xs) x (inl same) = inl (ap f same)
Elem-map f (y ∷ xs) x (inr there) = inr (Elem-map f xs x there)

-- The steps from an arrival log to a reader: the log is that of the frames, the partition was built
-- and opened, and the reader routes the key to it.
pub record Follows (xxh64 : Bytes → ℕ → ℕ) (sort : List FrameRef → List FrameRef)
    (try_from : List ℕ → String ⊎ (Bytes × Bytes)) (filter : Bytes → Bytes → ℕ → Bool)
    {Level CCtx DCtx : Type 0} (api : Zstd Level CCtx DCtx) (level : Level) (plan : Plan)
    (dict : Option Bytes) (bucket_bytes : ℕ) (fs : List Frame) (reader : SnapshotReader DCtx)
    (key : Bytes) : Type 0 where
  pub dir : Dir
  pub dir' : Dir
  pub done : PartitionBuildDone
  pub part : Partition
  pub root : IoError ⊎ Bytes
  pub index : ℕ
  pub log_there : dir.arrival_bin ≡ some (log fs)
  pub not_done : dir.build_done ≡ none
  pub built :
      build_partition xxh64 sort try_from api level plan dict bucket_bytes dir ≡ (ok done, dir')
  pub opened :
      open_partition xxh64 filter api
        (directory_of root (λ _. dir'))
        plan.sketch
        plan.block_size
        index
        (partition_meta done)
      ≡ ok part
  pub block_size : reader.block_size ≡ plan.block_size
  pub routed :
      get_elem? reader.partitions (partition_of reader.layout (fingerprint xxh64 key)) ≡ some part

module _ (xxh64 : Bytes → ℕ → ℕ) (sort : List FrameRef → List FrameRef)
    (try_from : List ℕ → String ⊎ (Bytes × Bytes)) (filter : Bytes → Bytes → ℕ → Bool)
    {Level CCtx DCtx : Type 0} (api : Zstd Level CCtx DCtx) (level : Level) (plan : Plan)
    (dict : Option Bytes) (c : Option (Compressor CCtx)) (made : Bytes → Option Bytes)
    (can : CanBuild xxh64 sort try_from api level plan dict c made)
    (good : IsFilter try_from filter) (bucket_bytes : ℕ) (fs : List Frame)
    (reader : SnapshotReader DCtx) (key : Bytes)
    (f : Follows xxh64 sort try_from filter api level plan dict bucket_bytes fs reader key) where
  part-part_of :
      (b : Build xxh64 sort try_from filter api level plan dict c made can good bucket_bytes fs)
      → f.part
        ≡ part_of xxh64 sort try_from filter api level plan dict c made can good b.sorted b.sketch
            b.out
  part-part_of b =
      let dir0 = remove_bucket_files (remove_outputs f.dir) in
      let made_dir =
        build_partition-out xxh64 sort try_from filter api level plan dict c made can good
          bucket_bytes fs b f.dir f.log_there f.not_done in
      let same : Path (Result PartitionBuildDone × Dir) (ok f.done, f.dir')
          (ok b.out.done, publish b.out dir0) =
        sym f.built ∙ made_dir in
      let opens =
        open-Build xxh64 sort try_from filter api level plan dict c made can good bucket_bytes fs b
          f.root (λ _. f.dir') f.index dir0 (ap (λ (r : Result PartitionBuildDone × Dir). r.1) same)
          (reset_sketch f.dir) in
      let done : f.done ≡ b.out.done = cc in
      let both : Path (Result Partition) (ok f.part) (
          ok (
            part_of xxh64 sort try_from filter api level plan dict c made can good b.sorted b.sketch
              b.out)) =
        sym f.opened
        ∙ ap
            (λ d.
              open_partition xxh64 filter api (directory_of f.root (λ _. f.dir')) plan.sketch
                plan.block_size f.index (partition_meta d))
            done
        ∙ opens in
      cc

  abbrev built_entries :
      Build xxh64 sort try_from filter api level plan dict c made can good bucket_bytes fs
      → List Entry
  built_entries b = entries xxh64 sort try_from filter api level plan dict c made can good b.sorted

  serves :
      (b : Build xxh64 sort try_from filter api level plan dict c made can good bucket_bytes fs)
      → Serves xxh64 reader key (built_entries b) f.part
  serves b =
      let es = built_entries b in
      let p = can.planned in
      let is_part = part-part_of b in
      let n_of = f.block_size in
      let assembled =
        (assemble-groups xxh64 plan.block_size es p.2 (omega (arith, p.0)) (omega (arith, p.1))
          b.written.entries).0 in
      let fps_of =
        build_fps xxh64 sort try_from filter api level plan dict c made can good b.sorted in
      record {
        aligned = omega (arith, p.2, n_of);
        large = omega (arith, p.0, n_of);
        small = omega (arith, p.1, n_of);
        entries = subst (λ n. All (CanHold n) es) (sym n_of) b.written.entries;
        sorted = subst IsSorted (sym fps_of) b.ordered.0;
        blocks = map (λ g. seal xxh64 plan.block_size (recs g)) (groups plan.block_size es);
        written =
            ap (λ n. assemble xxh64 n es) n_of
            ∙ assembled
            ∙ ap
                (λ (q : Partition). ok (
                  q.fences,
                  map (λ g. seal xxh64 plan.block_size (recs g)) (groups plan.block_size es),
                ))
                (sym is_part);
        file = ap (λ (q : Partition). q.blocks) is_part ∙ b.written.blocks;
        routed = f.routed;
      }

  -- A key whose frame was logged is found with its value, from the log to the lookup: the frames of
  -- the partition, within the format's limits, less than 2 ^ 64 bytes and with distinct verification
  -- fingerprints, were built by `build_partition` and opened by `open_partition`, and the reader
  -- routes the key to that partition. One frame has the key's two fingerprints, and the reader's
  -- codec decodes what the builder's compressor makes. The lookup is a hit with that frame's value,
  -- and leaves the codec as it was.
  pub get-logged :
      (frame : Frame)
      → All IsFrame fs
      → All (λ x. x.vfp ≢ 0) fs
      → length (log fs) < 2 ^ 64
      → IsDistinct fs
      → Elem frame fs
      → frame.fp ≡ fingerprint xxh64 key
      → frame.vfp ≡ verify_fingerprint xxh64 key reader.verify_seed
      → (decode api
            (stored_bytes api frame.value (made frame.value))
            (is_compressed api (made frame.value))
            reader.codec
          ≡ (ok frame.value, reader.codec))
      → get xxh64 filter api reader key ≡ (ok (hit frame.value), reader.codec)
  get-logged frame h nz room distinct mem efp evfp decodes =
      let b =
        make-Build xxh64 sort try_from filter api level plan dict c made can good bucket_bytes fs h
          nz room in
      let keep = kept xxh64 sort try_from api level plan dict c made can in
      let back = Permᴰ.symm b.ordered.1 in
      let is_part = part-part_of b in
      let heap = ap (λ (q : Partition). q.heap) is_part ∙ b.written.heap in
      let there = Elem-map keep b.sorted frame (Elem-Perm frame back mem) in
      let (e, (e_in, e_fp, e_vfp, stores)) =
        entries_from-Keeps xxh64 api plan f.part (map keep b.sorted) [] 0 (keep frame)
          b.written.admitted refl heap there in
      let apart =
        subst IsDistinct
          (sym (sources xxh64 sort try_from filter api level plan dict c made can good b.sorted))
          (IsDistinct-Perm back distinct) in
      let found =
        get-assemble xxh64 filter api reader key (built_entries b) f.part e (serves b) e_in
          (e_fp ∙ efp) (e_vfp ∙ evfp)
          (λ e' in' same.
            ap (λ (x : Entry). x.rec)
              (entries_from_unique xxh64 api plan 0 (map keep b.sorted) e e' apart e_in in' same))
          (sketch_of-Admits xxh64 try_from filter good plan.sketch (frame_fps b.sorted) b.sketch
            f.part (fingerprint xxh64 key) b.ordered.0 b.sketched
            (ap (λ (q : Partition). q.sketch) is_part)
            (subst (λ n. Elem n (frame_fps b.sorted)) efp
              (Elem-map (λ (x : Frame). x.fp) b.sorted frame (Elem-Perm frame back mem)))) in
      found
      ∙ resolve-stored xxh64 filter api f.part e.rec
          (stored_bytes api frame.value (made frame.value)) frame.value
          (is_compressed api (made frame.value)) reader.codec stores decodes

  -- A key that was not logged is a miss, and not an error: the partition was built and opened as
  -- above, and no frame has the key's verification fingerprint.
  pub get-unlogged :
      All IsFrame fs
      → All (λ x. x.vfp ≢ 0) fs
      → length (log fs) < 2 ^ 64
      → All (λ x. x.vfp ≢ verify_fingerprint xxh64 key reader.verify_seed) fs
      → (paid : Bool) × (get xxh64 filter api reader key ≡ (ok (miss paid), reader.codec))
  get-unlogged h nz room absent =
      let b =
        make-Build xxh64 sort try_from filter api level plan dict c made can good bucket_bytes fs h
          nz room in
      let v = verify_fingerprint xxh64 key reader.verify_seed in
      let absent' =
        subst (All (λ x. x.vfp ≢ v))
          (sym (sources xxh64 sort try_from filter api level plan dict c made can good b.sorted))
          (All-Perm (λ x. x.vfp ≢ v) (Permᴰ.symm b.ordered.1) absent) in
      get-absent xxh64 filter api reader key (built_entries b) f.part (serves b) (λ e mem.
        entries_from-vfp xxh64 api plan 0
          (kepts xxh64 sort try_from filter api level plan dict c made can good b.sorted) e
          (λ n. n ≢ v) absent' mem)
