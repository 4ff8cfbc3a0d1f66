-- ===== src/Loader/Loaded.antt =====
-- From a record of a source to a lookup of its key: scatter, build of the partition, open and get.
use mcfreeze.Base.{ℕ, ◌^◌, ◌<◌, ◌≤◌, ◌≡◌, ◌≢◌, refl, sym, ap, ◌∙◌, List, [], ◌∷◌, Bytes, String}
use mcfreeze.Base.{Bool}
use mcfreeze.Base.{true, Option, some, none, ◌==◌, map, length, All, Elem, inl, inr, ◌⊎◌}
use mcfreeze.Base.{Bool-cases}
use mcfreeze.Base.{arith, get_elem?}
use mathlib.Core.List.{flatten}
use mcfreeze.Data.{fingerprint, verify_fingerprint}
use mcfreeze.Error.{ok, IoError}
use mcfreeze.Layout
use mcfreeze.Layout.{Layout, partition_of}
use mcfreeze.V5.Block.{max_value_len}
use mcfreeze.V5.Compress.{Zstd, Compressor, decode}
use mcfreeze.V5.Compress.RoundTrip.{stored_bytes, is_compressed}
use mcfreeze.V5.Reader.{Partition, SnapshotReader, open_partition, get, hit}
use mcfreeze.V5.Builder.{Dir, Plan, PartitionBuildDone}
use mcfreeze.V5.Builder.Arrival.{FrameRef, appender}
use mcfreeze.V5.Builder.Frames.{Frame, log}
use mcfreeze.V5.Builder.Appended.{Item, frame_of, frames-IsFrame, verify_fingerprint-lt}
use mcfreeze.V5.Builder.Partition.{build_partition}
use mcfreeze.V5.Builder.Whole.{CanBuild}
use mcfreeze.V5.Builder.Entries.{IsDistinct}
use mcfreeze.V5.Builder.Filtered.{IsFilter}
use mcfreeze.V5.Builder.Served.{directory_of, partition_meta, build_partition-open_partition}
use mcfreeze.V5.Builder.Found.{Elem-map, Follows, get-logged}
use mcfreeze.Loader.{loaded}
use mcfreeze.Loader.Scatter.{PartitionBatch, PartitionStats, Fanout, fanout, new_channels}
use mcfreeze.Loader.Scatter.{scatter_batches, partition_writer}
use mcfreeze.Loader.Ranges.{list_from}
use mcfreeze.Loader.Routed.{AllFit, routed_to}
use mcfreeze.Loader.Logged.{v5_appender, scatter_batches-IsLogged, routed_to-IsItem}
use mcfreeze.Loader.Logged.{AllFit-flatten}

frames_nonzero :
    (xxh64 : Bytes → ℕ → ℕ) (seed : ℕ) (items : List Item)
    → ((bytes : Bytes) (s : ℕ) → xxh64 bytes s < 2 ^ 64)
    → All (λ x. x.vfp ≢ 0) (map (frame_of xxh64 seed) items)
frames_nonzero xxh64 seed [] bounded = tt
frames_nonzero xxh64 seed (i ∷ items) bounded =
    ((verify_fingerprint-lt xxh64 i.key seed bounded).0, frames_nonzero xxh64 seed items bounded)

module _ (xxh64 : Bytes → ℕ → ℕ) (bounded : (bytes : Bytes) (s : ℕ) → xxh64 bytes s < 2 ^ 64)
    (n : ℕ) (layout : Layout) (made : Layout.new n ≡ ok layout) (max : ℕ)
    (within : max ≤ max_value_len) where
  abbrev pub partition_for : Bytes → ℕ
  partition_for key = partition_of layout (fingerprint xxh64 key)

  abbrev item_at : Bytes × Bytes → Item
  item_at kv = record { key = kv.0; fp = fingerprint xxh64 kv.0; value = kv.1 }

  routed_to-Elem :
      (key value : Bytes) (kvs : List (Bytes × Bytes))
      → Elem (key, value) kvs
      → Elem (item_at (key, value)) (routed_to xxh64 n layout made max (partition_for key) kvs)
  unfolding routed_to
  routed_to-Elem key value [] mem = absurd mem
  routed_to-Elem key value ((k, v) ∷ kvs) (inl same) =
      let own : partition_for key ≡ partition_for k =
        ap (λ (z : Bytes × Bytes). partition_for z.0) same in
      let here : (partition_for k == partition_for key) ≡ true = ground (arith, own) in
      rw here (inl (ap item_at same))
  routed_to-Elem key value ((k, v) ∷ kvs) (inr there) =
      elim (Bool-cases (partition_for k == partition_for key)) [
        | inl here ↦ rw here (inr (routed_to-Elem key value kvs there))
        | inr elsewhere ↦ rw elsewhere (routed_to-Elem key value kvs there)
      ]

  -- The frames in the log of the partition of a key.
  abbrev pub frames_for : ℕ → List (List (Bytes × Bytes)) → Bytes → List Frame
  frames_for seed batches key =
      map (frame_of xxh64 seed)
        (routed_to xxh64 n layout made max (partition_for key) (flatten batches))

-- A reader of a snapshot whose partition for the key is the one given, with the seed and the block
-- size of the build, and a codec that decodes what the build's compressor makes of the value.
pub record ReadsBack (xxh64 : Bytes → ℕ → ℕ) (layout : Layout) {Level CCtx DCtx : Type 0}
    (api : Zstd Level CCtx DCtx) (plan : Plan) (pack : Bytes → Option Bytes) (seed : ℕ)
    (key value : Bytes) (part : Partition) (reader : SnapshotReader DCtx) : Type 0 where
  pub same_layout : reader.layout ≡ layout
  pub same_seed : reader.verify_seed ≡ seed
  pub block_size : reader.block_size ≡ plan.block_size
  pub routed : get_elem? reader.partitions (partition_of layout (fingerprint xxh64 key)) ≡ some part
  pub decodes :
      decode api (stored_bytes api value (pack value)) (is_compressed api (pack value)) reader.codec
      ≡ (ok value, reader.codec)

module _ (xxh64 : Bytes → ℕ → ℕ) (bounded : (bytes : Bytes) (s : ℕ) → xxh64 bytes s < 2 ^ 64)
    (n : ℕ) (layout : Layout) (made : Layout.new n ≡ ok layout) (max : ℕ)
    (within : max ≤ max_value_len) (sort : List FrameRef → List FrameRef)
    (try_from : List ℕ → String ⊎ (Bytes × Bytes)) (filter : Bytes → Bytes → ℕ → Bool)
    {Level CCtx DCtx : Type 0} (api : Zstd Level CCtx DCtx) (level : Level) (plan : Plan)
    (dict : Option Bytes) (c : Option (Compressor CCtx)) (pack : Bytes → Option Bytes)
    (can : CanBuild xxh64 sort try_from api level plan dict c pack)
    (good : IsFilter try_from filter) (bucket_bytes : ℕ) where
  -- A record that a source delivered is found by its key, from the load to the lookup. Batches within
  -- the limits are scattered to the partitions of a layout; the writer of the key's partition leaves
  -- a log, from which `build_partition` makes files that `open_partition` accepts; and in any reader
  -- that has this partition in its place, with the same seed, block size and layout, and a codec that
  -- decodes what the compressor makes of the value, the lookup of the key is a hit with the value.
  -- The records of the partition have distinct verification fingerprints, their log is less than
  -- 2 ^ 64 bytes, and the partition was not built before. The hash returns 64-bit words, the plan is
  -- one of the builder, and the filter admits what it was made of.
  pub get-loaded :
      (batches : List (List (Bytes × Bytes))) (seed : ℕ) (dirs : ℕ → Dir) (root : IoError ⊎ Bytes)
      (key value : Bytes) (reader : Partition → SnapshotReader DCtx)
      → All (AllFit max) batches
      → Elem (key, value) (flatten batches)
      → IsDistinct (frames_for xxh64 bounded n layout made max within seed batches key)
      → length (log (frames_for xxh64 bounded n layout made max within seed batches key)) < 2 ^ 64
      → (dirs (partition_of layout (fingerprint xxh64 key))).build_done ≡ none
      → ((part : Partition)
          → ReadsBack xxh64 layout api plan pack seed key value part (reader part))
      → (f : Fanout) × (queues : ℕ → List PartitionBatch) × (stats : PartitionStats) × (dir : Dir)
        × (done : PartitionBuildDone) × (dir' : Dir) × (part : Partition) × (scatter_batches xxh64
              batches
              (fanout layout max)
              (new_channels layout)
            ≡ (loaded tt, f, list_from (λ i. some (queues i)) 0 n))
        × (partition_writer
              (v5_appender xxh64)
              (queues (partition_of layout (fingerprint xxh64 key)))
              (appender seed (dirs (partition_of layout (fingerprint xxh64 key)))).0
              (appender seed (dirs (partition_of layout (fingerprint xxh64 key)))).1
            ≡ (loaded stats, dir))
        × (build_partition xxh64 sort try_from api level plan dict bucket_bytes dir
            ≡ (ok done, dir'))
        × (open_partition xxh64 filter api
              (directory_of root (λ _. dir'))
              plan.sketch
              plan.block_size
              (partition_of layout (fingerprint xxh64 key))
              (partition_meta done)
            ≡ ok part)
        × (get xxh64 filter api (reader part) key ≡ (ok (hit value), (reader part).codec))
  get-loaded batches seed dirs root key value reader fit mem distinct room fresh reads =
      let p = partition_of layout (fingerprint xxh64 key) in
      let fs = frames_for xxh64 bounded n layout made max within seed batches key in
      let items = routed_to xxh64 n layout made max p (flatten batches) in
      let (f, queues, run, writers, _, _) =
        scatter_batches-IsLogged xxh64 bounded n layout made max within batches seed dirs fit in
      let (stats, dir, wrote, logged, kept) = writers p in
      let framed =
        (frames-IsFrame xxh64 seed items bounded (
          routed_to-IsItem xxh64 bounded n layout made max within p (flatten batches)
            (AllFit-flatten max batches fit))).1 in
      let nonzero = frames_nonzero xxh64 seed items bounded in
      let log_there : dir.arrival_bin ≡ some (log fs) = logged.left ∙ ap some logged.is_log in
      let not_done : dir.build_done ≡ none = kept ∙ fresh in
      let (done, dir', part, built, opened, _, _, _, _) =
        build_partition-open_partition xxh64 sort try_from filter api level plan dict c pack can
          good bucket_bytes fs dir root p framed nonzero room log_there not_done in
      let r = reads part in
      let follows : Follows xxh64 sort try_from filter api level plan dict bucket_bytes fs
          (reader part) key =
        record {
          dir = dir;
          dir' = dir';
          done = done;
          part = part;
          root = root;
          index = p;
          log_there = log_there;
          not_done = not_done;
          built = built;
          opened = opened;
          block_size = r.block_size;
          routed =
              ap (λ l. get_elem? (reader part).partitions (partition_of l (fingerprint xxh64 key)))
                r.same_layout
              ∙ r.routed;
        } in
      let frame =
        frame_of xxh64 seed (record { key = key; fp = fingerprint xxh64 key; value = value }) in
      let in_log : Elem frame fs =
        Elem-map (frame_of xxh64 seed) items
          (record { key = key; fp = fingerprint xxh64 key; value = value })
          (routed_to-Elem xxh64 bounded n layout made max within key value (flatten batches) mem) in
      (
        f,
        queues,
        stats,
        dir,
        done,
        dir',
        part,
        run,
        wrote,
        built,
        opened,
        get-logged xxh64 sort try_from filter api level plan dict c pack can good bucket_bytes fs
            (reader part) key follows frame framed nonzero room distinct in_log refl
            (ap (verify_fingerprint xxh64 key) (sym r.same_seed)) r.decodes,
      )
