-- ===== src/Loader/Logged.antt =====
-- From the records of a source to the arrival logs of the partitions, through the channels.
use mcfreeze.Base.{ℕ, ◌+◌, ◌^◌, ◌<◌, ◌≤◌, ◌≡◌, refl, sym, ap, subst, ◌∙◌, List, [], ◌∷◌, ◌++◌}
use mcfreeze.Base.{map, arith, Bytes}
use mcfreeze.Base.{some, ◌==◌, length, All, Bool-cases, inl, inr, length-replicate, append-nil}
use mathlib.Core.List.{flatten}
use mcfreeze.Data.{fingerprint}
use mcfreeze.Error.{ok}
use mcfreeze.Layout
use mcfreeze.Layout.{Layout, partition_of}
use mcfreeze.V5.Block.{max_value_len}
use mcfreeze.V5.Builder.{Dir, ArrivalStats}
use mcfreeze.V5.Builder.Sizes.{hist_buckets}
use mcfreeze.V5.Builder.Arrival.{V5Appender, append, appender, finish, parse_frames, FrameRef}
use mcfreeze.V5.Builder.Frames.{log, view, refs_from, parse_frames-log, view-refs_from}
use mcfreeze.V5.Builder.Appended.{Item, IsItem, IsAdmitted, append-Adds, Adds-out, frame_of}
use mcfreeze.V5.Builder.Appended.{frames-IsFrame}
use mcfreeze.Loader.{loaded}
use mcfreeze.Loader.Scatter.{PartitionBatch, Fanout, scatter_batches, fanout, new_channels}
use mcfreeze.Loader.Scatter.{PartitionStats, PartitionAppender, and_items, write_items, seal_log}
use mcfreeze.Loader.Scatter.{partition_writer}
use mcfreeze.Loader.Ranges.{list_from}
use mcfreeze.Loader.Routed.{value_bytes, AllFit, routed_to, scatter_batches-routed_to}

-- The appender of the V5 format.
abbrev pub v5_appender : (Bytes → ℕ → ℕ) → PartitionAppender V5Appender Dir
v5_appender xxh64 = record { append = append xxh64; finish = finish }

-- The bytes of the values of items.
pub item_bytes : List Item → ℕ
item_bytes [] = 0
item_bytes (i ∷ items) = length i.value + item_bytes items

write_items-Adds :
    (xxh64 : Bytes → ℕ → ℕ) (items : List Item) (stats : PartitionStats) (a : V5Appender)
    → All IsAdmitted items
    → length a.hist ≡ hist_buckets
    → (stats' : PartitionStats) × (a' : V5Appender) × (write_items (v5_appender xxh64) items stats a
        ≡ (loaded stats', a'))
      × (a'.out ≡ a.out ++ log (map (frame_of xxh64 a.verify_seed) items))
      × (stats'.n_keys ≡ stats.n_keys + length items)
      × (stats'.sum_bytes ≡ stats.sum_bytes + item_bytes items)
      × (a'.n_keys ≡ a.n_keys + length items)
unfolding write_items log item_bytes
write_items-Adds xxh64 [] stats a h hist =
    (stats, a, refl, sym (append-nil a.out), omega arith, omega arith, omega arith)
write_items-Adds xxh64 (i ∷ items) stats a h hist =
    let (a1, run1, d) = append-Adds xxh64 i a h.0 hist in
    let stats1 : PartitionStats = record {
      n_keys = stats.n_keys + 1;
      sum_bytes = stats.sum_bytes + length i.value;
    } in
    let (stats2, a2, run2, out2, keys, bytes, counted) =
      write_items-Adds xxh64 items stats1 a1 h.1 (d.hist ∙ hist) in
    (
      stats2,
      a2,
      ap (and_items (write_items (v5_appender xxh64) items stats1)) run1 ∙ run2,
      Adds-out xxh64 i items a a1 a2 d.out d.seed out2,
      omega (arith, keys),
      omega (arith, bytes),
      omega (arith, counted, d.n_keys),
    )

-- What a writer leaves behind, for a list of items.
pub record IsLogged (xxh64 : Bytes → ℕ → ℕ) (seed : ℕ) (items : List Item) (stats : PartitionStats)
    (dir : Dir) : Type 0 where
  pub buf : Bytes
  pub frames : List FrameRef
  pub left : dir.arrival_bin ≡ some buf
  pub is_log : buf ≡ log (map (frame_of xxh64 seed) items)
  pub parsed : parse_frames buf ≡ ok frames
  pub viewed : map (view buf) frames ≡ map (frame_of xxh64 seed) items
  pub n_keys : stats.n_keys ≡ length items
  pub sum_bytes : stats.sum_bytes ≡ item_bytes items
  pub marker : ArrivalStats
  pub marked : dir.arrival_stats ≡ some marker
  pub marked_keys : marker.n_keys ≡ length items

partition_writer-IsLogged :
    (xxh64 : Bytes → ℕ → ℕ) (seed : ℕ) (dir : Dir) (queue : List PartitionBatch)
    → ((bytes : Bytes) (s : ℕ) → xxh64 bytes s < 2 ^ 64)
    → All IsItem (flatten queue)
    → (stats : PartitionStats) × (dir' : Dir) × (partition_writer
          (v5_appender xxh64)
          queue
          (appender seed dir).0
          (appender seed dir).1
        ≡ (loaded stats, dir'))
      × IsLogged xxh64 seed (flatten queue) stats dir'
      × (dir'.build_done ≡ dir.build_done)
unfolding partition_writer seal_log appender finish
partition_writer-IsLogged xxh64 seed dir queue bounded h =
    let items = flatten queue in
    let fs = map (frame_of xxh64 seed) items in
    let (admitted, framed) = frames-IsFrame xxh64 seed items bounded h in
    let (stats, a, run, out, keys, bytes, marked) =
      write_items-Adds xxh64 items (record { n_keys = 0; sum_bytes = 0 }) (appender seed dir).0
        admitted (length-replicate {A = ℕ} hist_buckets 0) in
    (
      stats,
      finish a (appender seed dir).1,
      ap (λ z. seal_log (v5_appender xxh64) z (appender seed dir).1) run,
      record {
        buf = a.out;
        frames = refs_from 0 fs;
        left = refl;
        is_log = out;
        parsed = ap parse_frames out ∙ parse_frames-log fs framed;
        viewed = ap (λ b. map (view b) (refs_from 0 fs)) out ∙ view-refs_from fs framed;
        n_keys = keys ∙ omega arith;
        sum_bytes = bytes ∙ omega arith;
        marker = record { n_keys = a.n_keys; data_bytes = a.data_bytes; hist = a.hist };
        marked = refl;
        marked_keys = marked ∙ omega arith;
      },
      refl,
    )

fingerprint-lt :
    (xxh64 : Bytes → ℕ → ℕ) (key : Bytes)
    → ((bytes : Bytes) (s : ℕ) → xxh64 bytes s < 2 ^ 64)
    → fingerprint xxh64 key < 2 ^ 64
unfolding fingerprint
fingerprint-lt xxh64 key bounded = ground (arith, bounded key 0)

AllFit-append :
    (max : ℕ) (xs ys : List (Bytes × Bytes)) → AllFit max xs → AllFit max ys → AllFit max (xs ++ ys)
AllFit-append max [] ys h h' = h'
AllFit-append max (x ∷ xs) ys h h' = (h.0, AllFit-append max xs ys h.1 h')

pub AllFit-flatten :
    (max : ℕ) (batches : List (List (Bytes × Bytes)))
    → All (AllFit max) batches
    → AllFit max (flatten batches)
unfolding flatten
AllFit-flatten max [] h = tt
AllFit-flatten max (batch ∷ batches) h =
    AllFit-append max batch (flatten batches) h.0 (AllFit-flatten max batches h.1)

module _ (xxh64 : Bytes → ℕ → ℕ) (bounded : (bytes : Bytes) (s : ℕ) → xxh64 bytes s < 2 ^ 64)
    (n : ℕ) (layout : Layout) (made : Layout.new n ≡ ok layout) (max : ℕ)
    (within : max ≤ max_value_len) where
  pub routed_to-IsItem :
      (i : ℕ) (kvs : List (Bytes × Bytes))
      → AllFit max kvs
      → All IsItem (routed_to xxh64 n layout made max i kvs)
  unfolding routed_to
  routed_to-IsItem i [] fit = tt
  routed_to-IsItem i ((key, value) ∷ kvs) fit =
      let rest = routed_to-IsItem i kvs fit.1 in
      elim (Bool-cases (partition_of layout (fingerprint xxh64 key) == i)) [
        | inl here ↦
            rw here ((fingerprint-lt xxh64 key bounded, omega (arith, fit.0, within)), rest)
        | inr elsewhere ↦ rw elsewhere rest
      ]

  -- A load up to the sentinel: what a source delivers arrives in the logs of the partitions. For a
  -- layout of `n` partitions, a limit on values that is within the format's, and batches within that
  -- limit, the scatter succeeds, and then for each partition the writer that is given what its
  -- channel holds succeeds too: it leaves an arrival log that parses into one frame for each record
  -- whose key routes to the partition, in the order of the source, which stands for the record's
  -- fingerprint, the verification fingerprint of its key and its value; it counts the records and
  -- the bytes of their values; its marker has that number of records; and the marker of a build is
  -- as it was. The counters of the
  -- fan-out are those of all records. The hash returns 64-bit words.
  pub scatter_batches-IsLogged :
      (batches : List (List (Bytes × Bytes))) (seed : ℕ) (dirs : ℕ → Dir)
      → All (AllFit max) batches
      → (f : Fanout) × (queues : ℕ → List PartitionBatch) × (scatter_batches xxh64 batches
            (fanout layout max)
            (new_channels layout)
          ≡ (loaded tt, f, list_from (λ i. some (queues i)) 0 n))
        × ((i : ℕ)
            → (stats : PartitionStats) × (dir : Dir) × (partition_writer
                  (v5_appender xxh64)
                  (queues i)
                  (appender seed (dirs i)).0
                  (appender seed (dirs i)).1
                ≡ (loaded stats, dir))
              × IsLogged xxh64 seed
                  (routed_to xxh64 n layout made max i (flatten batches))
                  stats
                  dir
              × (dir.build_done ≡ (dirs i).build_done))
        × (f.n_keys ≡ length (flatten batches))
        × (f.data_bytes ≡ value_bytes (flatten batches))
  scatter_batches-IsLogged batches seed dirs fit =
      let (f, queues, run, routed, _, keys, bytes) =
        scatter_batches-routed_to xxh64 n layout made max batches fit in
      (
        f,
        queues,
        run,
        λ i.
            let items : All IsItem (flatten (queues i)) =
              subst (All IsItem) (sym (routed i))
                (routed_to-IsItem i (flatten batches) (AllFit-flatten max batches fit)) in
            let (stats, dir, wrote, logged, kept) =
              partition_writer-IsLogged xxh64 seed (dirs i) (queues i) bounded items in
            (
              stats,
              dir,
              wrote,
              subst (λ its. IsLogged xxh64 seed its stats dir) (routed i) logged,
              kept,
            ),
        keys,
        bytes,
      )
