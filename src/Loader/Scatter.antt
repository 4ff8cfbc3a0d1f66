-- ===== src/Loader/Scatter.antt =====
-- rust/crates/mcfreeze-loader/src/scatter.rs: `Fanout`, the channels to the writers of the
-- partitions, and `partition_writer`, over the appender of a format.
use mcfreeze.Base.{ℕ, zero, suc, ◌+◌, List, [], ◌∷◌, ◌++◌, Option, none, some, ltb}
use mcfreeze.Base.{if◌then◌else◌, length, Bytes, replicate}
use mathlib.Core.List.{flatten}
use mcfreeze.Data.{fingerprint}
use mcfreeze.Error.{IoError, Result, ok, err, panic, stuck}
use mcfreeze.Layout.{Layout, partition_of}
use mcfreeze.V5.Builder.{Io}
use mcfreeze.V5.Builder.Appended.{Item}
use mcfreeze.Loader.{LoadResult, loaded, refused, panicked, value_too_large, io, format}

-- A batch for one partition: keys with their fingerprints and values.
abbrev pub PartitionBatch : Type 0
PartitionBatch = List Item

-- What a sender holds, or none when the receiver is gone.
abbrev pub Channel : Type 0
Channel = Option (List PartitionBatch)

pub record Fanout : Type 0 where
  pub layout : Layout
  pub sub_batches : List PartitionBatch
  pub n_keys : ℕ
  pub data_bytes : ℕ
  pub max_value_bytes : ℕ

-- `sub_batches[idx].push(item)`, or none out of bounds.
unfoldable pub push_at : ℕ → Item → List PartitionBatch → Option (List PartitionBatch)
push_at idx item [] = none
push_at zero item (slot ∷ slots) = some ((slot ++ (item ∷ [])) ∷ slots)
push_at (suc idx) item (slot ∷ slots) = elim (push_at idx item slots) [
  | none ↦ none
  | some slots' ↦ some (slot ∷ slots')
]

-- The counters after a record was pushed.
abbrev pub count_routed : Fanout → Bytes → Option (List PartitionBatch) → LoadResult Fanout
count_routed f value none = panicked
count_routed f value (some slots) = loaded (record f {
  sub_batches = slots;
  n_keys = f.n_keys + 1;
  data_bytes = f.data_bytes + length value;
})

module _ (xxh64 : Bytes → ℕ → ℕ) where
  -- A record that is not too large, to the buffer of its partition.
  unfoldable pub route_kv : Bytes → Bytes → Fanout → LoadResult Fanout
  unfolding push_at
  route_kv key value f =
      let fp = fingerprint xxh64 key in
      count_routed f value (
        push_at (partition_of f.layout fp) (record { key = key; fp = fp; value = value })
          f.sub_batches)

  -- The callback of `for_each_kv` over the records of a batch: the first value that is too large
  -- ends it, and what was routed before stays.
  unfoldable pub walk : List (Bytes × Bytes) → Fanout → LoadResult (Unit {0}) × Fanout
  unfolding route_kv
  walk [] f = (loaded tt, f)
  walk ((key, value) ∷ kvs) f =
      if ltb f.max_value_bytes (length value)
      then (refused (value_too_large key (length value) f.max_value_bytes), f)
      else elim (route_kv key value f) [
        | loaded f' ↦ walk kvs f'
        | refused e ↦ (refused e, f)
        | panicked ↦ (panicked, f)
      ]

-- The loop over the buffers: each that is not empty is taken and sent.
unfoldable pub send_batches :
    List PartitionBatch → List Channel → LoadResult (Unit {0}) × List PartitionBatch × List Channel
send_batches [] channels = (loaded tt, [], channels)
send_batches (slot ∷ slots) [] = (panicked, slot ∷ slots, [])
send_batches ([] ∷ slots) (c ∷ channels) =
    let (r, slots', channels') = send_batches slots channels in (r, [] ∷ slots', c ∷ channels')
send_batches ((i ∷ is) ∷ slots) (none ∷ channels) =
    (refused (io IoError.broken_pipe), [] ∷ slots, none ∷ channels)
send_batches ((i ∷ is) ∷ slots) (some queue ∷ channels) =
    let (r, slots', channels') = send_batches slots channels in
    (r, [] ∷ slots', some (queue ++ ((i ∷ is) ∷ [])) ∷ channels')

-- `?` on the result of a batch, before the next batches.
abbrev pub and_batches :
    (Fanout → List Channel → LoadResult (Unit {0}) × Fanout × List Channel)
    → LoadResult (Unit {0}) × Fanout × List Channel
    → LoadResult (Unit {0}) × Fanout × List Channel
and_batches next (loaded _, f, channels) = next f channels
and_batches next (refused e, f, channels) = (refused e, f, channels)
and_batches next (panicked, f, channels) = (panicked, f, channels)

module _ (xxh64 : Bytes → ℕ → ℕ) where
  -- What follows the walk: an error before anything is sent, or the sends.
  unfoldable pub send_walked :
      LoadResult (Unit {0}) × Fanout → List Channel → LoadResult (Unit {0}) × Fanout × List Channel
  unfolding send_batches
  send_walked (loaded _, f) channels =
      let (r, slots, channels') = send_batches f.sub_batches channels in
      (r, record f { sub_batches = slots }, channels')
  send_walked (refused e, f) channels = (refused e, f, channels)
  send_walked (panicked, f) channels = (panicked, f, channels)

  -- `Fanout::scatter_batch`
  unfoldable pub scatter_batch :
      List (Bytes × Bytes) → Fanout → List Channel → LoadResult (Unit {0}) × Fanout × List Channel
  unfolding walk send_walked
  scatter_batch batch f channels = send_walked (walk xxh64 batch f) channels

  -- The loop over the batches of a source.
  unfoldable pub scatter_batches :
      List (List (Bytes × Bytes))
      → Fanout
      → List Channel
      → LoadResult (Unit {0}) × Fanout × List Channel
  unfolding scatter_batch
  scatter_batches [] f channels = (loaded tt, f, channels)
  scatter_batches (batch ∷ batches) f channels =
      and_batches (scatter_batches batches) (scatter_batch batch f channels)

-- `ScatterPhase::fanout`
unfoldable pub fanout : Layout → ℕ → Fanout
fanout layout max_value_bytes = record {
  layout = layout;
  sub_batches = replicate layout.n_partitions [];
  n_keys = 0;
  data_bytes = 0;
  max_value_bytes = max_value_bytes;
}

-- The channels of a new `ScatterPhase`.
unfoldable pub new_channels : Layout → List Channel
new_channels layout = replicate layout.n_partitions (some [])

-- What a writer returns.
pub record PartitionStats : Type 0 where
  pub n_keys : ℕ
  pub sum_bytes : ℕ

-- The operations of a partition's appender, over what it writes to.
pub record PartitionAppender (A D : Type 0) : Type 0 where
  pub append : Bytes → ℕ → Bytes → Io A (Unit {0})
  pub finish : A → D → D

-- `?` on the result of an append, before the next items.
abbrev pub and_items :
    {A : Type 0}
    → (A → LoadResult PartitionStats × A)
    → Result (Unit {0}) × A
    → LoadResult PartitionStats × A
and_items next (ok _, a) = next a
and_items next (err e, a) = (refused (format e), a)
and_items next (panic, a) = (panicked, a)
and_items next (stuck, a) = (panicked, a)

module _ {A D : Type 0} (appender : PartitionAppender A D) where
  -- The loop over the items of the batches.
  unfoldable pub write_items : List Item → PartitionStats → A → LoadResult PartitionStats × A
  write_items [] stats a = (loaded stats, a)
  write_items (i ∷ items) stats a =
      and_items
        (write_items items
          (record { n_keys = stats.n_keys + 1; sum_bytes = stats.sum_bytes + length i.value }))
        (appender.append i.key i.fp i.value a)

  -- The end of a writer: a log is sealed only when all its items were appended.
  unfoldable pub seal_log : LoadResult PartitionStats × A → D → LoadResult PartitionStats × D
  seal_log (loaded stats, a) d = (loaded stats, appender.finish a d)
  seal_log (refused e, a) d = (refused e, d)
  seal_log (panicked, a) d = (panicked, d)

  -- `partition_writer`, on all that was sent until the channel was closed.
  unfoldable pub partition_writer : List PartitionBatch → A → D → LoadResult PartitionStats × D
  unfolding write_items seal_log
  partition_writer queue a d =
      seal_log (write_items (flatten queue) (record { n_keys = 0; sum_bytes = 0 }) a) d
