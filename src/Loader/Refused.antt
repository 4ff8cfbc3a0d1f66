-- ===== src/Loader/Refused.antt =====
-- A value that is too large for the loader.
use mcfreeze.Base.{ℕ, zero, suc, ◌+◌, ◌<◌, ◌≡◌, refl, ap, ◌∙◌, List, [], ◌∷◌, ◌++◌, Bytes, true}
use mcfreeze.Base.{false, some, ltb, length, arith, le→ltb}
use mcfreeze.Data.{fingerprint}
use mcfreeze.Error.{ok}
use mcfreeze.Layout
use mcfreeze.Layout.{Layout, partition_of, partition_of-mod}
use mcfreeze.V5.Builder.Appended.{Item}
use mcfreeze.Loader.{loaded, refused, value_too_large}
use mcfreeze.Loader.Scatter.{PartitionBatch, Channel, Fanout, push_at, count_routed, route_kv, walk}
use mcfreeze.Loader.Scatter.{send_walked, scatter_batch}
use mcfreeze.Loader.Routed.{AllFit, value_bytes}

push_at-total :
    (idx : ℕ) (item : Item) (slots : List PartitionBatch)
    → idx < length slots
    → (slots' : List PartitionBatch) × (push_at idx item slots ≡ some slots')
      × (length slots' ≡ length slots)
unfolding push_at
push_at-total idx item [] lt = absurd (omega arith)
push_at-total zero item (slot ∷ slots) lt = ((slot ++ (item ∷ [])) ∷ slots, refl, refl)
push_at-total (suc idx) item (slot ∷ slots) lt =
    let (slots', e, len) = push_at-total idx item slots (omega arith) in
    (slot ∷ slots', rw e refl, omega (arith, len))

module _ (xxh64 : Bytes → ℕ → ℕ) (n : ℕ) (layout : Layout) (made : Layout.new n ≡ ok layout)
    (max : ℕ) where
  -- A fan-out of the layout and the limit, whatever it holds and has counted.
  pub record IsFanout (f : Fanout) : Type 0 where
    pub same_layout : f.layout ≡ layout
    pub same_max : f.max_value_bytes ≡ max
    pub slots : length f.sub_batches ≡ n

  route_kv-IsFanout :
      (key value : Bytes) (f : Fanout)
      → IsFanout f
      → (f' : Fanout) × (route_kv xxh64 key value f ≡ loaded f')
        × IsFanout f'
        × (f'.n_keys ≡ f.n_keys + 1)
        × (f'.data_bytes ≡ f.data_bytes + length value)
  unfolding route_kv
  route_kv-IsFanout key value f h =
      let fp = fingerprint xxh64 key in
      let (_, below) = partition_of-mod n fp made in
      let inside : partition_of f.layout fp < length f.sub_batches =
        omega (arith, below, h.slots, ap (λ l. partition_of l fp) h.same_layout) in
      let (slots', e, len) =
        push_at-total (partition_of f.layout fp) (record { key = key; fp = fp; value = value })
          f.sub_batches inside in
      (
        record f {
          sub_batches = slots';
          n_keys = f.n_keys + 1;
          data_bytes = f.data_bytes + length value;
        },
        ap (count_routed f value) e,
        record { same_layout = h.same_layout; same_max = h.same_max; slots = len ∙ h.slots },
        refl,
        refl,
      )

  walk-refuses :
      (fitting rest : List (Bytes × Bytes)) (key value : Bytes) (f : Fanout)
      → IsFanout f
      → AllFit max fitting
      → max < length value
      → (f' : Fanout) × (walk xxh64 (fitting ++ ((key, value) ∷ rest)) f
          ≡ (refused (value_too_large key (length value) max), f'))
        × IsFanout f'
        × (f'.n_keys ≡ f.n_keys + length fitting)
        × (f'.data_bytes ≡ f.data_bytes + value_bytes fitting)
  unfolding walk value_bytes
  walk-refuses [] rest key value f h fit large =
      let over : ltb f.max_value_bytes (length value) ≡ true = ground (arith, large, h.same_max) in
      (
        f,
        rw over (ap (λ m. (refused (value_too_large key (length value) m), f)) h.same_max),
        h,
        omega arith,
        omega arith,
      )
  walk-refuses ((k, v) ∷ fitting) rest key value f h fit large =
      let fits : ltb f.max_value_bytes (length v) ≡ false =
        le→ltb f.max_value_bytes (length v) (omega (arith, fit.0, h.same_max)) in
      let (f1, routed, h1, keys, bytes) = route_kv-IsFanout k v f h in
      let (f2, run, h2, keys', bytes') = walk-refuses fitting rest key value f1 h1 fit.1 large in
      (f2, rw fits (rw routed run), h2, omega (arith, keys, keys'), omega (arith, bytes, bytes'))

  -- A batch with a value that is too large is refused as a whole, by any fan-out of the layout and
  -- the limit with one buffer for each partition, whatever its buffers hold and its counters are:
  -- the error names the first such value's key, its length and the limit, whatever stands behind it;
  -- nothing of the batch is sent, to any channel; the fan-out remains such a fan-out; and what it
  -- counted in addition are the records before that value, and the bytes of their values.
  pub scatter_batch-refuses :
      (fitting rest : List (Bytes × Bytes)) (key value : Bytes) (f : Fanout)
      (channels : List Channel)
      → IsFanout f
      → AllFit max fitting
      → max < length value
      → (f' : Fanout) × (scatter_batch xxh64 (fitting ++ ((key, value) ∷ rest)) f channels
          ≡ (refused (value_too_large key (length value) max), f', channels))
        × IsFanout f'
        × (f'.n_keys ≡ f.n_keys + length fitting)
        × (f'.data_bytes ≡ f.data_bytes + value_bytes fitting)
  unfolding scatter_batch send_walked
  scatter_batch-refuses fitting rest key value f channels h fit large =
      let (f', run, h', keys, bytes) = walk-refuses fitting rest key value f h fit large in
      (f', ap (λ w. send_walked xxh64 w channels) run, h', keys, bytes)
