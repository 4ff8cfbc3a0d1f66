-- ===== src/Loader/Routed.antt =====
-- Where the records of a source go: to the channel of their partition, in their order.
use mcfreeze.Base.{ℕ, zero, suc, ◌+◌, ◌<◌, ◌≤◌, ◌≡◌, ◌≢◌, refl, sym, ap, ◌∙◌, List, [], ◌∷◌, ◌++◌}
use mcfreeze.Base.{true, false, some, ltb, ◌==◌, if◌then◌else◌, length, Bytes, arith, All}
use mcfreeze.Base.{append_assoc, append-nil, length-append, Bool-cases, inl, inr, replicate, le→ltb}
use mathlib.Core.List.{flatten}
use mcfreeze.Loader.Ranges.{list_from, list_from-eq, list_from-replicate}
use mcfreeze.Data.{fingerprint}
use mcfreeze.Error.{ok}
use mcfreeze.Layout
use mcfreeze.Layout.{Layout, partition_of, partition_of-mod, new_fields}
use mcfreeze.V5.Builder.Appended.{Item}
use mcfreeze.Loader.{LoadResult, loaded}
use mcfreeze.Loader.Scatter.{PartitionBatch, Channel, Fanout, push_at, route_kv, walk, send_batches}
use mcfreeze.Loader.Scatter.{count_routed, and_batches, send_walked, scatter_batch}
use mcfreeze.Loader.Scatter.{scatter_batches, fanout, new_channels}

push_at-list_from :
    (idx s n : ℕ) (f g : ℕ → PartitionBatch) (item : Item)
    → idx < n
    → g (s + idx) ≡ f (s + idx) ++ (item ∷ [])
    → ((i : ℕ) → i ≢ s + idx → f i ≡ g i)
    → push_at idx item (list_from f s n) ≡ some (list_from g s n)
unfolding push_at list_from
push_at-list_from idx s zero f g item lt pushed same = absurd (omega arith)
push_at-list_from zero s (suc n) f g item lt pushed same =
    let here : s + 0 ≡ s = omega arith in
    let head : f s ++ (item ∷ []) ≡ g s =
      ap (λ z. f z ++ (item ∷ [])) (sym here) ∙ sym pushed ∙ ap g here in
    ap (λ z. some (z ∷ list_from f (suc s) n)) head
    ∙ ap (λ z. some (g s ∷ z))
        (list_from-eq f g (suc s) n (λ i le. same i (λ e. absurd (omega (arith, e, le)))))
push_at-list_from (suc idx) s (suc n) f g item lt pushed same =
    let there : s + suc idx ≡ suc s + idx = omega arith in
    let later =
      push_at-list_from idx (suc s) n f g item (omega arith)
        (ap g (sym there) ∙ pushed ∙ ap (λ z. f z ++ (item ∷ [])) there)
        (λ i other. same i (λ e. other (e ∙ there))) in
    rw later (ap (λ z. some (z ∷ list_from g (suc s) n)) (same s (λ e. absurd (omega (arith, e)))))

unfoldable pub value_bytes : List (Bytes × Bytes) → ℕ
value_bytes [] = 0
value_bytes ((key, value) ∷ kvs) = length value + value_bytes kvs

value_bytes-append :
    (xs ys : List (Bytes × Bytes)) → value_bytes (xs ++ ys) ≡ value_bytes xs + value_bytes ys
unfolding value_bytes
value_bytes-append [] ys = omega arith
value_bytes-append ((key, value) ∷ xs) ys = omega (arith, value_bytes-append xs ys)

-- No value is larger than the loader admits.
abbrev pub AllFit : ℕ → List (Bytes × Bytes) → Type 0
AllFit max = All (λ (kv : Bytes × Bytes). length kv.1 ≤ max)

-- A batch behind others, unless it is empty.
push_batch : List PartitionBatch → PartitionBatch → List PartitionBatch
push_batch queue [] = queue
push_batch queue (i ∷ is) = queue ++ ((i ∷ is) ∷ [])

flatten-append : (xs ys : List PartitionBatch) → flatten (xs ++ ys) ≡ flatten xs ++ flatten ys
unfolding flatten
flatten-append [] ys = refl
flatten-append (x ∷ xs) ys =
    ap (λ z. x ++ z) (flatten-append xs ys) ∙ sym (append_assoc x (flatten xs) (flatten ys))

flatten-push_batch :
    (queue : List PartitionBatch) (batch : PartitionBatch)
    → flatten (push_batch queue batch) ≡ flatten queue ++ batch
unfolding push_batch flatten
flatten-push_batch queue [] = sym (append-nil (flatten queue))
flatten-push_batch queue (i ∷ is) =
    flatten-append queue ((i ∷ is) ∷ []) ∙ ap (λ z. flatten queue ++ z) (append-nil (i ∷ is))

send_batches-list_from :
    (f : ℕ → PartitionBatch) (q : ℕ → List PartitionBatch) (s n : ℕ)
    → send_batches (list_from f s n) (list_from (λ i. some (q i)) s n)
      ≡ (loaded tt, list_from (λ i. []) s n, list_from (λ i. some (push_batch (q i) (f i))) s n)
unfolding send_batches list_from push_batch
send_batches-list_from f q s zero = refl
send_batches-list_from f q s (suc n) =
    let later = send_batches-list_from f q (suc s) n in
    elim (f s)
      as (λ b.
        Path (LoadResult (Unit {0}) × List PartitionBatch × List Channel)
          (send_batches (b ∷ list_from f (suc s) n)
            (some (q s) ∷ list_from (λ i. some (q i)) (suc s) n))
          (
            loaded tt,
            [] ∷ list_from (λ i. []) (suc s) n,
            some (push_batch (q s) b) ∷ list_from (λ i. some (push_batch (q i) (f i))) (suc s) n,
          )) [ [] ↦ rw later refl | (i ∷ is) ↦ rw later refl ]

module _ (xxh64 : Bytes → ℕ → ℕ) (n : ℕ) (layout : Layout) (made : Layout.new n ≡ ok layout)
    (max : ℕ) where
  abbrev item_of : Bytes → Bytes → Item
  item_of key value = record { key = key; fp = fingerprint xxh64 key; value = value }

  -- The records whose keys belong to partition `i`, in their order.
  unfoldable pub routed_to : ℕ → List (Bytes × Bytes) → List Item
  routed_to i [] = []
  routed_to i ((key, value) ∷ kvs) =
      let rest = routed_to i kvs in
      if partition_of layout (fingerprint xxh64 key) == i then item_of key value ∷ rest else rest

  routed_to-append :
      (i : ℕ) (xs ys : List (Bytes × Bytes))
      → routed_to i (xs ++ ys) ≡ routed_to i xs ++ routed_to i ys
  unfolding routed_to
  routed_to-append i [] ys = refl
  routed_to-append i ((key, value) ∷ xs) ys =
      elim (Bool-cases (partition_of layout (fingerprint xxh64 key) == i)) [
        | inl here ↦ rw here (ap (λ z. item_of key value ∷ z) (routed_to-append i xs ys))
        | inr elsewhere ↦ rw elsewhere (routed_to-append i xs ys)
      ]

  -- A fan-out whose buffers are the values of a function.
  abbrev state : (ℕ → PartitionBatch) → ℕ → ℕ → Fanout
  state h keys bytes = record {
    layout = layout;
    sub_batches = list_from h 0 n;
    n_keys = keys;
    data_bytes = bytes;
    max_value_bytes = max;
  }

  route_kv-state :
      (key value : Bytes) (h : ℕ → PartitionBatch) (keys bytes : ℕ)
      → route_kv xxh64 key value (state h keys bytes)
        ≡ loaded
            (state (λ i. h i ++ routed_to i ((key, value) ∷ [])) (keys + 1) (bytes + length value))
  unfolding route_kv routed_to
  route_kv-state key value h keys bytes =
      let p = partition_of layout (fingerprint xxh64 key) in
      let (_, below) = partition_of-mod n (fingerprint xxh64 key) made in
      let at_own : (p == 0 + p) ≡ true = ground arith in
      let pushed =
        push_at-list_from p 0 n h (λ i. h i ++ (if p == i then item_of key value ∷ [] else []))
          (item_of key value) below (rw at_own refl)
          (λ i other.
            let apart : (p == i) ≡ false = ground (arith, other) in
            rw apart (sym (append-nil (h i)))) in
      ap (count_routed (state h keys bytes) value) pushed

  walk-state :
      (kvs : List (Bytes × Bytes)) (h : ℕ → PartitionBatch) (keys bytes : ℕ)
      → AllFit max kvs
      → walk xxh64 kvs (state h keys bytes) ≡ (
        loaded tt,
        state (λ i. h i ++ routed_to i kvs) (keys + length kvs) (bytes + value_bytes kvs),
      )
  unfolding walk value_bytes routed_to
  walk-state [] h keys bytes fit =
      ap (λ z. (loaded tt, record (state h keys bytes) { sub_batches = z }))
        (list_from-eq h (λ i. h i ++ []) 0 n (λ i le. sym (append-nil (h i))))
      ∙ ap (λ z. (loaded tt, state (λ i. h i ++ []) z bytes))
          (let e : keys ≡ keys + 0 = omega arith in e)
      ∙ ap (λ z. (loaded tt, state (λ i. h i ++ []) (keys + 0) z))
          (let e : bytes ≡ bytes + 0 = omega arith in e)
  walk-state ((key, value) ∷ kvs) h keys bytes fit =
      let fits : ltb max (length value) ≡ false = le→ltb max (length value) fit.0 in
      let routed = route_kv-state key value h keys bytes in
      let later =
        walk-state kvs (λ i. h i ++ routed_to i ((key, value) ∷ [])) (keys + 1)
          (bytes + length value) fit.1 in
      rw fits (rw routed later)
      ∙ ap
          (λ z. (
            loaded tt,
            record (state h (keys + 1 + length kvs) (bytes + length value + value_bytes kvs)) {
              sub_batches = z;
            },
          ))
          (list_from-eq (λ i. h i ++ routed_to i ((key, value) ∷ []) ++ routed_to i kvs)
            (λ i. h i ++ routed_to i ((key, value) ∷ kvs)) 0 n
            (λ i le.
              append_assoc (h i) (routed_to i ((key, value) ∷ [])) (routed_to i kvs)
              ∙ ap (λ z. h i ++ z) (sym (routed_to-append i ((key, value) ∷ []) kvs))))
      ∙ ap
          (λ z. (
            loaded tt,
            state (λ i. h i ++ routed_to i ((key, value) ∷ kvs)) z
                (bytes + length value + value_bytes kvs),
          ))
          (let e : keys + 1 + length kvs ≡ keys + suc (length kvs) = omega arith in e)
      ∙ ap
          (λ z. (
            loaded tt,
            state (λ i. h i ++ routed_to i ((key, value) ∷ kvs)) (keys + suc (length kvs)) z,
          ))
          (let e : bytes + length value + value_bytes kvs
                ≡ bytes + (length value + value_bytes kvs) =
              omega arith in
            e)

  -- The queue of a partition after some batches.
  queue_of : ℕ → List (List (Bytes × Bytes)) → List PartitionBatch → List PartitionBatch
  queue_of i [] queue = queue
  queue_of i (batch ∷ batches) queue = queue_of i batches (push_batch queue (routed_to i batch))

  flatten-queue_of :
      (i : ℕ) (batches : List (List (Bytes × Bytes))) (queue : List PartitionBatch)
      → flatten (queue_of i batches queue) ≡ flatten queue ++ routed_to i (flatten batches)
  unfolding queue_of flatten routed_to
  flatten-queue_of i [] queue = sym (append-nil (flatten queue))
  flatten-queue_of i (batch ∷ batches) queue =
      flatten-queue_of i batches (push_batch queue (routed_to i batch))
      ∙ ap (λ z. z ++ routed_to i (flatten batches)) (flatten-push_batch queue (routed_to i batch))
      ∙ append_assoc (flatten queue) (routed_to i batch) (routed_to i (flatten batches))
      ∙ ap (λ z. flatten queue ++ z) (sym (routed_to-append i batch (flatten batches)))

  scatter_batch-state :
      (batch : List (Bytes × Bytes)) (q : ℕ → List PartitionBatch) (keys bytes : ℕ)
      → AllFit max batch
      → scatter_batch xxh64 batch (state (λ i. []) keys bytes) (list_from (λ i. some (q i)) 0 n) ≡ (
        loaded tt,
        state (λ i. []) (keys + length batch) (bytes + value_bytes batch),
        list_from (λ i. some (push_batch (q i) (routed_to i batch))) 0 n,
      )
  unfolding scatter_batch send_walked
  scatter_batch-state batch q keys bytes fit =
      ap (λ z. send_walked xxh64 z (list_from (λ i. some (q i)) 0 n))
        (walk-state batch (λ i. []) keys bytes fit)
      ∙ ap
          (λ (z : LoadResult (Unit {0}) × List PartitionBatch × List Channel). (
            z.0,
            record (state (λ i. []) (keys + length batch) (bytes + value_bytes batch)) {
              sub_batches = z.1;
            },
            z.2,
          ))
          (send_batches-list_from (λ i. [] ++ routed_to i batch) q 0 n)

  scatter_batches-state :
      (batches : List (List (Bytes × Bytes))) (q : ℕ → List PartitionBatch) (keys bytes : ℕ)
      → All (AllFit max) batches
      → (keys' : ℕ) × (bytes' : ℕ) × (scatter_batches xxh64 batches
            (state (λ i. []) keys bytes)
            (list_from (λ i. some (q i)) 0 n)
          ≡ (
            loaded tt,
            state (λ i. []) keys' bytes',
            list_from (λ i. some (queue_of i batches (q i))) 0 n,
          ))
        × (keys' ≡ keys + length (flatten batches))
        × (bytes' ≡ bytes + value_bytes (flatten batches))
  unfolding scatter_batches queue_of flatten value_bytes
  scatter_batches-state [] q keys bytes fit = (keys, bytes, refl, omega arith, omega arith)
  scatter_batches-state (batch ∷ batches) q keys bytes fit =
      let sent = scatter_batch-state batch q keys bytes fit.0 in
      let (keys', bytes', run, e, e') =
        scatter_batches-state batches (λ i. push_batch (q i) (routed_to i batch))
          (keys + length batch) (bytes + value_bytes batch) fit.1 in
      (
        keys',
        bytes',
        ap (and_batches (scatter_batches xxh64 batches)) sent ∙ run,
        omega (arith, e, length-append batch (flatten batches)),
        omega (arith, e', value_bytes-append batch (flatten batches)),
      )

  -- The records of a source reach the channels of their partitions. For a layout of `n` partitions
  -- and batches whose values are within the loader's limit, a fresh fan-out sends all of them: it
  -- ends without an error and with empty buffers, the channel of each partition has the records
  -- whose keys route to it, in the order of the source, and the counters are the number of records
  -- and the bytes of their values.
  pub scatter_batches-routed_to :
      (batches : List (List (Bytes × Bytes)))
      → All (AllFit max) batches
      → (f : Fanout) × (queues : ℕ → List PartitionBatch) × (scatter_batches xxh64 batches
            (fanout layout max)
            (new_channels layout)
          ≡ (loaded tt, f, list_from (λ i. some (queues i)) 0 n))
        × ((i : ℕ) → flatten (queues i) ≡ routed_to i (flatten batches))
        × (f.sub_batches ≡ replicate n [])
        × (f.n_keys ≡ length (flatten batches))
        × (f.data_bytes ≡ value_bytes (flatten batches))
  unfolding fanout new_channels flatten
  scatter_batches-routed_to batches fit =
      let (keys, bytes, run, e, e') = scatter_batches-state batches (λ i. []) 0 0 fit in
      let count : layout.n_partitions ≡ n = (new_fields made).0 in
      let empty : list_from {A = PartitionBatch} (λ i. []) 0 n ≡ replicate layout.n_partitions [] =
        list_from-replicate [] 0 n ∙ ap (λ z. replicate z []) (sym count) in
      let open_channels : list_from {A = Channel} (λ i. some []) 0 n
          ≡ replicate layout.n_partitions (some []) =
        list_from-replicate (some []) 0 n ∙ ap (λ z. replicate z (some [])) (sym count) in
      (
        state (λ i. []) keys bytes,
        λ i. queue_of i batches [],
        sym (
              ap
                (λ z.
                  scatter_batches xxh64 batches (record (state (λ i. []) 0 0) { sub_batches = z })
                    (list_from (λ i. some []) 0 n))
                empty
              ∙ ap (scatter_batches xxh64 batches (fanout layout max)) open_channels)
            ∙ run,
        λ i. flatten-queue_of i batches [],
        list_from-replicate [] 0 n,
        e ∙ omega arith,
        e' ∙ omega arith,
      )
