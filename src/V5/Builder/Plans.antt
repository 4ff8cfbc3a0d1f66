-- ===== src/V5/Builder/Plans.antt =====
-- A plan is decided once: whoever asks again gets it.
use mcfreeze.Base.{ℕ, ◌/◌, ◌≡◌, refl, sym, ap, ◌∙◌, List, [], ◌∷◌, Option, none, some}
use mcfreeze.Base.{Bytes, ◌⊎◌, inl, inr, length, ltb, if◌then◌else◌, arith, subst}
use mcfreeze.Error.{IoError, Result, ok, >>=-eq-ok}
use mcfreeze.V5.Block.{encoded_len}
use mcfreeze.V5.Compress.{Zstd, Compressor, compress, Mode, mode_none, mode_zstd, mode_zstd_dict}
use mcfreeze.V5.Compress.{verify_dict, new_compressor}
use mcfreeze.V5.Compress.RoundTrip.{stored_bytes}
use mcfreeze.V5.Builder.{Plan}
use mcfreeze.V5.Builder.Sizes.{count_in, bit_len, hist_buckets}
use mcfreeze.Base.{replicate}
use mcfreeze.V5.Builder.Partition.{and_then-eq-ok, ◌⨾◌}
use mcfreeze.V5.Builder.Planning.{Root, V5Builder, load_dict, measure, take_dict, train}
use mcfreeze.V5.Builder.Planning.{plan_compression, plan_sizes, write_plan, derive_plan, plan_of}
use mcfreeze.V5.Builder.Planning.{load_or_derive, block_size_of}
use mcfreeze.V5.Builder.Planning.{sample_pool, merge_stats, lift}

ok-fst :
    {A S : Type 0} (a a' : A) (s s' : S)
    → Path (Result A × S) (ok a, s) (ok a', s')
    → (a ≡ a') × (s ≡ s')
ok-fst a a' s s' h = (cc, cc)

module _ (xxh64 : Bytes → ℕ → ℕ) {Level CCtx DCtx : Type 0} (api : Zstd Level CCtx DCtx)
    (level : Level) (from_samples : List Bytes → ℕ → IoError ⊎ Bytes) where
  -- The dictionary that a plan names is there.
  abbrev pub HasDict : Option ℕ → Root → Type 0
  HasDict checksum root = (dict : Option Bytes) × (load_dict xxh64 checksum root.dict_bin ≡ ok dict)

  no_dict :
      (checksum : Option ℕ) (dict_bin : Option Bytes)
      → checksum ≡ none
      → load_dict xxh64 checksum dict_bin ≡ ok none
  unfolding load_dict
  no_dict checksum dict_bin h = ap (λ c. load_dict xxh64 c dict_bin) h

  measure-dict_checksum :
      (c : Compressor CCtx) (vs : List Bytes) (plan : Plan) (hist : List ℕ) (p : Plan × List ℕ)
      → measure xxh64 api level from_samples c vs plan hist ≡ ok p
      → p.0.dict_checksum ≡ plan.dict_checksum
  unfolding measure
  measure-dict_checksum c [] plan hist p h =
      let k : Path (Result (Plan × List ℕ)) (ok (plan, hist)) (ok p) = h in
      let same : p ≡ (plan, hist) = cc in ap (λ (q : Plan × List ℕ). q.0.dict_checksum) same
  measure-dict_checksum c (v ∷ vs) plan hist p h =
      let (frame, _, h1) = >>=-eq-ok (compress api c v) _ h in
      let (hist', _, h2) =
        >>=-eq-ok (count_in (bit_len 64 (encoded_len (length (stored_bytes api v frame)))) hist) _
          h1 in
      measure-dict_checksum c vs _ hist' p h2

  take_dict-HasDict :
      (t : IoError ⊎ Bytes) (plan : Plan) (root : Root)
      → plan.dict_checksum ≡ none
      → HasDict (take_dict xxh64 t plan root).0.0.dict_checksum (take_dict xxh64 t plan root).1
  unfolding take_dict load_dict verify_dict
  take_dict-HasDict (inl e) plan root h = (none, no_dict plan.dict_checksum root.dict_bin h)
  take_dict-HasDict (inr bytes) plan root h = (some bytes, ground arith)

  train-HasDict :
      (mode : Mode) (samples : List Bytes) (plan : Plan) (root : Root)
      → plan.dict_checksum ≡ none
      → (let t = train xxh64 api level from_samples mode samples plan root in
          HasDict t.0.0.dict_checksum t.1)
  unfolding train load_dict
  train-HasDict mode_none samples plan root h = (none, no_dict plan.dict_checksum root.dict_bin h)
  train-HasDict mode_zstd samples plan root h = (none, no_dict plan.dict_checksum root.dict_bin h)
  train-HasDict mode_zstd_dict samples plan root h = take_dict-HasDict _ plan root h

  plan_compression-HasDict :
      (mode : Mode) (plan : Plan) (root root' : Root) (p : Plan × List ℕ)
      → plan.dict_checksum ≡ none
      → plan_compression xxh64 api level from_samples mode plan root ≡ (ok p, root')
      → HasDict p.0.dict_checksum root'
  unfolding plan_compression
  plan_compression-HasDict mode plan root root' p none_yet h =
      let (samples, r, e, h1) = and_then-eq-ok (lift (sample_pool root.dirs) root) _ p root' h in
      let plan1 : Plan = record plan { n_samples = length samples } in
      let t = train xxh64 api level from_samples mode samples plan1 r in
      let left : t.1 ≡ root' = ap (λ (q : Result (Plan × List ℕ) × Root). q.1) h1 in
      let (c, _, h2) =
        >>=-eq-ok (new_compressor api level t.0.1 t.0.0.min_compress_len) _
          (ap (λ (q : Result (Plan × List ℕ) × Root). q.0) h1) in
      let same = measure-dict_checksum c samples t.0.0 _ p h2 in
      subst (HasDict p.0.dict_checksum) left
        (subst (λ k. HasDict k t.1) (sym same) (train-HasDict mode samples plan1 r none_yet))

  sized :
      (mode : Mode) (hist : List ℕ) (plan : Plan) (root root' : Root) (p : Plan × List ℕ)
      → plan.dict_checksum ≡ none
      → (plan_compression xxh64 api level from_samples mode plan ⨾ λ q.
            λ r. (ok (q.0, if ltb 0 q.0.n_samples then q.1 else hist), r))
          root
        ≡ (ok p, root')
      → HasDict p.0.dict_checksum root'
  sized mode hist plan root root' p none_yet h =
      let (q, r, e, h1) =
        and_then-eq-ok (plan_compression xxh64 api level from_samples mode plan root) _ p root' h in
      let (same, left) = ok-fst _ p r root' h1 in
      subst (HasDict p.0.dict_checksum) left (
        subst (λ (z : Plan × List ℕ). HasDict z.0.dict_checksum r) same
          (plan_compression-HasDict mode plan root r q none_yet e))

  plan_sizes-HasDict :
      (mode : Mode) (hist : List ℕ) (plan : Plan) (root root' : Root) (p : Plan × List ℕ)
      → plan.dict_checksum ≡ none
      → plan_sizes xxh64 api level from_samples mode hist plan root ≡ (ok p, root')
      → HasDict p.0.dict_checksum root'
  unfolding plan_sizes
  plan_sizes-HasDict mode_none hist plan root root' p none_yet h =
      let (same, left) = ok-fst (plan, hist) p root root' h in
      subst (λ (z : Plan × List ℕ). HasDict z.0.dict_checksum root') same
        (none, no_dict plan.dict_checksum root'.dict_bin none_yet)
  plan_sizes-HasDict mode_zstd hist plan root root' p none_yet h =
      sized mode_zstd hist plan root root' p none_yet h
  plan_sizes-HasDict mode_zstd_dict hist plan root root' p none_yet h =
      sized mode_zstd_dict hist plan root root' p none_yet h

  -- A plan that stands on disk, with its dictionary.
  abbrev pub IsPinned : Plan → Root → Type 0
  IsPinned p root = (root.plan_file ≡ some p) × HasDict p.dict_checksum root

  write_plan-out :
      (override : Option ℕ) (q : Plan × List ℕ) (r root' : Root) (p : Plan)
      → write_plan xxh64 api level from_samples override q r ≡ (ok p, root')
      → (block_size : ℕ) × (block_size_of xxh64 api level from_samples override q.1 ≡ ok block_size)
        × (p ≡ record (q.0) { block_size = block_size; inline_threshold = block_size / 2 })
        × (root' ≡ record r { plan_file = some p })
  unfolding write_plan
  write_plan-out override q r root' p h =
      let (bs, r2, e, h2) =
        and_then-eq-ok (lift (block_size_of xxh64 api level from_samples override q.1) r) _ p root'
          h in
      let plan : Plan = record (q.0) { block_size = bs; inline_threshold = bs / 2 } in
      let k : Path (Result Plan × Root) (ok plan, record r2 { plan_file = some plan })
          (ok p, root') =
        h2 in
      let (same, left) = ok-fst plan p (record r2 { plan_file = some plan }) root' k in
      (
        bs,
        ap (λ (x : Result ℕ × Root). x.0) e,
        sym same,
        sym left
            ∙ ap (λ (x : Root). record x { plan_file = some plan })
                (sym (ap (λ (x : Result ℕ × Root). x.1) e))
            ∙ ap (λ (x : Plan). record r { plan_file = some x }) same,
      )

  -- What a plan that is derived satisfies: it is on disk with its dictionary, and its sizes are
  -- those of the block size that the configuration or a histogram gives.
  pub derive_plan-IsPinned :
      (b : V5Builder) (root root' : Root) (p : Plan)
      → derive_plan xxh64 api level from_samples b root ≡ (ok p, root')
      → IsPinned p root'
        × ((hist : List ℕ) × (block_size_of xxh64 api level from_samples b.block_size_override hist
              ≡ ok p.block_size))
        × (p.inline_threshold ≡ p.block_size / 2)
  unfolding derive_plan
  derive_plan-IsPinned b root root' p h =
      let (hist, r0, e0, h0) =
        and_then-eq-ok (lift (merge_stats root.dirs (replicate hist_buckets 0)) root) _ p root' h in
      let first : Plan = plan_of xxh64 api level from_samples b in
      let r : Root = record r0 { dict_bin = none } in
      let (q, r1, e1, h1) =
        and_then-eq-ok (plan_sizes xxh64 api level from_samples b.compression hist first r) _ p
          root' h0 in
      let (bs, e, same, left) = write_plan-out b.block_size_override q r1 root' p h1 in
      let (dict, loaded) = plan_sizes-HasDict b.compression hist first r r1 q refl e1 in
      (
        (
          ap (λ (x : Root). x.plan_file) left,
          (
            dict,
            ap (λ (x : Plan). load_dict xxh64 x.dict_checksum root'.dict_bin) same
                ∙ ap (λ (x : Root). load_dict xxh64 q.0.dict_checksum x.dict_bin) left
                ∙ loaded,
          ),
        ),
        (q.1, e ∙ ap ok (sym (ap (λ (x : Plan). x.block_size) same))),
        ap (λ (x : Plan). x.inline_threshold) same
            ∙ ap (λ n. n / 2) (sym (ap (λ (x : Plan). x.block_size) same)),
      )

  -- A plan that was obtained stands on disk with its dictionary.
  pub load_or_derive-IsPinned :
      (on_disk : Option Plan) (b : V5Builder) (root root' : Root) (p : Plan)
      → root.plan_file ≡ on_disk
      → load_or_derive xxh64 api level from_samples on_disk b root ≡ (ok p, root')
      → IsPinned p root'
  unfolding load_or_derive
  load_or_derive-IsPinned none b root root' p e h = (derive_plan-IsPinned b root root' p h).0
  load_or_derive-IsPinned (some q) b root root' p e h =
      let left : root ≡ root' = ap (λ (x : Result Plan × Root). x.1) h in
      let (dict, loaded, same) =
        >>=-eq-ok (load_dict xxh64 q.dict_checksum root.dict_bin) _
          (ap (λ (x : Result Plan × Root). x.0) h) in
      let same' : Path (Result Plan) (ok q) (ok p) = same in
      let q_p : q ≡ p = cc in
      subst (IsPinned p) left (subst (λ (x : Plan). IsPinned x root) q_p (e, (dict, loaded)))
