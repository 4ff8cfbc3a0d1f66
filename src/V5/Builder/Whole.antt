-- ===== src/V5/Builder/Whole.antt =====
-- A whole build of a partition: it ends well, and its files are those of the sorted frames.
use mcfreeze.Base.{ℕ, ◌+◌, ◌^◌, ◌≤◌, ◌<◌, ◌≡◌, ◌≢◌, refl, sym, ap, ◌∙◌, List, [], ◌∷◌}
use mcfreeze.Base.{◌++◌, Option, none, some, length, Bytes, map, arith, subst, All}
use mcfreeze.Base.{◌&&◌, not, ◌==◌, String, ◌⊎◌, inl, inr, length-append, IsSorted, Bool-cases}
use mathlib.Core.List.{flatten, Permᴰ, map-append}
use mathlib.Core.List.Permᴰ
use mcfreeze.Error.{ok}
use mcfreeze.V5.Block.{max_value_len}
use mcfreeze.V5.Compress.{Zstd, Compressor}
use mcfreeze.V5.Compress.RoundTrip.{stored_bytes, compress-some}
use mcfreeze.V5.Sketch
use mcfreeze.V5.Builder.{Plan}
use mcfreeze.V5.Builder.Arrival.{FrameRef}
use mcfreeze.V5.Builder.Bounds.{bucket_count-Covers}
use mcfreeze.V5.Builder.Frames.{Frame, IsFrame, log, length-frame}
use mcfreeze.V5.Builder.Order.{IsOrdered, frame_fps, All-Perm}
use mcfreeze.V5.Builder.Partition.{compress_value, write_sketch, dedup, build_output}
use mcfreeze.V5.Builder.Partition.{partition_compressor, Output}
use mcfreeze.V5.Builder.Emitted.{Kept, heap_from, heap_part}
use mcfreeze.V5.Builder.Built.{IsKept, IsPlanned}
use mcfreeze.V5.Builder.Written.{IsWritten, emit_output-IsWritten, kept_fps}
use mcfreeze.V5.Builder.Partitioned.{IsSort, emitted, emitted-IsOrdered, split_arrival-log, keep}
use mcfreeze.V5.Builder.Partitioned.{bucket_files-ReadsAll, bucket_files}
use mcfreeze.V5.Builder.Dedup.{IsAscending, dedup-IsAscending}

-- The bytes of all values.
unfoldable pub total : List Frame → ℕ
total [] = 0
total (f ∷ fs) = length f.value + total fs

total-Perm : {xs ys : List Frame} → Permᴰ xs ys → total xs ≡ total ys
unfolding total
total-Perm Permᴰ.nil = refl
total-Perm (Permᴰ.cons e p) = omega (arith, total-Perm p, ap (λ f. length f.value) e)
total-Perm (Permᴰ.swap e e') =
    omega (arith, ap (λ f. length f.value) e, ap (λ f. length f.value) e')
total-Perm (Permᴰ.trans p q) = total-Perm p ∙ total-Perm q

total-log : (fs : List Frame) → total fs ≤ length (log fs)
unfolding total log
total-log [] = omega arith
total-log (f ∷ fs) = omega (arith, total-log fs, length-append _ (log fs), length-frame f)

flatten-map :
    {A B : Type 0} (f : A → B) (xss : List (List A))
    → flatten (map (map f) xss) ≡ map f (flatten xss)
unfolding flatten
flatten-map f [] = refl
flatten-map f (xs ∷ xss) =
    ap (λ zs. map f xs ++ zs) (flatten-map f xss) ∙ sym (map-append f xs (flatten xss))

compress_value-shorter :
    (xxh64 : Bytes → ℕ → ℕ) {Level CCtx DCtx : Type 0} (api : Zstd Level CCtx DCtx)
    (c : Option (Compressor CCtx)) (value : Bytes) (made : Option Bytes)
    → compress_value xxh64 api c value ≡ ok made
    → length (stored_bytes api value made) ≤ length value
unfolding compress_value
compress_value-shorter xxh64 api c value none h = omega arith
compress_value-shorter xxh64 api none value (some frame) h = cc
compress_value-shorter xxh64 api (some c) value (some frame) h =
    omega (arith, (compress-some api c value frame h).1)

-- The build's surroundings: a plan of the builder; a sort; a compressor that compresses every value
-- within the limits, `made` for short; and a sketch for every list of distinct fingerprints.
pub record CanBuild (xxh64 : Bytes → ℕ → ℕ) (sort : List FrameRef → List FrameRef)
    (try_from : List ℕ → String ⊎ (Bytes × Bytes)) {Level CCtx DCtx : Type 0}
    (api : Zstd Level CCtx DCtx) (level : Level) (plan : Plan) (dict : Option Bytes)
    (c : Option (Compressor CCtx)) (made : Bytes → Option Bytes) : Type 0 where
  pub sorts : IsSort sort
  pub planned : IsPlanned plan
  pub compressor : partition_compressor api level plan dict ≡ ok c
  pub makes :
      (value : Bytes)
      → length value ≤ max_value_len
      → compress_value xxh64 api c value ≡ ok (made value)
  pub tries :
      (fps : List ℕ)
      → IsAscending fps
      → (descriptor : Bytes) × (fingerprints : Bytes) × (try_from fps
          ≡ inr (descriptor, fingerprints))

module _ (xxh64 : Bytes → ℕ → ℕ) (sort : List FrameRef → List FrameRef)
    (try_from : List ℕ → String ⊎ (Bytes × Bytes)) {Level CCtx DCtx : Type 0}
    (api : Zstd Level CCtx DCtx) (level : Level) (plan : Plan) (dict : Option Bytes)
    (c : Option (Compressor CCtx)) (made : Bytes → Option Bytes)
    (can : CanBuild xxh64 sort try_from api level plan dict c made) where
  abbrev pub kept : Frame → Kept
  kept = keep xxh64 sort can.sorts api plan c made can.makes

  heap_from-le :
      (fs : List Frame)
      → All IsFrame fs
      → length (heap_from xxh64 api plan (map kept fs)) ≤ total fs
  unfolding heap_from total
  heap_from-le [] h = omega arith
  heap_from-le (f ∷ fs) h =
      let k = kept f in
      let less =
        compress_value-shorter xxh64 api c f.value (made f.value) (can.makes f.value h.0.2) in
      let part : length (heap_part xxh64 api plan k) ≤ length f.value = ground (arith, less) in
      omega (
        arith,
        heap_from-le fs h.1,
        part,
        length-append (heap_part xxh64 api plan k) (heap_from xxh64 api plan (map kept fs)),
      )

  kept-IsKept :
      (fs : List Frame)
      → All IsFrame fs
      → All (λ f. f.vfp ≢ 0) fs
      → All (IsKept xxh64 api plan) (map kept fs)
  kept-IsKept [] h nz = tt
  kept-IsKept (f ∷ fs) h nz =
      let less =
        compress_value-shorter xxh64 api c f.value (made f.value) (can.makes f.value h.0.2) in
      ((nz.0, h.0.1, omega (arith, less, h.0.2)), kept-IsKept fs h.1 nz.1)

  pub kept_fps-fps : (fs : List Frame) → kept_fps (map kept fs) ≡ frame_fps fs
  kept_fps-fps [] = refl
  kept_fps-fps (f ∷ fs) = ap (λ zs. f.fp ∷ zs) (kept_fps-fps fs)

  -- The sketch of sorted fingerprints, if the plan has one.
  abbrev pub IsSketch : List ℕ → Option Bytes → Type 0
  IsSketch fps sketch = write_sketch xxh64 try_from plan.sketch fps ≡ ok sketch

  has-IsSketch : (fps : List ℕ) → IsSorted fps → (sketch : Option Bytes) × IsSketch fps sketch
  unfolding write_sketch Sketch.build Sketch.serialize
  has-IsSketch fps s =
      let (d, f, made_of) = can.tries (dedup fps) (dedup-IsAscending fps s) in
      elim (Bool-cases (plan.sketch && not (length fps == 0))) [
        | inl some_of ↦
            (some (d ++ f), rw some_of (rw (made_of, Sketch.build, Sketch.serialize) refl))
        | inr none_of ↦ (none, rw none_of refl)
      ]

  -- A build of a log of frames ends well, whatever the target size of a radix bucket. There is an
  -- order of the frames by their fingerprints of which the blocks, the fences, the heap and the
  -- sketch are made, and `build.done` counts them. The plan is one of the builder, the compressor
  -- compresses every value within the limits, the filter can be made of distinct fingerprints, and
  -- the log has less than 2 ^ 64 bytes.
  pub build_output-IsWritten :
      (bucket_bytes : ℕ) (fs : List Frame)
      → All IsFrame fs
      → All (λ f. f.vfp ≢ 0) fs
      → length (log fs) < 2 ^ 64
      → (sorted : List Frame) × (sketch : Option Bytes) × (out : Output) × IsOrdered sorted fs
        × IsSketch (frame_fps sorted) sketch
        × (build_output xxh64 sort try_from api level plan dict bucket_bytes (log fs) ≡ ok out)
        × IsWritten xxh64 api plan (length (log fs)) (map kept sorted) sketch out
  unfolding build_output
  build_output-IsWritten bucket_bytes fs h nz room =
      let (k, le, buckets, _) = bucket_count-Covers (length (log fs)) bucket_bytes in
      let sorted = flatten (emitted sort can.sorts k fs) in
      let ordered = emitted-IsOrdered sort can.sorts k fs le h in
      let back = Permᴰ.symm ordered.1 in
      let h' = All-Perm IsFrame back h in
      let nz' = All-Perm (λ f. f.vfp ≢ 0) back nz in
      let (sketch, sk) = has-IsSketch (frame_fps sorted) ordered.0 in
      let kss = map (map kept) (emitted sort can.sorts k fs) in
      let flat : flatten kss ≡ map kept sorted = flatten-map kept (emitted sort can.sorts k fs) in
      let (out, ends, written) =
        emit_output-IsWritten xxh64 api plan sort try_from level c (length (log fs))
          (bucket_files k fs) kss sketch can.planned
          (subst (All (IsKept xxh64 api plan)) (sym flat) (kept-IsKept sorted h' nz'))
          (subst (λ ks. length (heap_from xxh64 api plan ks) < 2 ^ 64) (sym flat)
            (omega (arith, heap_from-le sorted h', total-Perm ordered.1, total-log fs)))
          (bucket_files-ReadsAll xxh64 sort can.sorts api plan c made can.makes k fs h)
          (subst (λ ks. IsSketch (kept_fps ks) sketch) (sym flat)
            (subst (λ fps. IsSketch fps sketch) (sym (kept_fps-fps sorted)) sk)) in
      (
        sorted,
        sketch,
        out,
        ordered,
        sk,
        rw buckets (rw (split_arrival-log k fs le h) (rw can.compressor ends)),
        subst (λ ks. IsWritten xxh64 api plan (length (log fs)) ks sketch out) flat written,
      )
