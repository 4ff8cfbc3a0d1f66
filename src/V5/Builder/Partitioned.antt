-- ===== src/V5/Builder/Partitioned.antt =====
-- From an arrival log to the sorted entries of its partition.
use mcfreeze.Base.{ℕ, zero, suc, ◌-◌, ◌^◌, ◌≤◌, ◌≡◌, refl, sym, ap, List, []}
use mcfreeze.Base.{◌∷◌, false, Option, length, Bytes, map, arith, subst}
use mcfreeze.Base.{All, append-nil, ◌==◌, IsSorted}
use mathlib.Core.List.{flatten, Permᴰ}
use mathlib.Core.List.Permᴰ
use native.Mathlib.Nat.{pow-suc, one-le-pow}
use mcfreeze.Error.{ok}
use mcfreeze.V5.Fence.{range_from}
use mcfreeze.V5.Compress.{Zstd, Compressor}
use mcfreeze.V5.Block.{max_value_len}
use mcfreeze.V5.Builder.{Plan}
use mcfreeze.V5.Builder.Arrival.{FrameRef, parse_frames}
use mcfreeze.V5.Builder.Frames.{Frame, IsFrame, log, view, refs_from, parse_frames-log}
use mcfreeze.V5.Builder.Frames.{view-refs_from}
use mcfreeze.V5.Builder.Radix.{bucket, scatter_to_buckets-log}
use mcfreeze.V5.Builder.Order.{IsOrdered, frame_fps, sorted_buckets-IsOrdered}
use mcfreeze.V5.Builder.Order.{bucket-IsFrame, All-Perm}
use mcfreeze.V5.Builder.Partition.{compress_value, split_arrival}
use mcfreeze.V5.Builder.Emitted.{Kept, Reads}
use mcfreeze.V5.Builder.Built.{ReadsAll}

-- What `sort_unstable_by_key` promises: the same references, in the order of their fingerprints.
abbrev pub IsSort : (List FrameRef → List FrameRef) → Type 0
IsSort sort = (fs : List FrameRef) → IsSorted (map (λ f. f.fp) (sort fs)) × Permᴰ (sort fs) fs

module _ (sort : List FrameRef → List FrameRef) (sorts : IsSort sort) where
  -- The frames of a bucket file in the order in which they are emitted.
  abbrev pub order : List Frame → List Frame
  order fs = map (view (log fs)) (sort (refs_from 0 fs))

  fps-view :
      (buf : Bytes) (refs : List FrameRef) → frame_fps (map (view buf) refs) ≡ map (λ f. f.fp) refs
  unfolding view
  fps-view buf [] = refl
  fps-view buf (f ∷ refs) = ap (λ xs. f.fp ∷ xs) (fps-view buf refs)

  order-IsOrdered : (fs : List Frame) → All IsFrame fs → IsOrdered (order fs) fs
  order-IsOrdered fs h =
      let s = sorts (refs_from 0 fs) in
      (
        subst IsSorted (sym (fps-view (log fs) (sort (refs_from 0 fs)))) s.0,
        subst (λ zs. Permᴰ (order fs) zs) (view-refs_from fs h) (Permᴰ.map (view (log fs)) s.1),
      )

  -- All frames of a log in the order in which they are emitted, for `2 ^ k` buckets.
  abbrev pub emitted : ℕ → List Frame → List (List Frame)
  emitted zero fs = order fs ∷ []
  emitted (suc k) fs = map (λ i. order (bucket (64 - suc k) i fs)) (range_from 0 (2 ^ suc k))

  pub emitted-IsOrdered :
      (k : ℕ) (fs : List Frame) → k ≤ 6 → All IsFrame fs → IsOrdered (flatten (emitted k fs)) fs
  unfolding flatten
  emitted-IsOrdered zero fs h fr =
      subst (λ zs. IsOrdered zs fs) (sym (append-nil (order fs))) (order-IsOrdered fs fr)
  emitted-IsOrdered (suc k) fs h fr =
      sorted_buckets-IsOrdered order (suc k) fs
        (λ i. order-IsOrdered (bucket (64 - suc k) i fs) (bucket-IsFrame (64 - suc k) i fs fr))
        (omega arith) fr

-- The files that `split_arrival` makes for `2 ^ k` buckets.
abbrev pub bucket_files : ℕ → List Frame → List Bytes
bucket_files zero fs = log fs ∷ []
bucket_files (suc k) fs = map (λ i. log (bucket (64 - suc k) i fs)) (range_from 0 (2 ^ suc k))

pub split_arrival-log :
    (k : ℕ) (fs : List Frame)
    → k ≤ 6
    → All IsFrame fs
    → split_arrival (log fs) (2 ^ k) ≡ ok (bucket_files k fs)
unfolding split_arrival
split_arrival-log zero fs h fr = refl
split_arrival-log (suc k) fs h fr =
    let many : (2 ^ suc k == 1) ≡ false =
      ground (arith, pow-suc 2 k, one-le-pow k 2 (omega arith)) in
    rw (many, split_arrival) (scatter_to_buckets-log (suc k) fs (omega arith) fr)

module _ (xxh64 : Bytes → ℕ → ℕ) (sort : List FrameRef → List FrameRef) (sorts : IsSort sort)
    {Level CCtx DCtx : Type 0} (api : Zstd Level CCtx DCtx) (plan : Plan)
    (c : Option (Compressor CCtx)) (made : Bytes → Option Bytes)
    (makes : (value : Bytes)
      → length value ≤ max_value_len
      → compress_value xxh64 api c value ≡ ok (made value)) where
  abbrev pub keep : Frame → Kept
  keep f = record { source = f; made = made f.value }

  Reads-keep :
      (buf : Bytes) (refs : List FrameRef)
      → All IsFrame (map (view buf) refs)
      → Reads xxh64 api plan c buf refs (map keep (map (view buf) refs))
  Reads-keep buf [] h = tt
  Reads-keep buf (f ∷ refs) h = (refl, makes (view buf f).value h.0.2, Reads-keep buf refs h.1)

  Reads-bucket :
      (fs : List Frame)
      → All IsFrame fs
      → (refs : List FrameRef) × (parse_frames (log fs) ≡ ok refs)
        × Reads xxh64 api plan c (log fs) (sort refs) (map keep (order sort sorts fs))
  Reads-bucket fs h = (
    refs_from 0 fs,
    parse_frames-log fs h,
    Reads-keep (log fs) (sort (refs_from 0 fs))
        (All-Perm IsFrame (Permᴰ.symm (order-IsOrdered sort sorts fs h).1) h),
  )

  reads_buckets :
      (shift s n : ℕ) (fs : List Frame)
      → All IsFrame fs
      → ReadsAll xxh64 sort api plan c
          (map (λ i. log (bucket shift i fs)) (range_from s n))
          (map (map keep) (map (λ i. order sort sorts (bucket shift i fs)) (range_from s n)))
  unfolding range_from
  reads_buckets shift s zero fs h = tt
  reads_buckets shift s (suc n) fs h = (
    Reads-bucket (bucket shift s fs) (bucket-IsFrame shift s fs h),
    reads_buckets shift (suc s) n fs h,
  )

  pub bucket_files-ReadsAll :
      (k : ℕ) (fs : List Frame)
      → All IsFrame fs
      → ReadsAll xxh64 sort api plan c
          (bucket_files k fs)
          (map (map keep) (emitted sort sorts k fs))
  bucket_files-ReadsAll zero fs h = (Reads-bucket fs h, tt)
  bucket_files-ReadsAll (suc k) fs h = reads_buckets (64 - suc k) 0 (2 ^ suc k) fs h
