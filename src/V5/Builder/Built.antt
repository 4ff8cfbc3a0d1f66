-- ===== src/V5/Builder/Built.antt =====
-- The blocks, the heap and the counters of a partition that is built.
use mcfreeze.Base.{ℕ, ◌+◌, ◌%◌, ◌^◌, ◌≤◌, ◌<◌, ◌≡◌, refl, sym, ap, ◌∙◌, List, []}
use mcfreeze.Base.{◌∷◌, Option, length, Bytes, arith}
use mcfreeze.Base.{All, ◌/◌, length-append, Bool-cases}
use mcfreeze.Base.Words.{to_le_bytes, length-to_le_bytes}
use mcfreeze.V5.Block.{max_value_len, checksum32}
use mcfreeze.V5.Block.Encoding.{record_size, payload}
use mathlib.Core.List.{flatten}
use mcfreeze.Error.{Result, ok}
use mcfreeze.V5.Block.{Assembler}
use mcfreeze.V5.Block.Refine.{push_all, CanHold}
use mcfreeze.V5.Compress.{Zstd, Compressor}
use mcfreeze.V5.Builder.{Plan}
use mcfreeze.V5.Builder.Arrival.{FrameRef, parse_frames}
use mcfreeze.V5.Builder.Partition.{Emit, emit_buckets, emit_frames, ◌⨾◌, ⨾-ok}
use mcfreeze.V5.Builder.Emitted.{Kept, Reads, entries_from, heap_from, after_all, emit_frames-after}
use mcfreeze.V5.Builder.Emitted.{push_all-append, entries_from-append, after_all-append}
use mcfreeze.V5.Builder.Emitted.{stored, is_inline, record_of, heap_part}
use mcfreeze.V5.Builder.Emitted.{after_all-heap_offset, after_all-asm}
use mcfreeze.Base.{◌≢◌, inl, inr}

module _ (xxh64 : Bytes → ℕ → ℕ) (sort : List FrameRef → List FrameRef) {Level CCtx DCtx : Type 0}
    (api : Zstd Level CCtx DCtx) (plan : Plan) where
  -- Bucket files that parse, and in each the sorted frames with what compressing them gives.
  abbrev pub ReadsAll : Option (Compressor CCtx) → List Bytes → List (List Kept) → Type 0
  ReadsAll c [] [] = Unit {0}
  ReadsAll c [] (ks ∷ kss) = ⊥
  ReadsAll c (buf ∷ bufs) [] = ⊥
  ReadsAll c (buf ∷ bufs) (ks ∷ kss) =
      ((fs : List FrameRef) × (parse_frames buf ≡ ok fs) × Reads xxh64 api plan c buf (sort fs) ks)
      × ReadsAll c bufs kss

  emit_buckets-cons :
      (c : Option (Compressor CCtx)) (buf : Bytes) (bufs : List Bytes) (fs : List FrameRef)
      (st : Emit)
      → parse_frames buf ≡ ok fs
      → emit_buckets xxh64 api sort plan c (buf ∷ bufs) st
        ≡ (emit_frames xxh64 api plan c buf (sort fs) ⨾ λ _.
              emit_buckets xxh64 api sort plan c bufs)
            st
  unfolding emit_buckets
  emit_buckets-cons c buf bufs fs st h = rw (h, emit_buckets) refl

  pub emit_buckets-after :
      (c : Option (Compressor CCtx)) (bufs : List Bytes) (kss : List (List Kept)) (st : Emit)
      (asm : Assembler (List Bytes))
      → ReadsAll c bufs kss
      → push_all xxh64 (entries_from xxh64 api plan st.heap_offset (flatten kss)) st.asm
        ≡ (ok tt, asm)
      → emit_buckets xxh64 api sort plan c bufs st
        ≡ (ok tt, record (after_all xxh64 api plan (flatten kss) st) { asm = asm })
  unfolding emit_buckets flatten after_all entries_from push_all
  emit_buckets-after c [] [] st asm reads h =
      let same : Path (Result (Unit {0}) × Assembler (List Bytes)) (ok tt, st.asm) (ok tt, asm) =
        h in
      ap (λ r. (ok tt, record st { asm = r.1 })) same
  emit_buckets-after c [] (ks ∷ kss) st asm reads h = absurd reads
  emit_buckets-after c (buf ∷ bufs) [] st asm reads h = absurd reads
  emit_buckets-after c (buf ∷ bufs) (ks ∷ kss) st asm reads h =
      let (fs, parsed, here) = reads.0 in
      let o = st.heap_offset in
      let split = entries_from-append xxh64 api plan o ks (flatten kss) in
      let (mid, front, back) =
        push_all-append xxh64 api plan (entries_from xxh64 api plan o ks)
          (entries_from xxh64 api plan (o + length (heap_from xxh64 api plan ks)) (flatten kss))
          st.asm asm (ap (λ es. push_all xxh64 es st.asm) (sym split) ∙ h) in
      let moved = (after_all-heap_offset xxh64 api plan ks st).0 in
      let st1 : Emit = record (after_all xxh64 api plan ks st) { asm = mid } in
      let back' =
        ap (λ n. push_all xxh64 (entries_from xxh64 api plan n (flatten kss)) mid) moved ∙ back in
      emit_buckets-cons c buf bufs fs st parsed
      ∙ ⨾-ok (emit_frames xxh64 api plan c buf (sort fs))
          (λ _. emit_buckets xxh64 api sort plan c bufs) st st1 tt
          (emit_frames-after xxh64 api plan c buf (sort fs) ks st mid here front)
      ∙ emit_buckets-after c bufs kss st1 asm reads.1 back'
      ∙ ap (λ s. (ok tt, s))
          (after_all-asm xxh64 api plan (flatten kss) (after_all xxh64 api plan ks st) mid asm)
      ∙ ap (λ (s : Emit). (ok tt, record s { asm = asm }))
          (sym (after_all-append xxh64 api plan ks (flatten kss) st))

-- What a plan of the builder promises of its sizes.
abbrev pub IsPlanned : Plan → Type 0
IsPlanned plan =
    (4096 ≤ plan.block_size)
    × (plan.block_size < 2 ^ 32)
    × (plan.block_size % 8 ≡ 0)
    × (plan.inline_threshold ≡ plan.block_size / 2)

module _ (xxh64 : Bytes → ℕ → ℕ) {Level CCtx DCtx : Type 0} (api : Zstd Level CCtx DCtx)
    (plan : Plan) where
  -- A frame whose value is stored within the limits of a record.
  abbrev pub IsKept : Kept → Type 0
  IsKept k =
      (k.source.vfp ≢ 0)
      × (k.source.vfp < 2 ^ 64)
      × (length (stored xxh64 api plan k) ≤ max_value_len)

  record_of-CanHold :
      (offset : ℕ) (k : Kept)
      → IsPlanned plan
      → IsKept k
      → offset < 2 ^ 64
      → CanHold plan.block_size
          (record { fp = k.source.fp; rec = record_of xxh64 api plan offset k })
  unfolding record_size payload
  record_of-CanHold offset k p h lt = elim (Bool-cases (is_inline xxh64 api plan k)) [
    | inl small ↦
        let fits : length (stored xxh64 api plan k) % 2 ^ 32 ≤ plan.inline_threshold =
          ground (arith, small) in
        rw small ((h.0, h.1, h.2), omega (arith, fits, h.2, p.0, p.3))
    | inr large ↦
        let checksum : checksum32 xxh64 (stored xxh64 api plan k) < 2 ^ 32 =
          unfold checksum32 in omega arith in
        let le8 = length-to_le_bytes 8 offset in
        let le4 = length-to_le_bytes 4 (checksum32 xxh64 (stored xxh64 api plan k)) in
        rw large (
          (h.0, h.1, omega (arith, h.2), lt, checksum),
          omega (
            arith,
            p.0,
            le8,
            le4,
            length-append (to_le_bytes 8 offset)
                (to_le_bytes 4 (checksum32 xxh64 (stored xxh64 api plan k))),
          ),
        )
  ]

  pub entries_from-CanHold :
      (ks : List Kept) (offset : ℕ)
      → IsPlanned plan
      → All IsKept ks
      → offset + length (heap_from xxh64 api plan ks) < 2 ^ 64
      → All (CanHold plan.block_size) (entries_from xxh64 api plan offset ks)
  unfolding entries_from heap_from
  entries_from-CanHold [] offset p h lt = tt
  entries_from-CanHold (k ∷ ks) offset p h lt =
      let l = length-append (heap_part xxh64 api plan k) (heap_from xxh64 api plan ks) in
      (
        record_of-CanHold offset k p h.0 (omega (arith, l)),
        entries_from-CanHold ks (offset + length (heap_part xxh64 api plan k)) p h.1
            (omega (arith, l)),
      )
