-- ===== src/V5/Builder/Emitted.antt =====
-- The loops of `build_partition` push one entry for each frame: what they write, as a function of
-- the frames and of what compressing each gave.
use mcfreeze.Base.{ℕ, ◌+◌, ◌%◌, ◌^◌, ◌≡◌, refl, sym, ap, ◌∙◌, List, [], ◌∷◌, ◌++◌}
use mcfreeze.Base.{Bool, Option, leb, if◌then◌else◌, length}
use mcfreeze.Base.{Bytes, Bool-cases, inl, inr, arith, append_assoc, append-nil, length-append}
use mcfreeze.Error.{Result, ok, err, panic, stuck}
use mcfreeze.V5.Block.{Record, inline_record, stub_record, checksum32, push_inline}
use mcfreeze.V5.Block.{Assembler, Asm, ◌▹◌}
use mcfreeze.V5.Block.Pack.{Entry, push_record, collect}
use mcfreeze.V5.Block.Refine.{push_all}
use mcfreeze.V5.Compress.{Zstd, Compressor}
use mcfreeze.V5.Compress.RoundTrip.{stored_bytes, is_compressed}
use mcfreeze.V5.Builder.{Plan}
use mcfreeze.V5.Builder.Arrival.{FrameRef}
use mcfreeze.V5.Builder.Frames.{Frame, view}
use mcfreeze.V5.Builder.Partition.{Emit, compress_value, emit_stored, emit_value, emit_frame}
use mcfreeze.V5.Builder.Partition.{emit_frames}
use mcfreeze.V5.Builder.Partition.{with_asm, ⨾-ok}

-- A frame, and what compressing its value gave.
pub record Kept : Type 0 where
  pub source : Frame
  pub made : Option Bytes

sequence :
    (m : Asm (List Bytes) (Unit {0})) (next : Asm (List Bytes) (Unit {0}))
    (asm asm' : Assembler (List Bytes)) (run : Result (Unit {0}) × Assembler (List Bytes))
    → m asm ≡ run
    → (m ▹ λ _. next) asm ≡ (ok tt, asm')
    → (mid : Assembler (List Bytes)) × (run ≡ (ok tt, mid)) × (next mid ≡ (ok tt, asm'))
sequence m next asm asm' (ok _, s) e h = (s, refl, rw e at h)
sequence m next asm asm' (err x, s) e h =
    let k : Path (Result (Unit {0}) × Assembler (List Bytes)) (err x, s) (ok tt, asm') =
      rw e at h in
    cc
sequence m next asm asm' (panic, s) e h =
    let k : Path (Result (Unit {0}) × Assembler (List Bytes)) (panic, s) (ok tt, asm') =
      rw e at h in
    cc
sequence m next asm asm' (stuck, s) e h =
    let k : Path (Result (Unit {0}) × Assembler (List Bytes)) (stuck, s) (ok tt, asm') =
      rw e at h in
    cc

module _ (xxh64 : Bytes → ℕ → ℕ) {Level CCtx DCtx : Type 0} (api : Zstd Level CCtx DCtx)
    (plan : Plan) where
  abbrev pub stored : Kept → Bytes
  stored k = stored_bytes api k.source.value k.made

  -- A value goes into the block up to the plan's threshold, else into the heap.
  abbrev pub is_inline : Kept → Bool
  is_inline k = leb (length (stored k) % 2 ^ 32) plan.inline_threshold

  abbrev pub heap_part : Kept → Bytes
  heap_part k = if is_inline k then [] else stored k

  abbrev pub record_of : ℕ → Kept → Record
  record_of offset k =
      let flag = is_compressed api k.made in
      if is_inline k
      then inline_record k.source.vfp (stored k) flag
      else stub_record k.source.vfp
          (record {
            heap_offset = offset;
            stored_len = length (stored k) % 2 ^ 32;
            value_checksum = checksum32 xxh64 (stored k);
          })
          flag

  -- The entries of the frames in turn, for a heap that ends at `offset`.
  unfoldable pub entries_from : ℕ → List Kept → List Entry
  entries_from offset [] = []
  entries_from offset (k ∷ ks) =
      let e : Entry = record { fp = k.source.fp; rec = record_of offset k } in
      e ∷ entries_from (offset + length (heap_part k)) ks

  unfoldable pub heap_from : List Kept → Bytes
  heap_from [] = []
  heap_from (k ∷ ks) = heap_part k ++ heap_from ks

  -- The loop's variables after a frame, but for the assembler.
  abbrev pub after : Kept → Emit → Emit
  after k st =
      let flag = is_compressed api k.made in
      record {
        heap_out = st.heap_out ++ heap_part k;
        n_keys = st.n_keys + 1;
        n_stubs = if is_inline k then st.n_stubs else st.n_stubs + 1;
        heap_offset = st.heap_offset + length (heap_part k);
        value_bytes_raw = st.value_bytes_raw + length k.source.value;
        value_bytes_stored = st.value_bytes_stored + length (stored k);
        n_compressed = if flag then st.n_compressed + 1 else st.n_compressed;
        n_raw = if flag then st.n_raw else st.n_raw + 1;
        sketch_fps = if plan.sketch then st.sketch_fps ++ (k.source.fp ∷ []) else st.sketch_fps;
        asm = st.asm;
      }

  unfoldable pub after_all : List Kept → Emit → Emit
  after_all [] st = st
  after_all (k ∷ ks) st = after_all ks (after k st)

  emit_stored-after :
      (k : Kept) (st : Emit) (asm : Assembler (List Bytes))
      → push_record xxh64 collect k.source.fp (record_of st.heap_offset k) st.asm ≡ (ok tt, asm)
      → (let fps = if plan.sketch then st.sketch_fps ++ (k.source.fp ∷ []) else st.sketch_fps in
          emit_stored xxh64 api plan k.source.fp k.source.vfp k.source.value k.made
            (record st { sketch_fps = fps })
          ≡ (ok tt, record (after k st) { asm = asm }))
  unfolding emit_stored with_asm push_record
  emit_stored-after k st asm h = elim (Bool-cases (is_inline k)) [
    | inl small ↦
        let pushed : push_inline xxh64 collect k.source.fp k.source.vfp (stored k)
              (is_compressed api k.made) st.asm
            ≡ (ok tt, asm) =
          rw small at h in
        ground (arith, small, pushed, append-nil st.heap_out)
    | inr large ↦ ground (arith, large, h)
  ]

  -- The frames that references stand for in a buffer, with what compressing their values gives.
  abbrev pub Reads : Option (Compressor CCtx) → Bytes → List FrameRef → List Kept → Type 0
  Reads c buf [] [] = Unit {0}
  Reads c buf [] (k ∷ ks) = ⊥
  Reads c buf (f ∷ fs) [] = ⊥
  Reads c buf (f ∷ fs) (k ∷ ks) =
      (view buf f ≡ k.source)
      × (compress_value xxh64 api c k.source.value ≡ ok k.made)
      × Reads c buf fs ks

  emit_value-after :
      (c : Option (Compressor CCtx)) (k : Kept) (st : Emit) (asm : Assembler (List Bytes))
      → compress_value xxh64 api c k.source.value ≡ ok k.made
      → push_record xxh64 collect k.source.fp (record_of st.heap_offset k) st.asm ≡ (ok tt, asm)
      → emit_value xxh64 api plan c k.source.fp k.source.vfp k.source.value st
        ≡ (ok tt, record (after k st) { asm = asm })
  unfolding emit_value
  emit_value-after c k st asm made push = rw (made, emit_value) (emit_stored-after k st asm push)

  emit_frame-after :
      (c : Option (Compressor CCtx)) (buf : Bytes) (f : FrameRef) (k : Kept) (st : Emit)
      (asm : Assembler (List Bytes))
      → view buf f ≡ k.source
      → compress_value xxh64 api c k.source.value ≡ ok k.made
      → push_record xxh64 collect k.source.fp (record_of st.heap_offset k) st.asm ≡ (ok tt, asm)
      → emit_frame xxh64 api plan c buf f st ≡ (ok tt, record (after k st) { asm = asm })
  unfolding emit_frame view
  emit_frame-after c buf f k st asm seen made push =
      ap (λ (x : Frame). emit_value xxh64 api plan c x.fp x.vfp x.value st) seen
      ∙ emit_value-after c k st asm made push

  push_all-cons :
      (e : Entry) (es : List Entry) (asm asm' : Assembler (List Bytes))
      → push_all xxh64 (e ∷ es) asm ≡ (ok tt, asm')
      → (mid : Assembler (List Bytes)) × (push_record xxh64 collect e.fp e.rec asm ≡ (ok tt, mid))
        × (push_all xxh64 es mid ≡ (ok tt, asm'))
  unfolding push_all
  push_all-cons e es asm asm' h =
      sequence (push_record xxh64 collect e.fp e.rec) (push_all xxh64 es) asm asm'
        (push_record xxh64 collect e.fp e.rec asm) refl h

  pub after_all-asm :
      (ks : List Kept) (st : Emit) (mid asm : Assembler (List Bytes))
      → Path Emit
          (record (after_all ks (record st { asm = mid })) { asm = asm })
          (record (after_all ks st) { asm = asm })
  unfolding after_all
  after_all-asm [] st mid asm = refl
  after_all-asm (k ∷ ks) st mid asm = after_all-asm ks (after k st) mid asm

  pub emit_frames-after :
      (c : Option (Compressor CCtx)) (buf : Bytes) (fs : List FrameRef) (ks : List Kept) (st : Emit)
      (asm : Assembler (List Bytes))
      → Reads c buf fs ks
      → push_all xxh64 (entries_from st.heap_offset ks) st.asm ≡ (ok tt, asm)
      → emit_frames xxh64 api plan c buf fs st ≡ (ok tt, record (after_all ks st) { asm = asm })
  unfolding emit_frames after_all entries_from
  emit_frames-after c buf [] [] st asm reads h =
      let same : Path (Result (Unit {0}) × Assembler (List Bytes)) (ok tt, st.asm) (ok tt, asm) =
        unfold push_all in h in
      ap (λ r. (ok tt, record st { asm = r.1 })) same
  emit_frames-after c buf [] (k ∷ ks) st asm reads h = absurd reads
  emit_frames-after c buf (f ∷ fs) [] st asm reads h = absurd reads
  emit_frames-after c buf (f ∷ fs) (k ∷ ks) st asm reads h =
      let e : Entry = record { fp = k.source.fp; rec = record_of st.heap_offset k } in
      let (mid, first, rest) =
        push_all-cons e (entries_from (st.heap_offset + length (heap_part k)) ks) st.asm asm h in
      ⨾-ok (emit_frame xxh64 api plan c buf f) (λ _. emit_frames xxh64 api plan c buf fs) st
        (record (after k st) { asm = mid }) tt
        (emit_frame-after c buf f k st mid reads.0 reads.1 first)
      ∙ emit_frames-after c buf fs ks (record (after k st) { asm = mid }) asm reads.2 rest
      ∙ ap (λ s. (ok tt, s)) (after_all-asm ks (after k st) mid asm)

  pub push_all-append :
      (es es' : List Entry) (asm asm' : Assembler (List Bytes))
      → push_all xxh64 (es ++ es') asm ≡ (ok tt, asm')
      → (mid : Assembler (List Bytes)) × (push_all xxh64 es asm ≡ (ok tt, mid))
        × (push_all xxh64 es' mid ≡ (ok tt, asm'))
  unfolding push_all
  push_all-append [] es' asm asm' h = (asm, refl, h)
  push_all-append (e ∷ es) es' asm asm' h =
      let (mid, first, rest) = push_all-cons e (es ++ es') asm asm' h in
      let (end, front, back) = push_all-append es es' mid asm' rest in (end, rw first front, back)

  pub entries_from-append :
      (offset : ℕ) (ks ks' : List Kept)
      → entries_from offset (ks ++ ks')
        ≡ entries_from offset ks ++ entries_from (offset + length (heap_from ks)) ks'
  unfolding entries_from heap_from
  entries_from-append offset [] ks' = ap (λ n. entries_from n ks') (omega arith)
  entries_from-append offset (k ∷ ks) ks' =
      let e : Entry = record { fp = k.source.fp; rec = record_of offset k } in
      ap (λ es. e ∷ es)
        (entries_from-append (offset + length (heap_part k)) ks ks'
          ∙ ap (λ n. entries_from (offset + length (heap_part k)) ks ++ entries_from n ks')
              (omega (arith, length-append (heap_part k) (heap_from ks))))

  pub after_all-append :
      (ks ks' : List Kept) (st : Emit) → after_all (ks ++ ks') st ≡ after_all ks' (after_all ks st)
  unfolding after_all
  after_all-append [] ks' st = refl
  after_all-append (k ∷ ks) ks' st = after_all-append ks ks' (after k st)

  pub after_all-heap_offset :
      (ks : List Kept) (st : Emit)
      → ((after_all ks st).heap_offset ≡ st.heap_offset + length (heap_from ks))
        × ((after_all ks st).heap_out ≡ st.heap_out ++ heap_from ks)
  unfolding after_all heap_from
  after_all-heap_offset [] st = (omega arith, sym (append-nil st.heap_out))
  after_all-heap_offset (k ∷ ks) st =
      let (o, h) = after_all-heap_offset ks (after k st) in
      (
        omega (arith, o, length-append (heap_part k) (heap_from ks)),
        h ∙ append_assoc st.heap_out (heap_part k) (heap_from ks),
      )
