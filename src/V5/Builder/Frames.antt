-- ===== src/V5/Builder/Frames.antt =====
-- The frames that an appender writes are the frames that the readers of the arrival log see.
use mcfreeze.Base.{ℕ, zero, suc, ◌+◌, ◌%◌, ◌^◌, ◌≤◌, ◌<◌, ◌≡◌, refl, sym, ap, ◌∙◌}
use mcfreeze.Base.{List, [], ◌∷◌, ◌++◌, map, arith, Bytes}
use mcfreeze.Base.{append_assoc, All, length, length-append, slice, slice-middle}
use mcfreeze.Base.{slice-second, slice-third}
use mcfreeze.Base.Words.{to_le_bytes, from_le_bytes, length-to_le_bytes, from_le_bytes-to_le_bytes}
use mcfreeze.Error.{ok}
use mcfreeze.V5.Block.{max_value_len}
use mcfreeze.V5.Builder.Arrival.{frame_bytes, FrameRef, parse_frames_loop, parse_frames}
use mcfreeze.V5.Builder.Arrival.{frame_header, frame_len}

pub record Frame : Type 0 where
  pub fp : ℕ
  pub vfp : ℕ
  pub value : Bytes

abbrev pub IsFrame : Frame → Type 0
IsFrame f = (f.fp < 2 ^ 64) × (f.vfp < 2 ^ 64) × (length f.value ≤ max_value_len)

unfoldable pub frame : Frame → Bytes
frame f = frame_bytes f.fp f.vfp f.value

-- The bytes of a log.
unfoldable pub log : List Frame → Bytes
log [] = []
log (f ∷ fs) = frame f ++ log fs

abbrev pub size : Frame → ℕ
size f = frame_header + length f.value

pub length-frame : (f : Frame) → length (frame f) ≡ size f
unfolding frame frame_bytes
length-frame f = omega (
  arith,
  length-append (to_le_bytes 8 f.fp)
      (to_le_bytes 8 f.vfp ++ (to_le_bytes 4 (length f.value % 2 ^ 32) ++ f.value)),
  length-append (to_le_bytes 8 f.vfp) (to_le_bytes 4 (length f.value % 2 ^ 32) ++ f.value),
  length-append (to_le_bytes 4 (length f.value % 2 ^ 32)) f.value,
  length-to_le_bytes 8 f.fp,
  length-to_le_bytes 8 f.vfp,
  length-to_le_bytes 4 (length f.value % 2 ^ 32),
)

-- What a reference stands for in its buffer.
unfoldable pub view : Bytes → FrameRef → Frame
view buf r = record { fp = r.fp; vfp = r.vfp; value = slice r.start (r.start + r.len) buf }

-- The reference to a frame at a place.
unfoldable pub ref_at : ℕ → Frame → FrameRef
ref_at pos f = record { fp = f.fp; vfp = f.vfp; start = pos + frame_header; len = length f.value }

unfoldable pub refs_from : ℕ → List Frame → List FrameRef
refs_from pos [] = []
refs_from pos (f ∷ fs) = ref_at pos f ∷ refs_from (pos + size f) fs

-- The four fields of a frame in a buffer.
pub frame_fields :
    (pre post : Bytes) (f : Frame) (pos : ℕ)
    → IsFrame f
    → pos ≡ length pre
    → (let buf = pre ++ (frame f ++ post) in
        (from_le_bytes (slice pos (pos + 8) buf) ≡ f.fp)
        × (from_le_bytes (slice (pos + 8) (pos + 16) buf) ≡ f.vfp)
        × (frame_len buf pos ≡ length f.value)
        × (slice (pos + 20) (pos + 20 + length f.value) buf ≡ f.value))
unfolding frame frame_bytes
frame_fields pre post f pos h e =
    let a = to_le_bytes 8 f.fp in
    let b = to_le_bytes 8 f.vfp in
    let c = to_le_bytes 4 (length f.value % 2 ^ 32) in
    let la = length-to_le_bytes 8 f.fp in
    let lb = length-to_le_bytes 8 f.vfp in
    let lc = length-to_le_bytes 4 (length f.value % 2 ^ 32) in
    let flat : pre ++ (frame f ++ post) ≡ pre ++ (a ++ (b ++ (c ++ (f.value ++ post)))) =
      simp append_assoc in
    (
      ap (λ buf. from_le_bytes (slice pos (pos + 8) buf)) flat
          ∙ ap from_le_bytes (
              slice-middle pos (pos + 8) pre a (b ++ (c ++ (f.value ++ post))) e
                (omega (arith, la)))
          ∙ from_le_bytes-to_le_bytes 8 f.fp (omega (arith, h.0)),
      ap (λ buf. from_le_bytes (slice (pos + 8) (pos + 16) buf)) flat
          ∙ ap from_le_bytes (
              slice-second (pos + 8) (pos + 16) pre a b (c ++ (f.value ++ post)) (omega (arith, la))
                (omega (arith, lb)))
          ∙ from_le_bytes-to_le_bytes 8 f.vfp (omega (arith, h.1)),
      ap (λ buf. frame_len buf pos) flat
          ∙ ap from_le_bytes (
              slice-third (pos + 16) (pos + 20) pre a b c (f.value ++ post) (omega (arith, la, lb))
                (omega (arith, lc)))
          ∙ from_le_bytes-to_le_bytes 4 (length f.value % 2 ^ 32) (omega arith)
          ∙ omega (arith, h.2),
      ap (slice (pos + 20) (pos + 20 + length f.value))
            (flat ∙ sym (append_assoc pre a (b ++ (c ++ (f.value ++ post)))))
          ∙ slice-third (pos + 20) (pos + 20 + length f.value) (pre ++ a) b c f.value post
              (omega (arith, la, lb, lc, length-append pre a)) (omega arith),
    )

pub length-log-ge : (fs : List Frame) → length fs ≤ length (log fs)
unfolding log
length-log-ge [] = omega arith
length-log-ge (f ∷ fs) =
    omega (arith, length-log-ge fs, length-append (frame f) (log fs), length-frame f)

parse_frames_loop-log :
    (fs : List Frame) (pre : Bytes) (fuel : ℕ)
    → All IsFrame fs
    → length fs < fuel
    → parse_frames_loop fuel (pre ++ log fs) (length pre) ≡ ok (refs_from (length pre) fs)
unfolding parse_frames_loop log refs_from ref_at
parse_frames_loop-log fs pre zero h lt = absurd (omega arith)
parse_frames_loop-log [] pre (suc fuel) h lt = ground (arith, length-append pre [])
parse_frames_loop-log (f ∷ fs) pre (suc fuel) h lt =
    let buf = pre ++ (frame f ++ log fs) in
    let (efp, evfp, elen, evalue) = frame_fields pre (log fs) f (length pre) h.0 refl in
    let total = length-append pre (frame f ++ log fs) in
    let parts = length-append (frame f) (log fs) in
    let whole = length-frame f in
    let next : length (pre ++ frame f) ≡ length pre + 20 + length f.value =
      omega (arith, length-append pre (frame f), whole) in
    let rest : parse_frames_loop fuel buf (length pre + frame_header + length f.value)
        ≡ ok (refs_from (length pre + (frame_header + length f.value)) fs) =
      ap (λ b. parse_frames_loop fuel b (length pre + 20 + length f.value))
        (sym (append_assoc pre (frame f) (log fs)))
      ∙ ap (parse_frames_loop fuel ((pre ++ frame f) ++ log fs)) (sym next)
      ∙ parse_frames_loop-log fs (pre ++ frame f) fuel h.1 (omega arith)
      ∙ ap (λ n. ok (refs_from n fs)) (next ∙ omega arith) in
    ground (arith, efp, evfp, elen, rest, total, parts, whole)

-- Parsing a log of frames succeeds and gives a reference to each frame, in order.
pub parse_frames-log :
    (fs : List Frame) → All IsFrame fs → parse_frames (log fs) ≡ ok (refs_from 0 fs)
unfolding parse_frames
parse_frames-log fs h =
    parse_frames_loop-log fs [] (suc (length (log fs))) h (omega (arith, length-log-ge fs))

view-ref_at :
    (pre post : Bytes) (f : Frame)
    → IsFrame f
    → view (pre ++ (frame f ++ post)) (ref_at (length pre) f) ≡ f
unfolding view ref_at
view-ref_at pre post f h =
    let (efp, evfp, elen, evalue) = frame_fields pre post f (length pre) h refl in
    ap (λ v. record { fp = f.fp; vfp = f.vfp; value = v }) evalue

view-log :
    (fs : List Frame) (pre : Bytes)
    → All IsFrame fs
    → map (view (pre ++ log fs)) (refs_from (length pre) fs) ≡ fs
unfolding log refs_from
view-log [] pre h = refl
view-log (f ∷ fs) pre h =
    let next = length-append pre (frame f) ∙ ap (λ n. length pre + n) (length-frame f) in
    let rest : map (view (pre ++ (frame f ++ log fs))) (refs_from (length pre + size f) fs) ≡ fs =
      ap (λ b. map (view b) (refs_from (length pre + size f) fs))
        (sym (append_assoc pre (frame f) (log fs)))
      ∙ ap (λ n. map (view ((pre ++ frame f) ++ log fs)) (refs_from n fs)) (sym next)
      ∙ view-log fs (pre ++ frame f) h.1 in
    rw (view-ref_at pre (log fs) f h.0) (rw rest refl)

pub view-refs_from : (fs : List Frame) → All IsFrame fs → map (view (log fs)) (refs_from 0 fs) ≡ fs
view-refs_from fs h = view-log fs [] h
