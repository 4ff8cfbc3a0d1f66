-- ===== src/V5/Builder/Tiles.antt =====
-- Parsing an arrival log ends on every buffer, and cuts it into frames without gaps.
use mcfreeze.Base.{ℕ, zero, suc, ◌+◌, ◌-◌, ◌≤◌, ◌<◌, ◌≡◌, refl, List, [], ◌∷◌}
use mcfreeze.Base.{Bytes, length, slice, ltb, leb, Bool-cases, inl, inr, ◌⊎◌, arith}
use mcfreeze.Base.Words.{from_le_bytes}
use mcfreeze.Error.{Result, ok, err, io, IoError}
use mcfreeze.V5.Builder.Arrival.{FrameRef, parse_frames_loop, parse_frames, frame_header, frame_len}

-- The references cover a buffer from `pos` to its end: each begins where the one before ends, and
-- reads the fields of the header in front of its value.
abbrev pub Tiles : Bytes → ℕ → List FrameRef → Type 0
Tiles buf pos [] = pos ≡ length buf
Tiles buf pos (f ∷ fs) =
    (f.start ≡ pos + frame_header)
    × (f.fp ≡ from_le_bytes (slice pos (pos + 8) buf))
    × (f.vfp ≡ from_le_bytes (slice (pos + 8) (pos + 16) buf))
    × (f.len ≡ frame_len buf pos)
    × Tiles buf (f.start + f.len) fs

abbrev IsParsed : Bytes → ℕ → Result (List FrameRef) → Type 0
IsParsed buf pos r =
    ((fs : List FrameRef) × (r ≡ ok fs) × Tiles buf pos fs) ⊎ (r ≡ err (io IoError.unexpected_eof))

parse_frames_loop-IsParsed :
    (fuel : ℕ) (buf : Bytes) (pos : ℕ)
    → pos ≤ length buf
    → length buf - pos < fuel
    → IsParsed buf pos (parse_frames_loop fuel buf pos)
unfolding parse_frames_loop
parse_frames_loop-IsParsed zero buf pos h lt = absurd (omega arith)
parse_frames_loop-IsParsed (suc fuel) buf pos h lt =
    let len = frame_len buf pos in
    elim (Bool-cases (leb (length buf) pos)) [
      | inl done ↦ inl ([], rw done refl, ground (arith, done))
      | inr more ↦ elim (Bool-cases (ltb (length buf) (pos + frame_header))) [
        | inl cut ↦ inr (rw (more, cut) refl)
        | inr headed ↦ elim (Bool-cases (ltb (length buf) (pos + frame_header + len))) [
          | inl cut ↦ inr (rw (more, headed, cut) refl)
          | inr whole ↦
              let rest =
                parse_frames_loop-IsParsed fuel buf (pos + frame_header + len)
                  (ground (arith, whole)) (ground (arith, whole, headed)) in
              let f : FrameRef = record {
                fp = from_le_bytes (slice pos (pos + 8) buf);
                vfp = from_le_bytes (slice (pos + 8) (pos + 16) buf);
                start = pos + frame_header;
                len = len;
              } in
              elim rest [
                | inl (fs, e, tiles) ↦
                    inl (f ∷ fs, rw (more, headed, whole, e) refl, (refl, refl, refl, refl, tiles))
                | inr e ↦ inr (rw (more, headed, whole, e) refl)
              ]
        ]
      ]
    ]

-- Parsing ends on every buffer, without a panic, in one of two ways: the whole buffer is cut into
-- consecutive frames, each with the fields of its header, or the error is an unexpected end of
-- file.
pub parse_frames-Tiles :
    (buf : Bytes)
    → ((fs : List FrameRef) × (parse_frames buf ≡ ok fs) × Tiles buf 0 fs)
      ⊎ (parse_frames buf ≡ err (io IoError.unexpected_eof))
unfolding parse_frames
parse_frames-Tiles buf =
    parse_frames_loop-IsParsed (suc (length buf)) buf 0 (omega arith) (omega arith)
