-- ===== src/V5/Builder/Radix.antt =====
-- The radix pass: what `scatter_to_buckets` writes to each bucket file.
use native.Mathlib.Nat.{pow-suc, pow-succ', mul_assoc, one-le-pow, div-lt_iff_lt-mul}
use mcfreeze.Base.{ℕ, zero, suc, ◌+◌, ◌-◌, ◌*◌, ◌/◌, ◌%◌, ◌^◌, ◌≤◌, ◌<◌, ◌≡◌, refl, sym, ap, ◌∙◌}
use mcfreeze.Base.{List, [], ◌∷◌, ◌++◌, map, arith, Bytes, true, false, some}
use mcfreeze.Base.{append_assoc, append-nil, All, length, length-append, ◌==◌, if◌then◌else◌}
use mcfreeze.Base.{Bool-cases, inl, inr, set, get_or, replicate, take-append, drop-append}
use mcfreeze.Base.{lt→ltb, le→ltb, slice}
use mcfreeze.Base.{slice-middle, slice-third}
use mcfreeze.Base.Words.{to_le_bytes, from_le_bytes, length-to_le_bytes, from_le_bytes-to_le_bytes}
use mcfreeze.Error.{ok}
use mcfreeze.V5.Fence.{range_from}
use mcfreeze.V5.Builder.Arrival.{frame_bytes, frame_header, read_exact_or_eof, write_bucket}
use mcfreeze.V5.Builder.Arrival.{scatter_frame, scatter_loop, scatter_to_buckets, trailing_zeros}
use mcfreeze.V5.Builder.Frames.{Frame, IsFrame, frame, log}
use mcfreeze.V5.Builder.Frames.{length-log-ge}

-- The frames of a bucket, in the order of their arrival.
unfoldable pub bucket : ℕ → ℕ → List Frame → List Frame
bucket shift i [] = []
bucket shift i (f ∷ fs) = if f.fp / 2 ^ shift == i then f ∷ bucket shift i fs else bucket shift i fs

log-append : (xs ys : List Frame) → log (xs ++ ys) ≡ log xs ++ log ys
unfolding log
log-append [] ys = refl
log-append (x ∷ xs) ys =
    ap (λ zs. frame x ++ zs) (log-append xs ys) ∙ sym (append_assoc (frame x) (log xs) (log ys))

-- A file for each number from `s` on.
abbrev files : (ℕ → Bytes) → ℕ → ℕ → List Bytes
files g s n = map g (range_from s n)

length-files : (g : ℕ → Bytes) (s n : ℕ) → length (files g s n) ≡ n
unfolding range_from
length-files g s zero = refl
length-files g s (suc n) = ap suc (length-files g (suc s) n)

get_or-files : (g : ℕ → Bytes) (s n k : ℕ) → k < n → get_or (files g s n) k [] ≡ g (s + k)
unfolding range_from
get_or-files g s zero k h = absurd (omega arith)
get_or-files g s (suc n) zero h = ap g (omega arith)
get_or-files g s (suc n) (suc k) h = get_or-files g (suc s) n k (omega arith) ∙ ap g (omega arith)

files-ext :
    (g g' : ℕ → Bytes) (s n : ℕ) → ((i : ℕ) → s ≤ i → g i ≡ g' i) → files g s n ≡ files g' s n
unfolding range_from
files-ext g g' s zero h = refl
files-ext g g' s (suc n) h =
    ap (λ zs. zs ∷ files g (suc s) n) (h s (omega arith))
    ∙ ap (λ zs. g' s ∷ zs) (files-ext g g' (suc s) n (λ i le. h i (omega arith)))

set-files :
    (g : ℕ → Bytes) (s n k : ℕ) (v : Bytes)
    → k < n
    → set (files g s n) k v ≡ files (λ i. if s + k == i then v else g i) s n
unfolding range_from
set-files g s zero k v h = absurd (omega arith)
set-files g s (suc n) zero v h =
    ap (λ zs. zs ∷ files g (suc s) n)
      (let e : v ≡ (if s + 0 == s then v else g s) = ground arith in e)
    ∙ ap (λ zs. (if s + 0 == s then v else g s) ∷ zs)
        (files-ext g (λ i. if s + 0 == i then v else g i) (suc s) n (λ i le. ground arith))
set-files g s (suc n) (suc k) v h =
    ap (λ zs. zs ∷ set (files g (suc s) n) k v)
      (let e : g s ≡ (if s + suc k == s then v else g s) = ground arith in e)
    ∙ ap (λ zs. (if s + suc k == s then v else g s) ∷ zs)
        (set-files g (suc s) n k v (omega arith)
          ∙ files-ext (λ i. if suc s + k == i then v else g i)
              (λ i. if s + suc k == i then v else g i) (suc s) n (λ i le. ground arith))

abbrev header : Frame → Bytes
header f = to_le_bytes 8 f.fp ++ (to_le_bytes 8 f.vfp ++ to_le_bytes 4 (length f.value % 2 ^ 32))

length-header : (f : Frame) → length (header f) ≡ frame_header
length-header f = omega (
  arith,
  length-append (to_le_bytes 8 f.fp)
      (to_le_bytes 8 f.vfp ++ to_le_bytes 4 (length f.value % 2 ^ 32)),
  length-append (to_le_bytes 8 f.vfp) (to_le_bytes 4 (length f.value % 2 ^ 32)),
  length-to_le_bytes 8 f.fp,
  length-to_le_bytes 8 f.vfp,
  length-to_le_bytes 4 (length f.value % 2 ^ 32),
)

frame-header : (f : Frame) (post : Bytes) → frame f ++ post ≡ header f ++ (f.value ++ post)
unfolding frame frame_bytes
frame-header f post = simp append_assoc

header_fp : (f : Frame) → IsFrame f → from_le_bytes (slice 0 8 (header f)) ≡ f.fp
header_fp f h =
    ap from_le_bytes (
      slice-middle 0 8 [] (to_le_bytes 8 f.fp)
        (to_le_bytes 8 f.vfp ++ to_le_bytes 4 (length f.value % 2 ^ 32)) refl
        (omega (arith, length-to_le_bytes 8 f.fp)))
    ∙ from_le_bytes-to_le_bytes 8 f.fp (omega (arith, h.0))

header_len : (f : Frame) → IsFrame f → from_le_bytes (slice 16 20 (header f)) ≡ length f.value
header_len f h =
    let a = to_le_bytes 8 f.fp in
    let b = to_le_bytes 8 f.vfp in
    let c = to_le_bytes 4 (length f.value % 2 ^ 32) in
    let la = length-to_le_bytes 8 f.fp in
    let lb = length-to_le_bytes 8 f.vfp in
    let lc = length-to_le_bytes 4 (length f.value % 2 ^ 32) in
    ap (λ zs. from_le_bytes (slice 16 20 (a ++ (b ++ zs)))) (sym (append-nil c))
    ∙ ap from_le_bytes (slice-third 16 20 [] a b c [] (omega (arith, la, lb)) (omega (arith, lc)))
    ∙ from_le_bytes-to_le_bytes 4 (length f.value % 2 ^ 32) (omega arith)
    ∙ omega (arith, h.2)

read_exact_or_eof-header :
    (f : Frame) (post : Bytes)
    → read_exact_or_eof frame_header (frame f ++ post) ≡ ok (some (header f, f.value ++ post))
unfolding read_exact_or_eof
read_exact_or_eof-header f post =
    let e = frame-header f post in
    let l = length-append (header f) (f.value ++ post) in
    let lh = length-header f in
    let t = take-append frame_header (header f) (f.value ++ post) (sym lh) in
    let d = drop-append frame_header (header f) (f.value ++ post) (sym lh) in
    rw e (ground (arith, l, lh, t, d))

scatter_frame-write :
    (shift : ℕ) (f : Frame) (post : Bytes) (outs : List Bytes)
    → IsFrame f
    → f.fp / 2 ^ shift < length outs
    → scatter_frame shift (header f) (f.value ++ post) outs
      ≡ ok (set outs (f.fp / 2 ^ shift) (get_or outs (f.fp / 2 ^ shift) [] ++ frame f), post)
unfolding scatter_frame write_bucket
scatter_frame-write shift f post outs h lt =
    let t = take-append (length f.value) f.value post refl in
    let d = drop-append (length f.value) f.value post refl in
    let l = length-append f.value post in
    let whole : header f ++ f.value ≡ frame f =
      ap (λ zs. header f ++ zs) (sym (append-nil f.value))
      ∙ sym (frame-header f [])
      ∙ append-nil (frame f) in
    let room = le→ltb (length (f.value ++ post)) (length f.value) (omega (arith, l)) in
    rw
      (header_fp f h, header_len f h, room, t, d, whole, lt→ltb (f.fp / 2 ^ shift) (length outs) lt)
      refl

-- What a frame adds to the bucket file `i`.
bucket-cons :
    (shift i : ℕ) (f : Frame) (fs : List Frame) (z : Bytes)
    → (if f.fp / 2 ^ shift == i then z ++ frame f else z) ++ log (bucket shift i fs)
      ≡ z ++ log (bucket shift i (f ∷ fs))
unfolding bucket log
bucket-cons shift i f fs z = elim (Bool-cases (f.fp / 2 ^ shift == i)) [
  | inl here ↦ rw here (append_assoc z (frame f) (log (bucket shift i fs)))
  | inr elsewhere ↦ rw elsewhere refl
]

scatter_loop-step :
    (fuel shift : ℕ) (f : Frame) (post : Bytes) (outs : List Bytes)
    → IsFrame f
    → f.fp / 2 ^ shift < length outs
    → scatter_loop (suc fuel) shift (frame f ++ post) outs
      ≡ scatter_loop fuel shift post
          (set outs (f.fp / 2 ^ shift) (get_or outs (f.fp / 2 ^ shift) [] ++ frame f))
unfolding scatter_loop
scatter_loop-step fuel shift f post outs h lt =
    rw (read_exact_or_eof-header f post) (rw (scatter_frame-write shift f post outs h lt) refl)

set-bucket :
    (g : ℕ → Bytes) (n k : ℕ) (z : Bytes)
    → k < n
    → set (files g 0 n) k (get_or (files g 0 n) k [] ++ z)
      ≡ files (λ i. if k == i then g i ++ z else g i) 0 n
set-bucket g n k z h =
    ap (λ v. set (files g 0 n) k (v ++ z)) (get_or-files g 0 n k h)
    ∙ set-files g 0 n k (g (0 + k) ++ z) h
    ∙ files-ext (λ i. if 0 + k == i then g (0 + k) ++ z else g i)
        (λ i. if k == i then g i ++ z else g i) 0 n
        (λ i le. elim (Bool-cases (k == i)) [
          | inl same ↦
              let e : 0 + k ≡ i = ground (arith, same) in
              let same' : (0 + k == i) ≡ true = ground (arith, same) in
              rw (same', same) (ap (λ m. g m ++ z) e)
          | inr other ↦
              let other' : (0 + k == i) ≡ false = ground (arith, other) in rw (other', other) refl
        ])

scatter_loop-log :
    (fuel shift n : ℕ) (fs : List Frame) (g : ℕ → Bytes)
    → All IsFrame fs
    → All (λ f. f.fp / 2 ^ shift < n) fs
    → length fs < fuel
    → scatter_loop fuel shift (log fs) (files g 0 n)
      ≡ ok (files (λ i. g i ++ log (bucket shift i fs)) 0 n)
unfolding log
scatter_loop-log zero shift n fs g h room lt = absurd (omega arith)
scatter_loop-log (suc fuel) shift n [] g h room lt =
    let done : scatter_loop (suc fuel) shift [] (files g 0 n) ≡ ok (files g 0 n) =
      unfold scatter_loop read_exact_or_eof in refl in
    done
    ∙ ap ok (
        files-ext g (λ i. g i ++ log (bucket shift i [])) 0 n
          (λ i le. sym (unfold bucket in append-nil (g i))))
scatter_loop-log (suc fuel) shift n (f ∷ fs) g h room lt =
    let k = f.fp / 2 ^ shift in
    let g' : ℕ → Bytes = λ i. if k == i then g i ++ frame f else g i in
    scatter_loop-step fuel shift f (log fs) (files g 0 n) h.0
      (omega (arith, room.0, length-files g 0 n))
    ∙ ap (scatter_loop fuel shift (log fs)) (set-bucket g n k (frame f) room.0)
    ∙ scatter_loop-log fuel shift n fs g' h.1 room.1 (omega arith)
    ∙ ap ok (
        files-ext (λ i. g' i ++ log (bucket shift i fs)) (λ i. g i ++ log (bucket shift i (f ∷ fs)))
          0 n (λ i le. bucket-cons shift i f fs (g i)))

trailing_zeros_lem : (w k : ℕ) → k < w → trailing_zeros w (2 ^ k) ≡ k
unfolding trailing_zeros
trailing_zeros_lem zero k h = absurd (omega arith)
trailing_zeros_lem (suc w) zero h = refl
trailing_zeros_lem (suc w) (suc k) h = ground (arith, pow-suc 2 k, trailing_zeros_lem w k)

replicate-files : (n : ℕ) (s : ℕ) → replicate n [] ≡ files (λ i. []) s n
unfolding range_from
replicate-files zero s = refl
replicate-files (suc n) s = ap (λ zs. [] ∷ zs) (replicate-files n (suc s))

pub two_pow-add : (a b : ℕ) → 2 ^ (a + b) ≡ 2 ^ a * 2 ^ b
two_pow-add zero b = ap (λ n. 2 ^ n) (let e : zero + b ≡ b = omega arith in e) ∙ omega arith
two_pow-add (suc a) b =
    ap (λ n. 2 ^ n) (let e : suc a + b ≡ suc (a + b) = omega arith in e)
    ∙ pow-succ' 2 (a + b)
    ∙ ap (λ n. 2 * n) (two_pow-add a b)
    ∙ sym (mul_assoc 2 (2 ^ a) (2 ^ b))
    ∙ ap (λ z. z * 2 ^ b) (sym (pow-succ' 2 a))

top_bits-lt : (k fp : ℕ) → k ≤ 64 → fp < 2 ^ 64 → fp / 2 ^ (64 - k) < 2 ^ k
top_bits-lt k fp h lt =
    let whole : 2 ^ k * 2 ^ (64 - k) ≡ 2 ^ 64 =
      sym (two_pow-add k (64 - k))
      ∙ ap (λ n. 2 ^ n) (let e : k + (64 - k) ≡ 64 = omega arith in e) in
    (div-lt_iff_lt-mul {k = 2 ^ (64 - k)} {x = fp} {y = 2 ^ k}
        (one-le-pow (64 - k) 2 (omega arith))).1
      (omega (arith, whole))

pub fits :
    (k : ℕ) (fs : List Frame) → k ≤ 64 → All IsFrame fs → All (λ f. f.fp / 2 ^ (64 - k) < 2 ^ k) fs
fits k [] h fr = tt
fits k (f ∷ fs) h fr = (top_bits-lt k f.fp h fr.0.0, fits k fs h fr.1)

-- Scattering a log of frames to `2 ^ k` buckets succeeds, and the file of each bucket is the log of
-- the frames whose fingerprints have the bucket's number as their top `k` bits, in the order of
-- their arrival.
pub scatter_to_buckets-log :
    (k : ℕ) (fs : List Frame)
    → k < 64
    → All IsFrame fs
    → scatter_to_buckets (log fs) (2 ^ k)
      ≡ ok (map (λ i. log (bucket (64 - k) i fs)) (range_from 0 (2 ^ k)))
unfolding scatter_to_buckets
scatter_to_buckets-log k fs h fr =
    ap (λ z. scatter_loop (suc (length (log fs))) (64 - z) (log fs) (replicate (2 ^ k) []))
      (trailing_zeros_lem 64 k h)
    ∙ ap (scatter_loop (suc (length (log fs))) (64 - k) (log fs)) (replicate-files (2 ^ k) 0)
    ∙ scatter_loop-log (suc (length (log fs))) (64 - k) (2 ^ k) fs (λ i. []) fr
        (fits k fs (omega arith) fr) (omega (arith, length-log-ge fs))
