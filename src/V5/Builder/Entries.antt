-- ===== src/V5/Builder/Entries.antt =====
-- The entries that a build pushes: where they keep the values, and when they are told apart.
use mcfreeze.Base.{ℕ, ◌+◌, ◌%◌, ◌^◌, ◌≤◌, ◌≡◌, ◌≢◌, refl, sym, ap, ◌∙◌, List, [], ◌∷◌}
use mcfreeze.Base.{◌++◌, length, Bytes, map, arith, subst, All}
use mcfreeze.Base.{Elem, inl, inr, Bool-cases, append_assoc, length-append, slice-middle}
use mathlib.Core.List.{Permᴰ}
use mcfreeze.Data.{pread, pread-ok}
use mcfreeze.Error.{ok}
use mcfreeze.V5.Block.{record_vfp, max_value_len}
use mcfreeze.V5.Block.Pack.{Entry}
use mcfreeze.V5.Compress.{Zstd}
use mcfreeze.V5.Compress.RoundTrip.{is_compressed}
use mcfreeze.V5.Reader.{Partition}
use mcfreeze.V5.Reader.Assembled.{Stores}
use mcfreeze.V5.Reader.Locate.{fps}
use mcfreeze.V5.Builder.{Plan}
use mcfreeze.V5.Builder.Frames.{Frame}
use mcfreeze.V5.Builder.Order.{All-Perm}
use mcfreeze.V5.Builder.Emitted.{Kept, entries_from, heap_from, stored, heap_part, is_inline}
use mcfreeze.V5.Builder.Emitted.{record_of}
use mcfreeze.V5.Builder.Built.{IsKept}
use mcfreeze.V5.Builder.Written.{kept_fps}

-- No two frames have the same verification fingerprint.
abbrev pub IsDistinct : List Frame → Type 0
IsDistinct [] = Unit {0}
IsDistinct (f ∷ fs) = All (λ g. f.vfp ≢ g.vfp) fs × IsDistinct fs

All-ne :
    (f g : Frame) (fs : List Frame)
    → f ≡ g
    → All (λ x. f.vfp ≢ x.vfp) fs
    → All (λ x. g.vfp ≢ x.vfp) fs
All-ne f g fs e h = subst (λ (y : Frame). All (λ x. y.vfp ≢ x.vfp) fs) e h

pub IsDistinct-Perm : {xs ys : List Frame} → Permᴰ xs ys → IsDistinct xs → IsDistinct ys
IsDistinct-Perm Permᴰ.nil h = tt
IsDistinct-Perm (Permᴰ.cons {a} {b} {l₂ = ys} e p) h =
    (All-ne a b ys e (All-Perm (λ x. a.vfp ≢ x.vfp) p h.0), IsDistinct-Perm p h.1)
IsDistinct-Perm (Permᴰ.swap {a} {b} {a'} {b'} {l} e e') h = (
  (
    λ k. h.0.0 (ap (λ (f : Frame). f.vfp) e ∙ sym k ∙ ap (λ (f : Frame). f.vfp) (sym e')),
    All-ne b a' l e' h.1.0,
  ),
  (All-ne a b' l e h.0.1, h.1.1),
)
IsDistinct-Perm (Permᴰ.trans p q) h = IsDistinct-Perm q (IsDistinct-Perm p h)

module _ (xxh64 : Bytes → ℕ → ℕ) {Level CCtx DCtx : Type 0} (api : Zstd Level CCtx DCtx)
    (plan : Plan) where
  record_of-vfp :
      (offset : ℕ) (k : Kept) → record_vfp (record_of xxh64 api plan offset k) ≡ k.source.vfp
  unfolding record_vfp
  record_of-vfp offset k = elim (Bool-cases (is_inline xxh64 api plan k)) [
    | inl small ↦ rw small refl
    | inr large ↦ rw large refl
  ]

  pub entries_from-fps :
      (offset : ℕ) (ks : List Kept) → fps (entries_from xxh64 api plan offset ks) ≡ kept_fps ks
  unfolding entries_from
  entries_from-fps offset [] = refl
  entries_from-fps offset (k ∷ ks) =
      ap (λ zs. k.source.fp ∷ zs)
        (entries_from-fps (offset + length (heap_part xxh64 api plan k)) ks)

  pub entries_from-All :
      (offset : ℕ) (ks : List Kept) (P : ℕ → Type 0)
      → All (λ (f : Frame). P f.fp) (map (λ k. k.source) ks)
      → All (λ e. P e.fp) (entries_from xxh64 api plan offset ks)
  unfolding entries_from
  entries_from-All offset [] P h = tt
  entries_from-All offset (k ∷ ks) P h =
      (h.0, entries_from-All (offset + length (heap_part xxh64 api plan k)) ks P h.1)

  -- An entry comes from a frame.
  pub entries_from-vfp :
      (offset : ℕ) (ks : List Kept) (e : Entry) (P : ℕ → Type 0)
      → All (λ (f : Frame). P f.vfp) (map (λ k. k.source) ks)
      → Elem e (entries_from xxh64 api plan offset ks)
      → P (record_vfp e.rec)
  unfolding entries_from
  entries_from-vfp offset [] e P h m = absurd m
  entries_from-vfp offset (k ∷ ks) e P h (inl same) =
      subst P (sym (ap (λ (x : Entry). record_vfp x.rec) same ∙ record_of-vfp offset k)) h.0
  entries_from-vfp offset (k ∷ ks) e P h (inr there) =
      entries_from-vfp (offset + length (heap_part xxh64 api plan k)) ks e P h.1 there

  -- Entries with the same verification fingerprint are the same.
  pub entries_from_unique :
      (offset : ℕ) (ks : List Kept) (e e' : Entry)
      → IsDistinct (map (λ k. k.source) ks)
      → Elem e (entries_from xxh64 api plan offset ks)
      → Elem e' (entries_from xxh64 api plan offset ks)
      → record_vfp e'.rec ≡ record_vfp e.rec
      → e' ≡ e
  unfolding entries_from
  entries_from_unique offset [] e e' d m m' same = absurd m
  entries_from_unique offset (k ∷ ks) e e' d m m' same =
      let next = offset + length (heap_part xxh64 api plan k) in
      let apart : (x y : Entry)
          → x ≡ record { fp = k.source.fp; rec = record_of xxh64 api plan offset k }
          → Elem y (entries_from xxh64 api plan next ks)
          → record_vfp y.rec ≢ record_vfp x.rec =
        λ x y ex my. λ eq.
          entries_from-vfp next ks y (λ n. k.source.vfp ≢ n) d.0 my
            (sym (eq ∙ ap (λ (z : Entry). record_vfp z.rec) ex ∙ record_of-vfp offset k)) in
      elim m [
        | inl here ↦ elim m' [
          | inl here' ↦ here' ∙ sym here
          | inr there' ↦ absurd (apart e e' here there' same)
        ]
        | inr there ↦ elim m' [
          | inl here' ↦ absurd (apart e' e here' there (sym same))
          | inr there' ↦ entries_from_unique next ks e e' d.1 there there' same
        ]
      ]

  -- The entry of a frame has its fingerprints, and its value is stored inline or at its place in the
  -- heap.
  abbrev Keeps : Partition → List Entry → Kept → Entry → Type 0
  Keeps part es k e =
      Elem e es
      × (e.fp ≡ k.source.fp)
      × (record_vfp e.rec ≡ k.source.vfp)
      × Stores xxh64 part e.rec (stored xxh64 api plan k) (is_compressed api k.made)

  record_of-Stores :
      (part : Partition) (pre post : Bytes) (offset : ℕ) (k : Kept)
      → length (stored xxh64 api plan k) ≤ max_value_len
      → offset ≡ length pre
      → part.heap ≡ pre ++ (heap_part xxh64 api plan k ++ post)
      → Stores xxh64 part
          (record_of xxh64 api plan offset k)
          (stored xxh64 api plan k)
          (is_compressed api k.made)
  record_of-Stores part pre post offset k room at_end heap =
      elim (Bool-cases (is_inline xxh64 api plan k)) [
        | inl small ↦ rw small (refl, refl)
        | inr large ↦
            let z = stored xxh64 api plan k in
            let len : length z % 2 ^ 32 ≡ length z = omega (arith, room) in
            let heap' : part.heap ≡ pre ++ (z ++ post) = rw large at heap in
            let l = length-append pre (z ++ post) in
            let l' = length-append z post in
            let read : pread part.heap offset (length z) ≡ ok z =
              ap (λ h. pread h offset (length z)) heap'
              ∙ pread-ok (pre ++ (z ++ post)) offset (length z) (omega (arith, l, l'))
              ∙ ap ok (slice-middle offset (offset + length z) pre z post at_end (omega arith)) in
            rw large (rw len (read, refl, refl))
      ]

  pub entries_from-Keeps :
      (part : Partition) (ks : List Kept) (pre : Bytes) (offset : ℕ) (k : Kept)
      → All (IsKept xxh64 api plan) ks
      → offset ≡ length pre
      → part.heap ≡ pre ++ heap_from xxh64 api plan ks
      → Elem k ks
      → (e : Entry) × Keeps part (entries_from xxh64 api plan offset ks) k e
  unfolding entries_from heap_from
  entries_from-Keeps part [] pre offset k h at_end heap m = absurd m
  entries_from-Keeps part (x ∷ ks) pre offset k h at_end heap (inl same) =
      let stores =
        record_of-Stores part pre (heap_from xxh64 api plan ks) offset x h.0.2 at_end heap in
      subst
        (λ (y : Kept).
          (e : Entry) × Keeps part
            (record { fp = x.source.fp; rec = record_of xxh64 api plan offset x }
              ∷ entries_from xxh64 api plan (offset + length (heap_part xxh64 api plan x)) ks)
            y e)
        (sym same)
        (
          record { fp = x.source.fp; rec = record_of xxh64 api plan offset x },
          (inl refl, refl, record_of-vfp offset x, stores),
        )
  entries_from-Keeps part (x ∷ ks) pre offset k h at_end heap (inr there) =
      let part_x = heap_part xxh64 api plan x in
      let (e, (m, efp, evfp, stores)) =
        entries_from-Keeps part ks (pre ++ part_x) (offset + length part_x) k h.1
          (omega (arith, length-append pre part_x))
          (heap ∙ sym (append_assoc pre part_x (heap_from xxh64 api plan ks))) there in
      (e, (inr m, efp, evfp, stores))
