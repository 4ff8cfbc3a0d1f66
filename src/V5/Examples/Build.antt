-- ===== src/V5/Examples/Build.antt =====
-- The builder at concrete inputs: two frames, a sort by insertion, values that are not compressed,
-- and a filter that admits all.
use mathlib.Core.List.{Permᴰ}
use mathlib.Core.List.Permᴰ
use mcfreeze.Base.{ℕ, ◌+◌, ◌%◌, ◌^◌, ◌≤◌, ◌≡◌, refl, List, [], ◌∷◌, ◌++◌, Bytes}
use mcfreeze.Base.{true, false, sym, none, arith, inl, inr, map, replicate, ap, All, IsSorted, leb}
use mcfreeze.Base.{Bool-cases, ◌⊎◌, String, length, if◌then◌else◌, subst}
use mcfreeze.Base.Words.{to_le_bytes, from_le_bytes}
use mcfreeze.V5.Compress.{mode_none}
use mcfreeze.V5.Sketch.Parse.{IsDescribed}
use mcfreeze.V5.Builder.{Plan}
use mcfreeze.V5.Builder.Arrival.{FrameRef}
use mcfreeze.V5.Builder.Partition.{compress_value, partition_compressor}
use mcfreeze.V5.Builder.Partitioned.{IsSort}
use mcfreeze.V5.Builder.Whole.{CanBuild}
use mcfreeze.V5.Builder.Filtered.{IsFilter}
use mcfreeze.V5.Examples.Codec.{zero_codec}
use mcfreeze.V5.Examples.Lookups.{filter_all}

abbrev pub hash : Bytes → ℕ → ℕ
hash bytes seed = (from_le_bytes bytes + seed + 1) % 2 ^ 64

abbrev insert_ref : FrameRef → List FrameRef → List FrameRef
insert_ref f [] = f ∷ []
insert_ref f (g ∷ gs) = if leb f.fp g.fp then f ∷ (g ∷ gs) else g ∷ insert_ref f gs

abbrev pub sort_refs : List FrameRef → List FrameRef
sort_refs [] = []
sort_refs (f ∷ fs) = insert_ref f (sort_refs fs)

abbrev ref_fps : List FrameRef → List ℕ
ref_fps = map (λ f. f.fp)

insert_ref-Perm : (f : FrameRef) (gs : List FrameRef) → Permᴰ (insert_ref f gs) (f ∷ gs)
insert_ref-Perm f [] = Permᴰ.refl (f ∷ [])
insert_ref-Perm f (g ∷ gs) = elim (Bool-cases (leb f.fp g.fp)) [
  | inl here ↦ rw here (Permᴰ.refl (f ∷ (g ∷ gs)))
  | inr later ↦
      rw later (Permᴰ.trans (Permᴰ.cons refl (insert_ref-Perm f gs)) (Permᴰ.swap refl refl))
]

insert_ref-All :
    (P : ℕ → Type 0) (f : FrameRef) (gs : List FrameRef)
    → P f.fp
    → All P (ref_fps gs)
    → All P (ref_fps (insert_ref f gs))
insert_ref-All P f [] h k = (h, tt)
insert_ref-All P f (g ∷ gs) h k = elim (Bool-cases (leb f.fp g.fp)) [
  | inl here ↦ rw here (h, k)
  | inr later ↦ rw later (k.0, insert_ref-All P f gs h k.1)
]

All-le : (a b : ℕ) (xs : List ℕ) → a ≤ b → All (λ y. b ≤ y) xs → All (λ y. a ≤ y) xs
All-le a b [] h k = tt
All-le a b (x ∷ xs) h k = (omega (arith, k.0), All-le a b xs h k.1)

insert_ref-IsSorted :
    (f : FrameRef) (gs : List FrameRef)
    → IsSorted (ref_fps gs)
    → IsSorted (ref_fps (insert_ref f gs))
insert_ref-IsSorted f [] s = (tt, tt)
insert_ref-IsSorted f (g ∷ gs) s = elim (Bool-cases (leb f.fp g.fp)) [
  | inl here ↦
      let le : f.fp ≤ g.fp = ground (arith, here) in
      rw here ((le, All-le f.fp g.fp (ref_fps gs) le s.0), s)
  | inr later ↦ rw later (
    insert_ref-All (λ y. g.fp ≤ y) f gs (ground (arith, later)) s.0,
    insert_ref-IsSorted f gs s.1,
  )
]

pub sort_refs-IsSort : IsSort sort_refs
sort_refs-IsSort [] = (tt, Permᴰ.nil)
sort_refs-IsSort (f ∷ fs) =
    let (s, p) = sort_refs-IsSort fs in
    (
      insert_ref-IsSorted f (sort_refs fs) s,
      Permᴰ.trans (insert_ref-Perm f (sort_refs fs)) (Permᴰ.cons refl p),
    )

abbrev descriptor : Bytes
descriptor = replicate 8 1 ++ (to_le_bytes 4 4 ++ (to_le_bytes 4 3 ++ to_le_bytes 4 8))

abbrev pub try_from : List ℕ → String ⊎ (Bytes × Bytes)
try_from fps = inr (descriptor, replicate 16 5)

same_parts :
    (d f : Bytes)
    → Path (String ⊎ (Bytes × Bytes)) (inr (descriptor, replicate 16 5)) (inr (d, f))
    → (descriptor ≡ d) × (replicate 16 5 ≡ f)
same_parts d f e = (cc, cc)

pub try_from-IsFilter : IsFilter try_from filter_all
unfolding to_le_bytes from_le_bytes
try_from-IsFilter fps d f ascending e =
    let (ed, ef) = same_parts d f e in
    (
      ap length (sym ed),
      subst (λ z. IsDescribed (z ++ f)) ed
          (subst (λ z. IsDescribed (descriptor ++ z)) ef
            (omega arith, (2, omega arith, refl), refl, refl, refl)),
      λ fp m. refl,
    )

abbrev pub plan : Plan
plan = record {
  block_size = 4096;
  inline_threshold = 2048;
  sketch = true;
  compression = mode_none;
  min_compress_len = 64;
  dict_checksum = none;
  n_samples = 0;
  dict_len = 0;
  dict_fallback = false;
  sample_bytes_raw = 0;
  sample_bytes_stored = 0;
}

pub can_build : CanBuild hash sort_refs try_from zero_codec tt plan none none (λ value. none)
unfolding compress_value partition_compressor
can_build = record {
  sorts = sort_refs-IsSort;
  planned = (omega arith, omega arith, omega arith, omega arith);
  compressor = refl;
  makes = λ value room. refl;
  tries = λ fps ascending. (descriptor, replicate 16 5, refl);
}
