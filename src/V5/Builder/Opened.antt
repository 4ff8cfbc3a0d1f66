-- ===== src/V5/Builder/Opened.antt =====
-- A partition that was built can be opened: the reader gets the fences, the blocks, the heap and
-- the sketch that the build made.
use mathlib.Core.List.{flatten}
use mcfreeze.Base.{ℕ, suc, ◌*◌, ◌/◌, ◌%◌, ◌^◌, ◌<◌, ◌≡◌, refl, sym, ap, ◌∙◌, List, []}
use mcfreeze.Base.{◌∷◌, ◌++◌, true, not, Option, none, some, length, Bytes, map}
use mcfreeze.Base.{arith, All, inl, inr, ◌⊎◌, String, if◌then◌else◌, ltb, ◌==◌}
use mcfreeze.Base.{length-append}
use mcfreeze.Base.Texts.{string_eq}
use mcfreeze.Base.Words.{to_le_bytes, from_le_bytes, length-to_le_bytes, from_le_bytes-to_le_bytes}
use mcfreeze.Error.{IoError, ok}
use mcfreeze.V5.Fence.{fence_of}
use mcfreeze.V5.Block.Pack.{Entry, recs, group_fence, group_fences}
use mcfreeze.V5.Block.Refine.{IsGroup}
use mcfreeze.V5.Block.Seal.{seal}
use mcfreeze.V5.Reader.{cast_slice, load}
use mcfreeze.V5.Reader.Held.{All-map-length, length-group_fences, groups-ne-nil}
use mcfreeze.V5.Builder.{Dir, sweep_partition_transients, remove_bucket_files}
use mcfreeze.V5.Builder.Partition.{fences_le, publish, Output, sketch_file}

-- What opening the files of a built partition reads; `dict.bin` stands at the root.
abbrev pub file_of : Option Bytes → IoError ⊎ Bytes
file_of none = inl IoError.not_found
file_of (some bytes) = inr bytes

unfoldable pub named : Dir → String → IoError ⊎ Bytes
named dir name =
    if string_eq name "fences.bin"
    then file_of dir.fences_bin
    else if string_eq name "blocks.bin"
    then file_of dir.blocks_bin
    else if string_eq name "heap.bin"
    then file_of dir.heap_bin
    else if string_eq name "sketch.bin"
    then file_of dir.sketch_bin
    else inl IoError.not_found

-- What the reader finds in a directory that `publish` wrote.
pub named-publish :
    (out : Output) (dir : Dir)
    → (named (publish out dir) "fences.bin" ≡ inr out.fence_bytes)
      × (named (publish out dir) "blocks.bin" ≡ inr out.blocks)
      × (named (publish out dir) "heap.bin" ≡ inr out.heap)
unfolding named publish string_eq sweep_partition_transients remove_bucket_files
named-publish out dir = (refl, refl, refl)

sketch_file-none : (new old : Option Bytes) → old ≡ none → sketch_file new old ≡ new
sketch_file-none (some bytes) old gone = refl
sketch_file-none none old gone = gone

-- The sketch is that of the output, if no older one was in the directory.
pub named-publish_sketch :
    (out : Output) (dir : Dir)
    → dir.sketch_bin ≡ none
    → named (publish out dir) "sketch.bin" ≡ file_of out.sketch_bytes
unfolding named publish string_eq sweep_partition_transients remove_bucket_files
named-publish_sketch out dir gone =
    ap file_of (sketch_file-none out.sketch_bytes dir.sketch_bin gone)

cast_slice-word :
    (a b c d : ℕ) (rest : Bytes)
    → cast_slice (a ∷ (b ∷ (c ∷ (d ∷ rest))))
      ≡ from_le_bytes (a ∷ (b ∷ (c ∷ (d ∷ [])))) ∷ cast_slice rest
unfolding cast_slice
cast_slice-word a b c d rest = refl

cast_slice-to_le_bytes :
    (n : ℕ) (rest : Bytes) → n < 2 ^ 32 → cast_slice (to_le_bytes 4 n ++ rest) ≡ n ∷ cast_slice rest
cast_slice-to_le_bytes n rest h =
    unfold to_le_bytes in
    cast_slice-word (n % 256) (n / 256 % 256) (n / 256 / 256 % 256) (n / 256 / 256 / 256 % 256) rest
    ∙ ap (λ m. m ∷ cast_slice rest) (from_le_bytes-to_le_bytes 4 n h)

cast_slice-fences_le : (fs : List ℕ) → All (λ f. f < 2 ^ 32) fs → cast_slice (fences_le fs) ≡ fs
unfolding fences_le
cast_slice-fences_le [] h = unfold cast_slice in refl
cast_slice-fences_le (f ∷ fs) h =
    cast_slice-to_le_bytes f (fences_le fs) h.0 ∙ ap (λ zs. f ∷ zs) (cast_slice-fences_le fs h.1)

length-fences_le : (fs : List ℕ) → length (fences_le fs) ≡ length fs * 4
unfolding fences_le
length-fences_le [] = omega arith
length-fences_le (f ∷ fs) = omega (
  arith,
  length-append (to_le_bytes 4 f) (fences_le fs),
  length-to_le_bytes 4 f,
  length-fences_le fs,
)

All-right : {A : Type 0} (P : A → Type 0) (xs ys : List A) → All P (xs ++ ys) → All P ys
All-right P [] ys h = h
All-right P (x ∷ xs) ys h = All-right P xs ys h.1

pub group_fences-lt :
    (gs : List (List Entry))
    → All (λ e. e.fp < 2 ^ 64) (flatten gs)
    → All (λ f. f < 2 ^ 32) (group_fences gs)
unfolding group_fences group_fence flatten fence_of
group_fences-lt [] h = tt
group_fences-lt ([] ∷ gs) h = group_fences-lt gs h
group_fences-lt ((e ∷ es) ∷ gs) h =
    (omega (arith, h.0), group_fences-lt gs (All-right (λ x. x.fp < 2 ^ 64) es (flatten gs) h.1))

length-blocks :
    (n : ℕ) (blocks : List Bytes)
    → All (λ b. length b ≡ n) blocks
    → length (flatten blocks) ≡ length blocks * n
unfolding flatten
length-blocks n [] h = omega arith
length-blocks n (b ∷ blocks) h =
    omega (arith, length-append b (flatten blocks), h.0, length-blocks n blocks h.1)

pub length-map : {A B : Type 0} (f : A → B) (xs : List A) → length (map f xs) ≡ length xs
length-map f [] = refl
length-map f (x ∷ xs) = ap suc (length-map f xs)

-- The blocks of a built partition have the length that the metadata give.
pub length-sealed :
    (xxh64 : Bytes → ℕ → ℕ) (block_size : ℕ) (gs : List (List Entry))
    → All (IsGroup block_size) gs
    → length (flatten (map (λ g. seal xxh64 block_size (recs g)) gs))
      ≡ length (group_fences gs) * block_size
length-sealed xxh64 block_size gs h =
    length-blocks block_size (map (λ g. seal xxh64 block_size (recs g)) gs)
      (All-map-length xxh64 block_size gs h)
    ∙ ap (λ n. n * block_size)
        (length-map (λ g. seal xxh64 block_size (recs g)) gs
          ∙ sym (length-group_fences gs (groups-ne-nil block_size gs h)))

pub load-fences_le :
    (fences : List ℕ) (i : ℕ)
    → All (λ f. f < 2 ^ 32) fences
    → load (inr (fences_le fences)) (length fences) i ≡ ok fences
unfolding load
load-fences_le fences i h =
    let same : (length (fences_le fences) == length fences * 4) ≡ true =
      ground (arith, length-fences_le fences) in
    rw same (ap ok (cast_slice-fences_le fences h))

-- There are no blocks exactly when there are no entries.
pub empty_groups :
    (block_size : ℕ) (gs : List (List Entry))
    → All (IsGroup block_size) gs
    → (length (flatten gs) == 0) ≡ not (ltb 0 (length (group_fences gs)))
unfolding flatten group_fences group_fence
empty_groups block_size [] h = refl
empty_groups block_size ([] ∷ gs) h = absurd (h.0.0 refl)
empty_groups block_size ((e ∷ es) ∷ gs) h = ground arith
