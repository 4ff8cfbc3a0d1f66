-- ===== src/V5/Builder/Filtered.antt =====
-- The sketch of a built partition: the reader opens it, and it admits every key of the partition.
use mcfreeze.Base.{ℕ, ◌≡◌, refl, sym, ap, ◌∙◌, List}
use mcfreeze.Base.{◌++◌, Bool, true, false, not, ◌&&◌, Option, none, some, length, Bytes, arith}
use mcfreeze.Base.{Elem, inl, inr, ◌⊎◌, String, ltb, ◌==◌, Bool-cases, IsSorted}
use mcfreeze.Base.{take, drop, take-append, drop-append}
use mcfreeze.Error.{Result, ok, ◌>>=◌, >>=-eq-ok}
use mcfreeze.V5.Block.{checksum32}
use mcfreeze.V5.Meta.{PartitionMeta}
use mcfreeze.V5.Reader.{Directory, open_sketch, option_or, Partition}
use mcfreeze.V5.Reader.Held.{Admits}
use mcfreeze.V5.Compress.{Zstd}
use mcfreeze.V5.Sketch.{Sketch, parse, contains, verify_sketch, descriptor_len}
use mcfreeze.V5.Sketch
use mcfreeze.V5.Sketch.Parse.{IsDescribed, parse-IsDescribed}
use mcfreeze.V5.Builder.Partition.{dedup, write_sketch, option_map}
use mcfreeze.V5.Builder.Dedup.{IsAscending, dedup-IsAscending, dedup-Elem}
use mcfreeze.V5.Builder.Opened.{file_of}

serialize-ok :
    (t : String ⊎ (Bytes × Bytes)) (bytes : Bytes)
    → Sketch.serialize t ≡ ok bytes
    → (d : Bytes) × (f : Bytes) × (t ≡ inr (d, f)) × (bytes ≡ d ++ f)
unfolding Sketch.serialize
serialize-ok (inl e) bytes h = cc
serialize-ok (inr (d, f)) bytes h = (d, f, refl, cc)

-- What the xorf crate promises of a filter over distinct fingerprints: a descriptor of 20 bytes that
-- fits the fingerprint bytes, and no false negative.
abbrev pub IsFilter : (List ℕ → String ⊎ (Bytes × Bytes)) → (Bytes → Bytes → ℕ → Bool) → Type 0
IsFilter try_from filter =
    (fps : List ℕ) (descriptor fingerprints : Bytes)
    → IsAscending fps
    → try_from fps ≡ inr (descriptor, fingerprints)
    → (length descriptor ≡ descriptor_len)
      × IsDescribed (descriptor ++ fingerprints)
      × ((fp : ℕ) → Elem fp fps → filter descriptor fingerprints fp ≡ true)

-- The sketch that the reader holds: of the bytes of the file, if the file is read.
abbrev pub sketch_of : Option Bytes → Option Sketch
sketch_of none = none
sketch_of (some bytes) = some (record { buf = bytes })

module _ (xxh64 : Bytes → ℕ → ℕ) (try_from : List ℕ → String ⊎ (Bytes × Bytes))
    (filter : Bytes → Bytes → ℕ → Bool) (good : IsFilter try_from filter) where
  abbrev Written : Bool → List ℕ → Option Bytes → Type 0
  Written enabled fps sketch = write_sketch xxh64 try_from enabled fps ≡ ok sketch

  write_sketch-none :
      (enabled : Bool) (fps : List ℕ) (sketch : Option Bytes)
      → (enabled && not (length fps == 0)) ≡ false
      → Written enabled fps sketch
      → sketch ≡ none
  unfolding write_sketch
  write_sketch-none enabled fps sketch off h =
      let k : Path (Result (Option Bytes)) (ok none) (ok sketch) = rw off at h in cc

  write_sketch-some :
      (enabled : Bool) (fps : List ℕ) (sketch : Option Bytes)
      → (enabled && not (length fps == 0)) ≡ true
      → IsSorted fps
      → Written enabled fps sketch
      → (descriptor : Bytes) × (fingerprints : Bytes) × (sketch ≡ some (descriptor ++ fingerprints))
        × (length descriptor ≡ descriptor_len)
        × IsDescribed (descriptor ++ fingerprints)
        × ((fp : ℕ) → Elem fp fps → filter descriptor fingerprints fp ≡ true)
  unfolding write_sketch Sketch.build
  write_sketch-some enabled fps sketch on sorted h =
      let k : Path (Result (Option Bytes))
          (Sketch.build try_from (dedup fps) >>= λ bytes. ok (some bytes)) (ok sketch) =
        rw on at h in
      let (bytes, built, e) =
        >>=-eq-ok (Sketch.build try_from (dedup fps)) (λ bytes. ok (some bytes)) k in
      let (d, f, tried, eb) = serialize-ok (try_from (dedup fps)) bytes built in
      let (len, described, admits) = good (dedup fps) d f (dedup-IsAscending fps sorted) tried in
      let same : sketch ≡ some bytes = cc in
      (d, f, same ∙ ap some eb, len, described, λ fp m. admits fp (dedup-Elem fps fp m))

  verified : (bytes : Bytes) → verify_sketch xxh64 bytes (checksum32 xxh64 bytes) ≡ ok tt
  unfolding verify_sketch
  verified bytes = ground arith

  -- The sketch of a partition that was built is opened.
  pub open_sketch-Written :
      {Level CCtx DCtx : Type 0} (api : Zstd Level CCtx DCtx) (dir : Directory) (enabled : Bool)
      (i : ℕ) (pm : PartitionMeta) (fps : List ℕ) (sketch : Option Bytes)
      → IsSorted fps
      → Written enabled fps sketch
      → (length fps == 0) ≡ not (ltb 0 pm.n_blocks)
      → dir.partition_file i "sketch.bin" ≡ file_of sketch
      → pm.sketch_checksum ≡ option_map (checksum32 xxh64) sketch
      → open_sketch xxh64 filter api dir enabled i pm ≡ ok (sketch_of sketch)
  unfolding open_sketch option_or
  open_sketch-Written api dir enabled i pm fps sketch sorted h blocks file anchor =
      elim (Bool-cases (enabled && ltb 0 pm.n_blocks)) [
        | inr off ↦
            let none_of = write_sketch-none enabled fps sketch (ground (arith, off, blocks)) h in
            rw off (ap (λ s. ok (sketch_of s)) (sym none_of))
        | inl on ↦
            let (d, f, e, len, described, admits) =
              write_sketch-some enabled fps sketch (ground (arith, on, blocks)) sorted h in
            let bytes = d ++ f in
            let file' : dir.partition_file i "sketch.bin" ≡ inr bytes = file ∙ ap file_of e in
            let anchor' : pm.sketch_checksum ≡ some (checksum32 xxh64 bytes) =
              anchor ∙ ap (option_map (checksum32 xxh64)) e in
            rw on (
              rw file' (
                rw anchor' (
                  rw (verified bytes)
                    (rw (parse-IsDescribed bytes described) (ap (λ s. ok (sketch_of s)) (sym e))))))
      ]

  -- The sketch that is opened admits every fingerprint of the partition.
  pub sketch_of-Admits :
      (enabled : Bool) (fps : List ℕ) (sketch : Option Bytes) (part : Partition) (fp : ℕ)
      → IsSorted fps
      → Written enabled fps sketch
      → part.sketch ≡ sketch_of sketch
      → Elem fp fps
      → Admits filter part fp
  unfolding contains
  sketch_of-Admits enabled fps sketch part fp sorted h held m s e =
      elim (Bool-cases (enabled && not (length fps == 0))) [
        | inr off ↦
            let none_of = write_sketch-none enabled fps sketch off h in
            let k : Path (Option Sketch) none (some s) = sym (held ∙ ap sketch_of none_of) ∙ e in cc
        | inl on ↦
            let (d, f, e', len, described, admits) =
              write_sketch-some enabled fps sketch on sorted h in
            let same : Path (Option Sketch) (some (record { buf = d ++ f })) (some s) =
              sym (held ∙ ap sketch_of e') ∙ e in
            let buf : d ++ f ≡ s.buf = cc in
            ap (λ b. filter (take 20 b) (drop 20 b) fp) (sym buf)
            ∙ ap (λ b. filter b (drop 20 (d ++ f)) fp) (take-append 20 d f (sym len))
            ∙ ap (λ b. filter d b fp) (drop-append 20 d f (sym len))
            ∙ admits fp m
      ]
