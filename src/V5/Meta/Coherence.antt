-- ===== src/V5/Meta/Coherence.antt =====
-- What `Meta::layout` lets through.
use mcfreeze.Base.{ℕ, ◌*◌, ◌^◌, ◌%◌, ◌≡◌, ◌≤◌, ◌<◌, refl, ap, ◌∙◌, List, [], ◌∷◌, Bool}
use mcfreeze.Base.{true, false, ◌&&◌, Option, none, some, ltb, length}
use mcfreeze.Base.{String, string_eq, string_eq_iff, All, arith, ◌↔◌}
use mcfreeze.Base.Words.{is_power_of_two, is_power_of_two_sound, is_power_of_two_complete}
use mcfreeze.Error.{Result, ok, ◌>>◌, >>=-eq-ok}
use mcfreeze.Layout.{Layout, new, new_power, new-power}
use mcfreeze.V5.Meta.{Meta, PartitionMeta, CompressionMeta, hash_algorithm_name, sketch_kind}
use mcfreeze.V5.Meta.{codec_zstd, min_block_size, is_some, check_kind, check_anchor, check_anchors}
use mcfreeze.V5.Meta.{check_compression, check_block_counts, validate_block_size, layout}

-- A sketch checksum stands exactly where a sketch was written.
abbrev pub IsAnchored : Bool → PartitionMeta → Type 0
IsAnchored sketch pm = is_some pm.sketch_checksum ≡ (sketch && ltb 0 pm.n_blocks)

abbrev pub KnownKind : Option String → Type 0
KnownKind none = Unit {0}
KnownKind (some kind) = kind ≡ sketch_kind

-- The codec is known, and the checksum of the dictionary accompanies its flag.
abbrev pub IsDecodable : Option CompressionMeta → Type 0
IsDecodable none = Unit {0}
IsDecodable (some c) = (c.codec ≡ codec_zstd) × (is_some c.dict_checksum ≡ c.dict)

abbrev pub IsCoherent : Meta → Type 0
IsCoherent m =
    (m.hash_algorithm ≡ hash_algorithm_name)
    × ((k : ℕ) × (k < 32) × (m.block_size ≡ 2 ^ k) × (min_block_size ≤ m.block_size))
    × KnownKind m.sketch
    × All (IsAnchored (is_some m.sketch)) m.partitions
    × IsDecodable m.compression
    × All (λ pm. pm.n_blocks * m.block_size < 2 ^ 64) m.partitions
    × ((k : ℕ) × (k < 32) × (length m.partitions % 2 ^ 32 ≡ 2 ^ k))

pub validate_block_size_iff :
    (n : ℕ)
    → (validate_block_size n ≡ ok tt) ↔ ((k : ℕ) × (k < 32) × (n ≡ 2 ^ k) × (min_block_size ≤ n))
unfolding validate_block_size
validate_block_size_iff n = (
  λ h.
      let power : is_power_of_two 32 n ≡ true = ground (arith, h) in
      let (k, lt, e) = is_power_of_two_sound 32 n power in (k, lt, e, ground (arith, h)),
  λ h.
      let (k, lt, e, le) = h in
      let power : is_power_of_two 32 n ≡ true =
        ap (is_power_of_two 32) e ∙ is_power_of_two_complete 32 k lt in
      ground (arith, power, le),
)

check_kind_iff : (o : Option String) → (check_kind o ≡ ok tt) ↔ KnownKind o
unfolding check_kind
check_kind_iff none = (λ h. tt, λ h. refl)
check_kind_iff (some kind) =
    let same = string_eq_iff kind sketch_kind in
    (λ h. same.0 (ground (arith, h)), λ h. rw (same.1 h) refl)

check_anchor_iff : (b c : Bool) → (check_anchor b c ≡ ok tt) ↔ (c ≡ b)
unfolding check_anchor
check_anchor_iff true true = (λ h. refl, λ h. refl)
check_anchor_iff true false = (λ h. cc, λ h. cc)
check_anchor_iff false true = (λ h. cc, λ h. cc)
check_anchor_iff false false = (λ h. refl, λ h. refl)

>>-ok_iff : (m k : Result (Unit {0})) → ((m >> k) ≡ ok tt) ↔ ((m ≡ ok tt) × (k ≡ ok tt))
>>-ok_iff m k =
    (λ h. let (u, hm, hk) = >>=-eq-ok m (λ _. k) h in (hm, hk), λ h. ap (λ x. x >> k) h.0 ∙ h.1)

check_anchors_iff :
    (sketch : Bool) (pms : List PartitionMeta)
    → (check_anchors sketch pms ≡ ok tt) ↔ All (IsAnchored sketch) pms
unfolding check_anchors
check_anchors_iff sketch [] = (λ h. tt, λ h. refl)
check_anchors_iff sketch (pm ∷ pms) =
    let written = sketch && ltb 0 pm.n_blocks in
    let first = check_anchor_iff written (is_some pm.sketch_checksum) in
    let later = check_anchors_iff sketch pms in
    let both =
      >>-ok_iff (check_anchor written (is_some pm.sketch_checksum)) (check_anchors sketch pms) in
    (λ h. let (a, b) = both.0 h in (first.0 a, later.0 b), λ h. both.1 (first.1 h.0, later.1 h.1))

check_compression_iff : (o : Option CompressionMeta) → (check_compression o ≡ ok tt) ↔ IsDecodable o
unfolding check_compression
check_compression_iff none = (λ h. tt, λ h. refl)
check_compression_iff (some c) =
    let same = string_eq_iff c.codec codec_zstd in
    (λ h. (same.0 (ground (arith, h)), ground (arith, h)), λ h. ground (arith, same.1 h.0, h.1))

check_block_counts_iff :
    (block_size : ℕ) (pms : List PartitionMeta)
    → (check_block_counts block_size pms ≡ ok tt)
      ↔ All (λ pm. pm.n_blocks * block_size < 2 ^ 64) pms
unfolding check_block_counts
check_block_counts_iff block_size [] = (λ h. tt, λ h. refl)
check_block_counts_iff block_size (pm ∷ pms) =
    let later = check_block_counts_iff block_size pms in
    (λ h. (ground (arith, h), later.0 (ground (arith, h))), λ h. ground (arith, h.0, later.1 h.1))

-- `Meta::layout` accepts exactly the coherent metadata: a known hash, a block size that is a power
-- of two of at least 4096, a known sketch kind and codec, checksums exactly where a sketch or a
-- dictionary was written, block counts whose bytes a u64 can count, and a power of two of
-- partitions.
pub layout_iff : (m : Meta) → ((l : Layout) × (layout m ≡ ok l)) ↔ IsCoherent m
unfolding layout
layout_iff m = (
  λ h.
      let (l, e) = h in
      let hash : string_eq m.hash_algorithm hash_algorithm_name ≡ true = ground (arith, e) in
      let (_, h1, e1) =
        >>=-eq-ok (validate_block_size m.block_size)
          (λ _.
            check_kind m.sketch
            >> (check_anchors (is_some m.sketch) m.partitions
                >> (check_compression m.compression
                    >> (check_block_counts m.block_size m.partitions
                        >> new (length m.partitions % 2 ^ 32)))))
          {b = l} (ground (arith, hash, e)) in
      let (_, h2, e2) = >>=-eq-ok (check_kind m.sketch) _ e1 in
      let (_, h3, e3) = >>=-eq-ok (check_anchors (is_some m.sketch) m.partitions) _ e2 in
      let (_, h4, e4) = >>=-eq-ok (check_compression m.compression) _ e3 in
      let (_, h5, e5) = >>=-eq-ok (check_block_counts m.block_size m.partitions) _ e4 in
      (
        (string_eq_iff m.hash_algorithm hash_algorithm_name).0 hash,
        (validate_block_size_iff m.block_size).0 h1,
        (check_kind_iff m.sketch).0 h2,
        (check_anchors_iff (is_some m.sketch) m.partitions).0 h3,
        (check_compression_iff m.compression).0 h4,
        (check_block_counts_iff m.block_size m.partitions).0 h5,
        new_power e5,
      ),
  λ h.
      let (hash, size, kind, anchors, codec, counts, powers) = h in
      let (k, lt, power) = powers in
      let (l, made) = new-power k lt in
      (
        l,
        rw ((string_eq_iff m.hash_algorithm hash_algorithm_name).1 hash) (
            rw ((validate_block_size_iff m.block_size).1 size) (
              rw ((check_kind_iff m.sketch).1 kind) (
                rw ((check_anchors_iff (is_some m.sketch) m.partitions).1 anchors) (
                  rw ((check_compression_iff m.compression).1 codec) (
                    rw ((check_block_counts_iff m.block_size m.partitions).1 counts)
                      (ap new power ∙ made)))))),
      ),
)
