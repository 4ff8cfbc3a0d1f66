-- ===== src/V4/Reader/Found.antt =====
-- Lookups in a Robin Hood table find what was inserted.
use native.Mathlib.Nat.{mod-lt, mod-le, mod-add-mod, add-mod-mod}
use mcfreeze.Base.{ℕ, zero, suc, ◌+◌, ◌-◌, ◌*◌, ◌%◌, ◌<◌, ◌≤◌, ◌≡◌, refl, sym, ap, ◌∙◌, subst, List}
use mcfreeze.Base.{Bool, true, false, inl, inr, arith, Bool-cases, ◌==◌, length, ltb, lt→ltb}
use mcfreeze.Base.{none, some, Bytes}
use mcfreeze.Error.{ok}
use mcfreeze.Data.{compact_fingerprint}
use mcfreeze.V4.Index.{Bucket, slot, psl_at, is_empty, value_alignment}
use mcfreeze.V4.Index.Displace.{IsOccupied, IsPlaced, IsReached, IsIn}
use mcfreeze.V4.Reader.{no_match, probe_group_scalar, read_and_verify, try_offsets}
use mcfreeze.V4.Reader.{group_loop, PartitionReader, partition_get}
use mcfreeze.V4.Reader.Group.{Verifies, probe_from-past, probe_from-found}
use mcfreeze.V5.Reader.{hit}

module _ (part : PartitionReader) (cfp vfp : ℕ) (value : Bytes) (b : Bucket)
    (good : (q : ℕ)
      → IsOccupied part.buckets (q % length part.buckets)
      → (slot part.buckets (q % length part.buckets)).fingerprint ≡ cfp
      → Verifies part.data_file vfp value (slot part.buckets (q % length part.buckets)).offset)
    (full : is_empty b ≡ false) (same : b.fingerprint ≡ cfp) (ne : (b.offset == no_match) ≡ false)
    (found : read_and_verify part.data_file (b.offset * value_alignment) vfp
      ≡ ok (some value)) where
  abbrev n : ℕ
  n = length part.buckets

  loop-hit :
      (fuel pos steps : ℕ) (had : Bool)
      → ltb steps n ≡ true
      → try_offsets part.data_file vfp (probe_group_scalar part.buckets cfp pos).offsets had
        ≡ ok (some value, true)
      → group_loop (suc fuel) part cfp vfp pos steps had ≡ ok (hit value)
  unfolding group_loop
  loop-hit fuel pos steps had less tried = rw (less, group_loop) (rw tried refl)

  loop-on :
      (fuel pos steps : ℕ) (had had' : Bool)
      → ltb steps n ≡ true
      → try_offsets part.data_file vfp (probe_group_scalar part.buckets cfp pos).offsets had
        ≡ ok (none, had')
      → (probe_group_scalar part.buckets cfp pos).done ≡ false
      → group_loop (suc fuel) part cfp vfp pos steps had
        ≡ group_loop fuel part cfp vfp ((pos + 8) % n) (steps + 8) had'
  unfolding group_loop
  loop-on fuel pos steps had had' less tried more = rw (less, group_loop) (rw tried (rw more refl))

  group_loop-found :
      (fuel pos steps d : ℕ) (had : Bool)
      → d < n
      → d < steps + 8 * fuel
      → steps ≤ d
      → pos ≡ (cfp + steps) % n
      → ((j : ℕ) → j < d → IsOccupied part.buckets ((cfp + j) % n))
      → slot part.buckets ((cfp + d) % n) ≡ b
      → group_loop fuel part cfp vfp pos steps had ≡ ok (hit value)
  unfolding probe_group_scalar
  group_loop-found zero pos steps d had dn enough le at_pos occ here = absurd (omega arith)
  group_loop-found (suc fuel) pos steps d had dn enough le at_pos occ here =
      let less = lt→ltb steps n (omega arith) in
      let shift : (m : ℕ) → (pos + m) % n ≡ (cfp + (steps + m)) % n = λ m.
        ap (λ (x : ℕ). (x + m) % n) at_pos
        ∙ mod-add-mod (cfp + steps) n m
        ∙ ap (λ (x : ℕ). x % n) (let e : cfp + steps + m ≡ cfp + (steps + m) = omega arith in e) in
      let occ_at : (m : ℕ) → steps + m < d → IsOccupied part.buckets ((pos + m) % n) = λ m before.
        subst (λ (x : ℕ). IsOccupied part.buckets x) (sym (shift m)) (occ (steps + m) before) in
      elim (Bool-cases (ltb d (steps + 8))) [
        | inl near ↦
            let back : steps + (d - steps) ≡ d = omega arith in
            loop-hit fuel pos steps had less (
              probe_from-found part.data_file vfp value part.buckets cfp pos good 8 0 (d - steps)
                had b (omega arith) (ground (arith, near, le))
                (λ j _ before. occ_at j (omega arith))
                (ap (slot part.buckets) (shift (d - steps) ∙ ap (λ (x : ℕ). (cfp + x) % n) back)
                  ∙ here)
                full same ne found)
        | inr far ↦
            let far' : steps + 8 ≤ d = ground (arith, far) in
            let (more, tried) =
              probe_from-past part.data_file vfp value part.buckets cfp pos good 8 0 had
                (λ m _ lt. occ_at m (omega arith)) in
            elim tried [
              | inl hit_early ↦ loop-hit fuel pos steps had less hit_early
              | inr (had', missed) ↦
                  loop-on fuel pos steps had had' less missed more
                  ∙ group_loop-found fuel ((pos + 8) % n) (steps + 8) d had' dn (omega arith) far'
                      (shift 8) occ here
            ]
      ]

compact_fingerprint-pos : (fp : ℕ) → 0 < compact_fingerprint fp
unfolding compact_fingerprint
compact_fingerprint-pos fp = ground arith

-- The place of a bucket, less than a whole round behind its home.
within_round :
    (table : List Bucket) (f p d : ℕ)
    → 0 < length table
    → IsReached table f p d
    → (p ≡ (f + d % length table) % length table)
      × (d % length table < length table)
      × ((j : ℕ) → j < d % length table → IsOccupied table ((f + j) % length table))
within_round table f p d some_room h = (
  h.0 ∙ sym (add-mod-mod f d (length table)),
  mod-lt d {m = length table} some_room,
  λ j less. h.2 j (omega (arith, mod-le d (length table))),
)

partition_get-runs :
    (xxh64 : Bytes → ℕ → ℕ) (part : PartitionReader) (key : Bytes) (fp : ℕ)
    → 0 < length part.buckets
    → partition_get xxh64 part key fp
      ≡ group_loop
          (length part.buckets)
          part
          (compact_fingerprint fp)
          (xxh64 key part.verify_seed)
          (compact_fingerprint fp % length part.buckets)
          0
          false
unfolding partition_get
partition_get-runs xxh64 part key fp some_room =
    rw ((let e : (length part.buckets == 0) ≡ false = ground arith in e), partition_get) refl

-- A lookup in a V4 partition finds the value of a bucket of the Robin Hood table. The bucket has the
-- key's compact fingerprint and an offset that is not NO_MATCH, the read at its offset verifies the
-- key and gives the value, and reads at other buckets of the same compact fingerprint do not verify
-- or give the same value.
pub partition_get-IsIn :
    (xxh64 : Bytes → ℕ → ℕ) (part : PartitionReader) (psls : List ℕ) (key : Bytes) (fp : ℕ)
    (b : Bucket) (value : Bytes)
    → IsPlaced part.buckets psls
    → IsIn part.buckets b
    → b.fingerprint ≡ compact_fingerprint fp
    → b.offset < no_match
    → read_and_verify part.data_file (b.offset * value_alignment) (xxh64 key part.verify_seed)
      ≡ ok (some value)
    → ((b' : Bucket)
        → IsIn part.buckets b'
        → b'.fingerprint ≡ compact_fingerprint fp
        → Verifies part.data_file (xxh64 key part.verify_seed) value b'.offset)
    → partition_get xxh64 part key fp ≡ ok (hit value)
partition_get-IsIn xxh64 part psls key fp b value placed present same small found others =
    let (p, lt, here) = present in
    let n = length part.buckets in
    let some_room : 0 < n = omega (arith, lt) in
    let full : is_empty b ≡ false = ground (arith, compact_fingerprint-pos fp, same) in
    let reached : IsReached part.buckets (compact_fingerprint fp) p (psl_at psls p) =
      subst (λ (f : ℕ). IsReached part.buckets f p (psl_at psls p))
        (ap (λ (x : Bucket). x.fingerprint) here ∙ same)
        (placed.2 p lt (ap is_empty here ∙ full)) in
    let (place, less, before) =
      within_round part.buckets (compact_fingerprint fp) p (psl_at psls p) some_room reached in
    partition_get-runs xxh64 part key fp some_room
    ∙ group_loop-found part (compact_fingerprint fp) (xxh64 key part.verify_seed) value b
        (λ q occ eq.
          others (slot part.buckets (q % n)) (q % n, mod-lt q {m = n} some_room, refl) eq)
        full same (ground (arith, small)) found n (compact_fingerprint fp % n) 0 (psl_at psls p % n)
        false less (omega arith) (omega arith) (ap (λ (x : ℕ). x % n) (omega arith)) before
        (ap (slot part.buckets) (sym place) ∙ here)
