-- ===== src/V4/Examples.antt =====
-- Tests of the V4 index and its theorems at a concrete table.
use mcfreeze.Base.{ℕ, zero, suc, ◌+◌, ◌%◌, ◌<◌, ◌≡◌, refl, List, [], ◌∷◌}
use mcfreeze.Base.{arith}
use mcfreeze.Base.{◌⊎◌, length}
use mcfreeze.Base.{ap, ◌++◌, ◌*◌, ◌^◌, some, Bytes, subst, inr}
use mcfreeze.Base.Words.{to_le_bytes, from_le_bytes}
use mcfreeze.Data.{compact_fingerprint}
use mcfreeze.V4.Index.{value_alignment}
use mcfreeze.V4.Reader.{PartitionReader, partition_get, read_and_verify}
use mcfreeze.V4.Reader.Group.{Verifies}
use mcfreeze.V4.Writer.{AlignedWriter, write_value}
use mcfreeze.V4.Writer.RoundTrip.{write_value-read_and_verify}
use mcfreeze.Base.{replicate}
use mcfreeze.V4.Reader.Found.{partition_get-IsIn}
use mcfreeze.V4.Spill.{create_spill, finish_spill, read_spill}
use mcfreeze.V4.Spill.Returns.{push_all, push_all-read_spill}
use mcfreeze.V5.Reader.{hit}
use mcfreeze.Error.{ok}
use mcfreeze.V4.Index.{Bucket, default_bucket, insert, slot, psl_at, displace, advance}
use mcfreeze.V4.Index.{insert_loop}
use mcfreeze.V4.Index.Displace.{IsPlaced, IsIn, IsOccupied, IsReached}
use mcfreeze.V4.Index.Insert.{IsInserted, insert-IsInserted}

-- Two buckets whose home is place 1: the second stands at place 2.
abbrev table : List Bucket
table =
    default_bucket
    ∷ (record { fingerprint = 5; offset = 1 }
        ∷ (record { fingerprint = 9; offset = 0 } ∷ (default_bucket ∷ [])))

abbrev psls : List ℕ
psls = 0 ∷ (0 ∷ (1 ∷ (0 ∷ [])))

-- A bucket whose home is place 2 goes behind the one that was displaced there.
insert_runs :
    insert table psls (record { fingerprint = 6; offset = 12 })
    ≡ ok (
      default_bucket
          ∷ (record { fingerprint = 5; offset = 1 }
              ∷ (record { fingerprint = 9; offset = 0 }
                  ∷ (record { fingerprint = 6; offset = 12 } ∷ []))),
      0 ∷ (0 ∷ (1 ∷ (1 ∷ []))),
    )
unfolding insert insert_loop displace advance
insert_runs = refl

small_psls : (p : ℕ) → p < length table → psl_at psls p < 256
small_psls zero h = omega arith
small_psls (suc zero) h = omega arith
small_psls (suc (suc zero)) h = omega arith
small_psls (suc (suc (suc zero))) h = omega arith
small_psls (suc (suc (suc (suc p)))) h = absurd (omega arith)

-- Between the home of the bucket with fingerprint 9 and its place stands the other one.
before_nine : (j : ℕ) → j < 1 → IsOccupied table ((9 + j) % length table)
before_nine zero h = refl
before_nine (suc j) h = absurd (omega arith)

reached :
    (p : ℕ)
    → p < length table
    → IsOccupied table p
    → IsReached table (slot table p).fingerprint p (psl_at psls p)
reached zero h full = cc
reached (suc zero) h full = (refl, omega arith, λ j less. absurd (omega arith))
reached (suc (suc zero)) h full = (refl, omega arith, before_nine)
reached (suc (suc (suc zero))) h full = cc
reached (suc (suc (suc (suc p)))) h full = absurd (omega arith)

table-IsPlaced : IsPlaced table psls
table-IsPlaced = (refl, small_psls, reached)

insert-IsInserted_example :
    IsInserted
      (insert table psls (record { fingerprint = 6; offset = 12 }))
      4
      (λ b. IsIn table b ⊎ (b ≡ record { fingerprint = 6; offset = 12 }))
insert-IsInserted_example =
    insert-IsInserted table psls (record { fingerprint = 6; offset = 12 }) (omega arith)
      table-IsPlaced refl

abbrev const_hash : Bytes → ℕ → ℕ
const_hash bytes seed = 777

-- The value 1 2 3 at place 0 of the file.
abbrev part : PartitionReader
part = record {
  buckets = table;
  data_file = to_le_bytes 8 777 ++ (to_le_bytes 4 3 ++ (1 ∷ (2 ∷ (3 ∷ []))));
  verify_seed = 4;
}

read_runs : read_and_verify part.data_file 0 777 ≡ ok (some (1 ∷ (2 ∷ (3 ∷ []))))
unfolding read_and_verify from_le_bytes to_le_bytes
read_runs = refl

others :
    (b : Bucket)
    → IsIn table b
    → b.fingerprint ≡ 9
    → Verifies part.data_file 777 (1 ∷ (2 ∷ (3 ∷ []))) b.offset
others b (zero, lt, here) e = absurd (omega (arith, e, ap (λ (x : Bucket). x.fingerprint) here))
others b (suc zero, lt, here) e = absurd (omega (arith, e, ap (λ (x : Bucket). x.fingerprint) here))
others b (suc (suc zero), lt, here) e = inr (
    subst
      (λ (o : ℕ).
        read_and_verify part.data_file (o * value_alignment) 777 ≡ ok (some (1 ∷ (2 ∷ (3 ∷ [])))))
      (ap (λ (x : Bucket). x.offset) here) read_runs)
others b (suc (suc (suc zero)), lt, here) e =
    absurd (omega (arith, e, ap (λ (x : Bucket). x.fingerprint) here))
others b (suc (suc (suc (suc p))), lt, here) e = absurd (omega arith)

partition_get-IsIn_example :
    partition_get const_hash part (107 ∷ []) (9 * 2 ^ 32) ≡ ok (hit (1 ∷ (2 ∷ (3 ∷ []))))
unfolding compact_fingerprint
partition_get-IsIn_example =
    partition_get-IsIn const_hash part psls (107 ∷ []) (9 * 2 ^ 32)
      (record { fingerprint = 9; offset = 0 }) (1 ∷ (2 ∷ (3 ∷ []))) table-IsPlaced
      (2, omega arith, refl) refl (omega arith) read_runs others

abbrev writer : AlignedWriter
writer = record { inner = replicate 64 9; byte_offset = 64; verify_seed = 4 }

write_value-read_and_verify_example :
    (let (place, w') = write_value const_hash writer (107 ∷ []) (5 ∷ (6 ∷ [])) in
      (place.0 * value_alignment ≡ 64)
      × (w'.byte_offset ≡ length w'.inner)
      × (w'.byte_offset % 64 ≡ 0)
      × (read_and_verify (w'.inner ++ (3 ∷ [])) (place.0 * value_alignment) 777
          ≡ ok (some (5 ∷ (6 ∷ [])))))
write_value-read_and_verify_example =
    write_value-read_and_verify const_hash writer (107 ∷ []) (5 ∷ (6 ∷ [])) (3 ∷ []) refl refl
      (omega arith) (omega arith)

abbrev two_buckets : List Bucket
two_buckets = record { fingerprint = 5; offset = 1 } ∷ (record { fingerprint = 9; offset = 0 } ∷ [])

push_all-read_spill_example :
    ((finish_spill (push_all two_buckets create_spill)).1 ≡ length two_buckets)
    × (read_spill (finish_spill (push_all two_buckets create_spill)).0 ≡ ok two_buckets)
push_all-read_spill_example =
    push_all-read_spill two_buckets ((omega arith, omega arith), ((omega arith, omega arith), tt))
      (omega arith)
