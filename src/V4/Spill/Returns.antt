-- ===== src/V4/Spill/Returns.antt =====
-- A spill file returns its records, and a file that was cut short is an error.
use mcfreeze.Base.{ℕ, suc, ◌+◌, ◌%◌, ◌^◌, ◌<◌, ◌≡◌, refl, sym, ap, ◌∙◌, List, [], ◌∷◌, ◌++◌}
use mcfreeze.Base.{Bytes, length, take, drop, arith, All, append_assoc, append-nil, length-append}
use mcfreeze.Base.{take-append, drop-append, ltb, false, ◌==◌, ◌-◌, Option, some}
use mcfreeze.Base.Words.{to_le_bytes, from_le_bytes, length-to_le_bytes, from_le_bytes-to_le_bytes}
use mcfreeze.Error.{Result, ok, ◌>>=◌}
use mcfreeze.V4.Index.{Bucket}
use mcfreeze.V4.Spill.{SpillWriter, SpillReader, SpillIter, create_spill, push_bucket, finish_spill}
use mcfreeze.V4.Spill.{spill_magic, record_bytes, bucket_of, read_exact, check_header, open_spill}
use mcfreeze.V4.Spill.{spill_records, next_record, on_record, collect_on, collect_records}
use mcfreeze.V4.Spill.{read_spill}
use mcfreeze.V4.Spill.{same_bytes}

-- The pushes of a writer.
unfoldable pub push_all : List Bucket → SpillWriter → SpillWriter
push_all [] w = w
push_all (b ∷ bs) w = push_all bs (push_bucket b w)

-- The bytes of records.
pub body : List Bucket → Bytes
body [] = []
body (b ∷ bs) = record_bytes b ++ body bs

abbrev pub IsBucket : Bucket → Type 0
IsBucket b = (b.fingerprint < 2 ^ 32) × (b.offset < 2 ^ 32)

length-record_bytes : (b : Bucket) → length (record_bytes b) ≡ 8
unfolding record_bytes
length-record_bytes b = omega (
  arith,
  length-append (to_le_bytes 4 b.fingerprint) (to_le_bytes 4 b.offset),
  length-to_le_bytes 4 b.fingerprint,
  length-to_le_bytes 4 b.offset,
)

bucket_of-record_bytes : (b : Bucket) → IsBucket b → bucket_of (record_bytes b) ≡ b
unfolding bucket_of record_bytes
bucket_of-record_bytes b h =
    let lo = to_le_bytes 4 b.fingerprint in
    let hi = to_le_bytes 4 b.offset in
    let n : 4 ≡ length lo = sym (length-to_le_bytes 4 b.fingerprint) in
    let f : from_le_bytes (take 4 (lo ++ hi)) ≡ b.fingerprint =
      ap from_le_bytes (take-append 4 lo hi n)
      ∙ from_le_bytes-to_le_bytes 4 b.fingerprint (omega (arith, h.0)) in
    let o : from_le_bytes (drop 4 (lo ++ hi)) ≡ b.offset =
      ap from_le_bytes (drop-append 4 lo hi n)
      ∙ from_le_bytes-to_le_bytes 4 b.offset (omega (arith, h.1)) in
    ap
      (λ x.
        (let z : Bucket = record { fingerprint = x; offset = from_le_bytes (drop 4 (lo ++ hi)) } in
          z))
      f
    ∙ ap (λ y. (let z : Bucket = record { fingerprint = b.fingerprint; offset = y } in z)) o

push_all-body :
    (bs : List Bucket) (w : SpillWriter)
    → ((push_all bs w).out ≡ w.out ++ body bs) × ((push_all bs w).count ≡ w.count + length bs)
unfolding push_all push_bucket body
push_all-body [] w = (sym (append-nil w.out), omega arith)
push_all-body (b ∷ bs) w =
    let (out, count) = push_all-body bs (push_bucket b w) in
    (out ∙ append_assoc w.out (record_bytes b) (body bs), omega (arith, count))

read_exact-append : (n : ℕ) (xs ys : Bytes) → length xs ≡ n → read_exact n (xs ++ ys) ≡ ok (xs, ys)
unfolding read_exact
read_exact-append n xs ys h =
    let enough : ltb (length (xs ++ ys)) n ≡ false = ground (arith, length-append xs ys, h) in
    rw (enough, take-append n xs ys (sym h), drop-append n xs ys (sym h)) refl

collect_records-none : collect_records 1 (record { reader = []; remaining = 0 }) ≡ ok []
unfolding collect_records next_record
collect_records-none = refl

next_record-body :
    (b : Bucket) (rest : Bytes) (n : ℕ)
    → IsBucket b
    → next_record (record { reader = record_bytes b ++ rest; remaining = suc n })
      ≡ (some (ok b), record { reader = rest; remaining = n })
unfolding next_record
next_record-body b rest n h =
    let it : SpillIter = record { reader = record_bytes b ++ rest; remaining = suc n } in
    let more : (suc n == 0) ≡ false = ground arith in
    let back : suc n - 1 ≡ n = omega arith in
    rw more (
      ap (on_record it) (read_exact-append 8 (record_bytes b) rest (length-record_bytes b))
      ∙ ap
          (λ x.
            (let r : Option (Result Bucket) × SpillIter =
                (some (ok x), record { reader = rest; remaining = suc n - 1 }) in
              r))
          (bucket_of-record_bytes b h)
      ∙ ap
          (λ k.
            (let r : Option (Result Bucket) × SpillIter =
                (some (ok b), record { reader = rest; remaining = k }) in
              r))
          back)

collect_records-body :
    (bs : List Bucket)
    → All IsBucket bs
    → collect_records (suc (length bs)) (record { reader = body bs; remaining = length bs }) ≡ ok bs
unfolding collect_records body
collect_records-body [] h = collect_records-none
collect_records-body (b ∷ bs) h =
    ap (collect_on (collect_records (suc (length bs))))
      (next_record-body b (body bs) (length bs) h.0)
    ∙ ap (λ (r : Result (List Bucket)). r >>= λ bs'. ok (b ∷ bs')) (collect_records-body bs h.1)

check_header-magic :
    (n : ℕ) (rest : Bytes)
    → n < 2 ^ 64
    → check_header (spill_magic ++ to_le_bytes 8 n, rest) ≡ ok (record { file = rest; count = n })
unfolding same_bytes
check_header-magic n rest few =
    let there : from_le_bytes (drop 8 (spill_magic ++ to_le_bytes 8 n)) ≡ n =
      ap from_le_bytes (drop-append 8 spill_magic (to_le_bytes 8 n) refl)
      ∙ from_le_bytes-to_le_bytes 8 n (omega (arith, few)) in
    ap (λ k. (let r : Result SpillReader = ok (record { file = rest; count = k }) in r)) there

read_spill-body :
    (bs : List Bucket)
    → All IsBucket bs
    → length bs < 2 ^ 64
    → read_spill ((spill_magic ++ to_le_bytes 8 (length bs)) ++ body bs) ≡ ok bs
unfolding read_spill open_spill spill_records
read_spill-body bs h few =
    let hdr = spill_magic ++ to_le_bytes 8 (length bs) in
    let sized : length hdr ≡ 16 =
      length-append spill_magic (to_le_bytes 8 (length bs))
      ∙ ap (λ k. 8 + k) (length-to_le_bytes 8 (length bs)) in
    ap
      (λ (r : Result (Bytes × Bytes)).
        (r >>= check_header) >>= λ x. collect_records (suc x.count) (spill_records x))
      (read_exact-append 16 hdr (body bs) sized)
    ∙ ap (λ (r : Result SpillReader). r >>= λ x. collect_records (suc x.count) (spill_records x))
        (check_header-magic (length bs) (body bs) few)
    ∙ collect_records-body bs h

-- The records that were pushed are the records that are read back. A writer that is given any
-- buckets, in number less than 2 ^ 64, returns their count when it finishes, although it wrote the
-- header first with a count of zero; and the file that it leaves opens and yields exactly these
-- buckets, in their order, and then ends.
pub push_all-read_spill :
    (bs : List Bucket)
    → All IsBucket bs
    → length bs < 2 ^ 64
    → ((finish_spill (push_all bs create_spill)).1 ≡ length bs)
      × (read_spill (finish_spill (push_all bs create_spill)).0 ≡ ok bs)
unfolding finish_spill create_spill
push_all-read_spill bs h few =
    let zeros = to_le_bytes 8 0 in
    let w = push_all bs create_spill in
    let (out, counted) = push_all-body bs create_spill in
    let count : w.count % 2 ^ 64 ≡ length bs = omega (arith, counted, few) in
    let first : w.out ≡ spill_magic ++ (zeros ++ body bs) =
      out ∙ append_assoc spill_magic zeros (body bs) in
    let magic : take 8 w.out ≡ spill_magic =
      ap (take 8) first ∙ take-append 8 spill_magic (zeros ++ body bs) refl in
    let rest : drop 16 w.out ≡ body bs =
      ap (drop 16) out
      ∙ drop-append 16 (spill_magic ++ zeros) (body bs)
          (sym (length-append spill_magic zeros ∙ ap (λ k. 8 + k) (length-to_le_bytes 8 0))) in
    (
      count,
      ap (λ z. read_spill (z ++ (to_le_bytes 8 (w.count % 2 ^ 64) ++ drop 16 w.out))) magic
          ∙ ap (λ k. read_spill (spill_magic ++ (to_le_bytes 8 k ++ drop 16 w.out))) count
          ∙ ap (λ z. read_spill (spill_magic ++ (to_le_bytes 8 (length bs) ++ z))) rest
          ∙ ap read_spill (sym (append_assoc spill_magic (to_le_bytes 8 (length bs)) (body bs)))
          ∙ read_spill-body bs h few,
    )
