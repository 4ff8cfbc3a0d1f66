-- ===== src/V5/Block/Seal.antt =====
-- Sealed blocks: the bytes that a block of records has, and what `verify` and `find` say of them.
use mcfreeze.Base.{ℕ, suc, ◌+◌, ◌-◌, ◌^◌, ◌≤◌, ◌<◌, ◌≡◌, refl, sym, ap, ◌∙◌}
use mcfreeze.Base.{List, [], ◌++◌, arith, Bytes}
use mcfreeze.Base.{append_assoc, All, drop-append}
use mcfreeze.Base.{length, slice, drop, replicate, length-append, length-replicate}
use mcfreeze.Base.{slice-middle}
use mcfreeze.Base.Words.{to_le_bytes, length-to_le_bytes}
use mcfreeze.Base.Words.{from_le_bytes-to_le_bytes}
use mcfreeze.Error.{ok}
use mcfreeze.V5.Block.{Record, checksum32, verify, find, records}
use mcfreeze.V5.Block.Encoding.{IsStorable}
use mcfreeze.V5.Block.Scan.{encode_records, size_of_records, first_match, length-encode_records}
use mcfreeze.V5.Block.Scan.{length-le-size, find_loop-encode_records}

-- What the assembler makes of the records of one block.
unfoldable pub block_body : ℕ → List Record → Bytes
block_body block_size rs = encode_records rs ++ replicate (block_size - 4 - size_of_records rs) 0

length-block_body :
    (block_size : ℕ) (rs : List Record)
    → size_of_records rs + 4 ≤ block_size
    → length (block_body block_size rs) ≡ block_size - 4
unfolding block_body
length-block_body block_size rs fits = omega (
  arith,
  length-append (encode_records rs) (replicate (block_size - 4 - size_of_records rs) 0),
  length-encode_records rs,
  length-replicate {A = ℕ} (block_size - 4 - size_of_records rs) 0,
)

module _ (xxh64 : Bytes → ℕ → ℕ) where
  unfoldable pub seal : ℕ → List Record → Bytes
  unfolding block_body
  seal block_size rs =
      block_body block_size rs ++ to_le_bytes 4 (checksum32 xxh64 (block_body block_size rs))

  pub checksum32-lt : (bytes : Bytes) → checksum32 xxh64 bytes < 2 ^ 32
  unfolding checksum32
  checksum32-lt bytes = omega arith

  pub length-seal :
      (block_size : ℕ) (rs : List Record)
      → size_of_records rs + 4 ≤ block_size
      → length (seal block_size rs) ≡ block_size
  unfolding seal
  length-seal block_size rs fits = omega (
    arith,
    length-append (block_body block_size rs)
        (to_le_bytes 4 (checksum32 xxh64 (block_body block_size rs))),
    length-append (encode_records rs) (replicate (block_size - 4 - size_of_records rs) 0),
    length-encode_records rs,
    length-replicate {A = ℕ} (block_size - 4 - size_of_records rs) 0,
    length-to_le_bytes 4 (checksum32 xxh64 (block_body block_size rs)),
  )

  pub verify-seal :
      (block_size : ℕ) (rs : List Record)
      → size_of_records rs + 4 ≤ block_size
      → verify xxh64 (seal block_size rs) ≡ ok tt
  unfolding verify
  verify-seal block_size rs fits =
      let body = block_body block_size rs in
      let sum = to_le_bytes 4 (checksum32 xxh64 body) in
      let split : seal block_size rs ≡ body ++ sum = unfold seal in refl in
      ground (
        arith,
        length-seal block_size rs fits,
        ap (slice 0 (block_size - 4)) split
            ∙ slice-middle 0 (block_size - 4) [] body sum refl
                (omega (arith, length-block_body block_size rs fits)),
        ap (drop (block_size - 4)) split
            ∙ drop-append (block_size - 4) body sum (sym (length-block_body block_size rs fits)),
        from_le_bytes-to_le_bytes 4 (checksum32 xxh64 body),
        checksum32-lt body,
      )

  block_layout :
      (block_size : ℕ) (rs : List Record)
      → seal block_size rs
        ≡ encode_records rs
          ++ (replicate (block_size - 4 - size_of_records rs) 0
              ++ to_le_bytes 4 (checksum32 xxh64 (block_body block_size rs)))
  unfolding seal block_body
  block_layout block_size rs =
      append_assoc (encode_records rs) (replicate (block_size - 4 - size_of_records rs) 0)
        (to_le_bytes 4 (checksum32 xxh64 (block_body block_size rs)))

  -- `find` on a sealed block returns the first of its records with the given fingerprint, and
  -- `None` if there is none.
  pub find-seal :
      (block_size vfp : ℕ) (rs : List Record)
      → All IsStorable rs
      → size_of_records rs + 4 ≤ block_size
      → block_size < 2 ^ 63
      → find xxh64 (seal block_size rs) vfp ≡ ok (first_match vfp rs)
  unfolding find records
  find-seal block_size vfp rs st fits small = rw (verify-seal block_size rs fits) (
      find_loop-encode_records rs (suc (length (seal block_size rs))) vfp
        (block_size - 4 - size_of_records rs) (records (seal block_size rs)) []
        (to_le_bytes 4 (checksum32 xxh64 (block_body block_size rs))) st
        (block_layout block_size rs) refl refl refl (omega (arith, length-seal block_size rs fits))
        (omega (arith, length-seal block_size rs fits))
        (omega (arith, length-seal block_size rs fits, length-le-size rs)))
