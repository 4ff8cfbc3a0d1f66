-- ===== src/V4/Writer/RoundTrip.antt =====
-- A value that was written is read back.
use mcfreeze.Base.{ℕ, zero, suc, ◌+◌, ◌-◌, ◌*◌, ◌/◌, ◌%◌, ◌^◌, ◌<◌, ◌≤◌, ◌≡◌, refl, sym, ap, ◌∙◌}
use mcfreeze.Base.{[]}
use mcfreeze.Base.{◌∷◌, ◌++◌, inl, inr, arith, Bool-cases, ltb}
use mcfreeze.Base.{Bytes, length, slice, take, drop, replicate, length-append}
use mcfreeze.Base.{length-take, length-replicate, drop-append, take-append, slice-middle}
use mcfreeze.Base.{slice-second}
use mcfreeze.Base.{some, bit_and, append_assoc}
use mcfreeze.Base.Bits.{bit_and_shifted, bit_and_mask}
use mcfreeze.Base.Words.{to_le_bytes, from_le_bytes, length-to_le_bytes, from_le_bytes-to_le_bytes}
use mcfreeze.Data.{pread, pread-ok}
use mcfreeze.Error.{ok}
use mcfreeze.V4.Index.{aligned_size, value_alignment}
use mcfreeze.V4.Reader.{read_and_verify, read_value, pread_up_to, plain_fingerprint}
use mcfreeze.V4.Writer.{AlignedWriter, write_value, on_disk_size}

aligned_size_lem : (n : ℕ) → n < 2 ^ 32 → aligned_size n ≡ (n + 63) / 64 * 64
unfolding aligned_size
aligned_size_lem n h =
    ap (λ (t : ℕ). bit_and t ((2 ^ 58 - 1) * 2 ^ 6))
      (let e : n + 64 - 1 ≡ n + 63 = omega arith in e)
    ∙ bit_and_shifted 6 (n + 63) (2 ^ 58 - 1)
    ∙ ap (λ (t : ℕ). t * 64) (bit_and_mask 58 ((n + 63) / 64))
    ∙ omega arith

take-take : (m n : ℕ) (xs : Bytes) → m ≤ n → take m (take n xs) ≡ take m xs
take-take zero n xs h = refl
take-take (suc m) zero xs h = absurd (omega arith)
take-take (suc m) (suc n) [] h = refl
take-take (suc m) (suc n) (x ∷ xs) h = ap (λ zs. x ∷ zs) (take-take m n xs (omega arith))

take-nil : (n : ℕ) → take {A = ℕ} n [] ≡ []
take-nil zero = refl
take-nil (suc n) = refl

drop-take : (a n : ℕ) (xs : Bytes) → drop a (take n xs) ≡ take (n - a) (drop a xs)
drop-take zero n xs = ap (λ (k : ℕ). take k xs) (let e : n ≡ n - 0 = omega arith in e)
drop-take (suc a) zero xs =
    ap (λ (k : ℕ). take k (drop (suc a) xs)) (let e : 0 ≡ 0 - suc a = omega arith in e)
drop-take (suc a) (suc n) [] = sym (take-nil (suc n - suc a))
drop-take (suc a) (suc n) (x ∷ xs) =
    drop-take a n xs
    ∙ ap (λ (k : ℕ). take k (drop a xs)) (let e : n - a ≡ suc n - suc a = omega arith in e)

slice-take : (a b n : ℕ) (xs : Bytes) → b ≤ n → slice a b (take n xs) ≡ slice a b xs
slice-take a b n xs h =
    ap (take (b - a)) (drop-take a n xs) ∙ take-take (b - a) (n - a) (drop a xs) (omega arith)

-- The bytes at a place of the file.
abbrev image : ℕ → Bytes → Bytes → Bytes
image vfp value tail = to_le_bytes 8 vfp ++ (to_le_bytes 4 (length value) ++ (value ++ tail))

length-image :
    (vfp : ℕ) (value tail : Bytes) → length (image vfp value tail) ≡ 12 + length value + length tail
length-image vfp value tail = omega (
  arith,
  length-append (to_le_bytes 8 vfp) (to_le_bytes 4 (length value) ++ (value ++ tail)),
  length-append (to_le_bytes 4 (length value)) (value ++ tail),
  length-append value tail,
  length-to_le_bytes 8 vfp,
  length-to_le_bytes 4 (length value),
)

value-in-image :
    (vfp : ℕ) (value tail : Bytes) (n : ℕ)
    → 12 + length value ≤ n
    → slice 12 (12 + length value) (take n (image vfp value tail)) ≡ value
value-in-image vfp value tail n h =
    slice-take 12 (12 + length value) n (image vfp value tail) h
    ∙ slice-second 12 (12 + length value) (to_le_bytes 8 vfp) (to_le_bytes 4 (length value)) value
        tail (omega (arith, length-to_le_bytes 8 vfp, length-to_le_bytes 4 (length value))) refl

slice-image :
    (file pre whole : Bytes) (n : ℕ)
    → file ≡ pre ++ whole
    → slice (length pre) (length pre + n) file ≡ take n whole
slice-image file pre whole n eq =
    ap (slice (length pre) (length pre + n)) eq
    ∙ ap (take (length pre + n - length pre)) (drop-append (length pre) pre whole refl)
    ∙ ap (λ (k : ℕ). take k whole) (let e : length pre + n - length pre ≡ n = omega arith in e)

pread-image :
    (file pre whole : Bytes) (n : ℕ)
    → file ≡ pre ++ whole
    → n ≤ length whole
    → pread file (length pre) n ≡ ok (take n whole)
pread-image file pre whole n eq h =
    pread-ok file (length pre) n (omega (arith, ap length eq, length-append pre whole))
    ∙ ap ok (slice-image file pre whole n eq)

read_value-image :
    (file pre : Bytes) (vfp n : ℕ) (value tail : Bytes)
    → file ≡ pre ++ image vfp value tail
    → 12 ≤ n
    → 12 + length value + 64 ≤ 2 ^ 32
    → (12 + length value + 63) / 64 * 64 ≤ 12 + length value + length tail
    → read_value file (length pre) (take n (image vfp value tail)) ≡ ok (some value)
unfolding read_value
read_value-image file pre vfp n value tail eq n12 small padded =
    let whole = image vfp value tail in
    let total = aligned_size (12 + length value) in
    let total_lem = aligned_size_lem (12 + length value) (omega arith) in
    let stored : from_le_bytes (slice 8 12 (take n whole)) ≡ length value =
      ap from_le_bytes (
        slice-take 8 12 n whole n12
        ∙ slice-middle 8 12 (to_le_bytes 8 vfp) (to_le_bytes 4 (length value)) (value ++ tail)
            (omega (arith, length-to_le_bytes 8 vfp))
            (omega (arith, length-to_le_bytes 8 vfp, length-to_le_bytes 4 (length value))))
      ∙ from_le_bytes-to_le_bytes 4 (length value) (omega arith) in
    let first_len = length-take n whole in
    let whole_len = length-image vfp value tail in
    let again : pread file (length pre) ((12 + length value + 63) / 64 * 64)
        ≡ ok (take ((12 + length value + 63) / 64 * 64) whole) =
      pread-image file pre whole ((12 + length value + 63) / 64 * 64) eq
        (omega (arith, whole_len)) in
    elim (Bool-cases (ltb (length (take n whole)) (12 + length value))) [
      | inl short ↦ ground (
        arith,
        stored,
        short,
        total_lem,
        again,
        length-take ((12 + length value + 63) / 64 * 64) whole,
        whole_len,
        value-in-image vfp value tail ((12 + length value + 63) / 64 * 64) (omega arith),
      )
      | inr enough ↦ ground (
        arith,
        stored,
        enough,
        value-in-image vfp value tail n (ground (arith, enough, first_len, whole_len)),
      )
    ]

read_and_verify-image :
    (file pre : Bytes) (vfp : ℕ) (value tail : Bytes)
    → file ≡ pre ++ image vfp value tail
    → length pre % 64 ≡ 0
    → vfp < 2 ^ 64
    → 12 + length value + 64 ≤ 2 ^ 32
    → (12 + length value + 63) / 64 * 64 ≤ 12 + length value + length tail
    → read_and_verify file (length pre) vfp ≡ ok (some value)
unfolding read_and_verify pread_up_to
read_and_verify-image file pre vfp value tail eq aligned word small padded =
    let whole = image vfp value tail in
    let n = 4096 - length pre % 4096 in
    let first : slice (length pre) (length pre + n) file ≡ take n whole =
      slice-image file pre whole n eq in
    let n64 : 64 ≤ n = omega arith in
    let tag : from_le_bytes (take 8 (take n whole)) ≡ vfp =
      ap from_le_bytes (
        take-take 8 n whole (omega arith)
        ∙ take-append 8 (to_le_bytes 8 vfp) (to_le_bytes 4 (length value) ++ (value ++ tail))
            (sym (length-to_le_bytes 8 vfp)))
      ∙ from_le_bytes-to_le_bytes 8 vfp word in
    ground (
      arith,
      first,
      tag,
      length-take n whole,
      length-image vfp value tail,
      read_value-image file pre vfp n value tail eq (omega arith) small padded,
    )

image-append :
    (vfp : ℕ) (value tail rest : Bytes)
    → image vfp value tail ++ rest ≡ image vfp value (tail ++ rest)
image-append vfp value tail rest =
    let tag = to_le_bytes 8 vfp in
    let len = to_le_bytes 4 (length value) in
    append_assoc tag (len ++ (value ++ tail)) rest
    ∙ ap (λ zs. tag ++ zs)
        (append_assoc len (value ++ tail) rest
          ∙ ap (λ zs. len ++ zs) (append_assoc value tail rest))

-- A value that `write_value` wrote is read back. Take a writer whose offset is the length of what it
-- wrote, a multiple of 64, and a value whose size on disk is at most 2^32 - 64. The offset that
-- `write_value` returns, times 64, is where the value starts; the writer's offset is again the
-- length of what it wrote, a multiple of 64; and in a file that goes on in any way,
-- `read_and_verify` at the place verifies the key and gives the value.
pub write_value-read_and_verify :
    (xxh64 : Bytes → ℕ → ℕ) (w : AlignedWriter) (key value rest : Bytes)
    → w.byte_offset ≡ length w.inner
    → w.byte_offset % 64 ≡ 0
    → 12 + length value + 64 ≤ 2 ^ 32
    → xxh64 key w.verify_seed < 2 ^ 64
    → (let (place, w') = write_value xxh64 w key value in
        (place.0 * value_alignment ≡ w.byte_offset)
        × (w'.byte_offset ≡ length w'.inner)
        × (w'.byte_offset % 64 ≡ 0)
        × (read_and_verify (w'.inner ++ rest) (place.0 * value_alignment) (xxh64 key w.verify_seed)
            ≡ ok (some value)))
unfolding write_value plain_fingerprint
write_value-read_and_verify xxh64 w key value rest whole aligned small word =
    let vfp = xxh64 key w.verify_seed in
    let size = 12 + length value in
    let same_size : on_disk_size value ≡ size = omega arith in
    let padded_lem : aligned_size (on_disk_size value) ≡ (size + 63) / 64 * 64 =
      ap aligned_size same_size ∙ aligned_size_lem size (omega arith) in
    let pad : Bytes = replicate (aligned_size (on_disk_size value) - on_disk_size value) 0 in
    let pad_len =
      length-replicate {A = ℕ} (aligned_size (on_disk_size value) - on_disk_size value) 0 in
    let len_eq : length value % 2 ^ 32 ≡ length value = omega arith in
    let place : w.byte_offset / 64 * 64 ≡ w.byte_offset = omega arith in
    let body = to_le_bytes 8 vfp ++ (to_le_bytes 4 (length value % 2 ^ 32) ++ (value ++ pad)) in
    let body_eq : body ≡ image vfp value pad =
      ap (λ (t : ℕ). to_le_bytes 8 vfp ++ (to_le_bytes 4 t ++ (value ++ pad))) len_eq in
    let file = (w.inner ++ body) ++ rest in
    let file_eq : file ≡ w.inner ++ image vfp value (pad ++ rest) =
      append_assoc w.inner body rest
      ∙ ap (λ zs. w.inner ++ zs)
          (ap (λ zs. zs ++ rest) body_eq ∙ image-append vfp value pad rest) in
    (
      place,
      omega (
        arith,
        whole,
        length-append w.inner body,
        ap length body_eq,
        length-image vfp value pad,
        pad_len,
        padded_lem,
        same_size,
      ),
      omega (arith, aligned, padded_lem),
      ap (λ (o : ℕ). read_and_verify file o vfp) (place ∙ whole)
          ∙ read_and_verify-image file w.inner vfp value (pad ++ rest) file_eq (omega arith) word
              small (omega (arith, length-append pad rest, pad_len, padded_lem, same_size)),
    )
