-- ===== src/V5/Block/Encoding.antt =====
-- The bytes of a record, and the arithmetic of alignment and of the length field's flags.
use mcfreeze.Base.{ℕ, ◌+◌, ◌-◌, ◌*◌, ◌/◌, ◌%◌, ◌^◌, ◌≤◌, ◌<◌, ◌≡◌, ap, ◌∙◌}
use mcfreeze.Base.{◌++◌, Bool, true, false, not, ◌≢◌, arith, bit_and, bit_or, Bytes}
use mcfreeze.Base.{length, replicate, length-append, length-replicate, ◌==◌, if◌then◌else◌}
use mcfreeze.Base.Bits.{bit_and_shifted, bit_and_mask, bit_and_bit, bit_or_above}
use mcfreeze.Base.Words.{to_le_bytes, length-to_le_bytes}
use mcfreeze.V5.Block.{Record, inline_record, stub_record, record_vfp, align8}
use mcfreeze.V5.Block.{max_value_len, flag_out_of_line, flag_compressed}

pub align8_lem : (n : ℕ) → n + 7 < 2 ^ 64 → align8 n ≡ (n + 7) / 8 * 8
unfolding align8
align8_lem n h =
    bit_and_shifted 3 ((n + 7) % 2 ^ 64) (2 ^ 61 - 1)
    ∙ ap (λ (t : ℕ). t * 8) (bit_and_mask 61 ((n + 7) % 2 ^ 64 / 8))
    ∙ omega arith

abbrev flag : Bool → ℕ → ℕ
flag b n = if b then n else 0

-- The length field of a record, as a sum of its parts.
unfoldable pub length_flags : Record → ℕ
length_flags (inline_record vfp value compressed) = length value + flag compressed (2 ^ 30)
length_flags (stub_record vfp stub compressed) = stub.stored_len + 2 ^ 31 + flag compressed (2 ^ 30)

unfoldable pub payload : Record → Bytes
payload (inline_record vfp value compressed) = value
payload (stub_record vfp stub compressed) =
    to_le_bytes 8 stub.heap_offset ++ to_le_bytes 4 stub.value_checksum

-- The size of a record in a block: the header, the payload, and zeros up to a multiple of 8.
unfoldable pub record_size : Record → ℕ
unfolding payload
record_size r = (12 + length (payload r) + 7) / 8 * 8

unfoldable pub padding : Record → Bytes
unfolding record_size
padding r = replicate (record_size r - (12 + length (payload r))) 0

unfoldable pub encode_record : Record → Bytes
unfolding padding length_flags payload
encode_record r =
    to_le_bytes 8 (record_vfp r) ++ (to_le_bytes 4 (length_flags r) ++ (payload r ++ padding r))

-- The values that the fields of a record can hold. A zero fingerprint is the padding sentinel.
abbrev pub IsStorable : Record → Type 0
IsStorable (inline_record vfp value compressed) =
    (vfp ≢ 0) × (vfp < 2 ^ 64) × (length value ≤ max_value_len)
IsStorable (stub_record vfp stub compressed) =
    (vfp ≢ 0)
    × (vfp < 2 ^ 64)
    × (stub.stored_len ≤ max_value_len)
    × (stub.heap_offset < 2 ^ 64)
    × (stub.value_checksum < 2 ^ 32)

pub length-encode_record : (r : Record) → length (encode_record r) ≡ record_size r
unfolding encode_record
length-encode_record r = ground (
  arith,
  length-append (to_le_bytes 8 (record_vfp r))
      (to_le_bytes 4 (length_flags r) ++ (payload r ++ padding r)),
  length-append (to_le_bytes 4 (length_flags r)) (payload r ++ padding r),
  length-append (payload r) (padding r),
  length-to_le_bytes 8 (record_vfp r),
  length-to_le_bytes 4 (length_flags r),
  length-replicate {A = ℕ} (record_size r - (12 + length (payload r))) 0,
)

pub payload-le : (r : Record) → IsStorable r → length (payload r) ≤ max_value_len
unfolding payload
payload-le (inline_record vfp value compressed) h = h.2
payload-le (stub_record vfp stub compressed) h = omega (
  arith,
  length-append (to_le_bytes 8 stub.heap_offset) (to_le_bytes 4 stub.value_checksum),
  length-to_le_bytes 8 stub.heap_offset,
  length-to_le_bytes 4 stub.value_checksum,
)

-- The writer's field.
pub inline_field :
    (n : ℕ) (c : Bool)
    → n ≤ max_value_len
    → (if c then bit_or (n % 2 ^ 32) flag_compressed else n % 2 ^ 32) ≡ n + flag c (2 ^ 30)
inline_field n true h = ground (arith, bit_or_above 30 0 n 1 (omega arith))
inline_field n false h = omega arith

pub stub_field :
    (n : ℕ) (c : Bool)
    → n ≤ max_value_len
    → (let lf = bit_or n flag_out_of_line in if c then bit_or lf flag_compressed else lf)
      ≡ n + 2 ^ 31 + flag c (2 ^ 30)
stub_field n true h =
    ground (arith, bit_or_above 31 0 n 1 (omega arith), bit_or_above 30 2 n 1 (omega arith))
stub_field n false h = ground (arith, bit_or_above 31 0 n 1 (omega arith))

-- The reader's view of the field.
module _ (n : ℕ) (o c : Bool) (h : n ≤ max_value_len) where
  pub length_of_field : bit_and (n + flag o (2 ^ 31) + flag c (2 ^ 30)) max_value_len ≡ n
  length_of_field = ground (arith, bit_and_mask 30 (n + flag o (2 ^ 31) + flag c (2 ^ 30)))

  pub out_of_line_of_field :
      not (bit_and (n + flag o (2 ^ 31) + flag c (2 ^ 30)) flag_out_of_line == 0) ≡ o
  out_of_line_of_field = ground (arith, bit_and_bit 31 (n + flag o (2 ^ 31) + flag c (2 ^ 30)))

  pub compressed_of_field :
      not (bit_and (n + flag o (2 ^ 31) + flag c (2 ^ 30)) flag_compressed == 0) ≡ c
  compressed_of_field = ground (arith, bit_and_bit 30 (n + flag o (2 ^ 31) + flag c (2 ^ 30)))
