-- ===== src/V5/Compress/Frame.antt =====
-- The frame header of RFC 8878, as its fields, against what `frame_content_size` reads of it.
use mcfreeze.Base.{ℕ, zero, suc, ◌+◌, ◌-◌, ◌*◌, ◌/◌, ◌^◌, ◌≤◌, ◌<◌, ◌≡◌, refl, ap, ◌∙◌, sym}
use mcfreeze.Base.{[], ◌∷◌, ◌++◌, Bool, true, false, not, arith, bit_and, Bytes, if◌then◌else◌}
use mcfreeze.Base.{some, length, slice, resize, length-append, ◌==◌}
use mcfreeze.Base.{slice-third, replicate, take-all}
use mcfreeze.Base.Bits.{bit_and_bit, bit_and_mask}
use mcfreeze.Base.Words.{to_le_bytes, from_le_bytes, length-to_le_bytes}
use mcfreeze.Base.Words.{from_le_bytes-to_le_bytes, from_le_bytes-zeros}
use mcfreeze.Error.{ok}
use mcfreeze.V5.Compress.{frame_content_size, read_content_size, fcs_width, dict_id_len}

pub record FrameHeader : Type 0 where
  pub fcs_flag : ℕ
  pub single_segment : Bool
  pub unused : Bool
  pub checksum : Bool
  pub dict_flag : ℕ
  pub window : ℕ
  pub dict_id : Bytes

abbrev flag : Bool → ℕ → ℕ
flag b n = if b then n else 0

abbrev pub descriptor : FrameHeader → ℕ
descriptor h =
    h.fcs_flag * 64 + flag h.single_segment 32 + flag h.unused 16 + flag h.checksum 4 + h.dict_flag

-- The width of the content size field: 1, 2, 4 or 8 bytes.
abbrev pub size_width : FrameHeader → ℕ
size_width h = 2 ^ h.fcs_flag

abbrev pub window_bytes : FrameHeader → Bytes
window_bytes h = if h.single_segment then [] else h.window ∷ []

-- What a field of the width holds for a size: the two-byte field starts at 256.
abbrev pub size_field : FrameHeader → ℕ → ℕ
size_field h n = if h.fcs_flag == 1 then n - 256 else n

-- The frame of a header that pins the size `n`, and of the blocks behind it.
abbrev pub frame_bytes : FrameHeader → ℕ → Bytes → Bytes
frame_bytes h n blocks =
    descriptor h
    ∷ (window_bytes h ++ (h.dict_id ++ (to_le_bytes (size_width h) (size_field h n) ++ blocks)))

-- The header can state the size: its dictionary id has the width of its flag, the field is there,
-- and the size is in the field's range.
abbrev pub IsPinning : FrameHeader → ℕ → Type 0
IsPinning h n =
    (h.fcs_flag < 4)
    × (h.dict_flag < 4)
    × (length h.dict_id ≡ dict_id_len h.dict_flag)
    × (h.fcs_flag ≡ 0 → h.single_segment ≡ true)
    × (h.fcs_flag ≡ 1 → 256 ≤ n)
    × (size_field h n < 256 ^ size_width h)

descriptor_fields :
    (h : FrameHeader)
    → h.fcs_flag < 4
    → h.dict_flag < 4
    → (bit_and (descriptor h) 8 ≡ 0)
      × (not (bit_and (descriptor h) 32 == 0) ≡ h.single_segment)
      × (descriptor h / 64 ≡ h.fcs_flag)
      × (bit_and (descriptor h) 3 ≡ h.dict_flag)
descriptor_fields h hf hd =
    let b8 = bit_and_bit 3 (descriptor h) in
    let b32 = bit_and_bit 5 (descriptor h) in
    let m3 = bit_and_mask 2 (descriptor h) in
    (ground (arith, b8), ground (arith, b32), ground arith, ground (arith, m3))

from_le_bytes-pad : (xs : Bytes) (n : ℕ) → from_le_bytes (xs ++ replicate n 0) ≡ from_le_bytes xs
unfolding from_le_bytes
from_le_bytes-pad [] n = from_le_bytes-zeros n
from_le_bytes-pad (x ∷ xs) n = ap (λ (t : ℕ). x + 256 * t) (from_le_bytes-pad xs n)

from_le_bytes-field :
    (w f : ℕ) → w ≤ 8 → f < 256 ^ w → from_le_bytes (resize 8 0 (to_le_bytes w f)) ≡ f
from_le_bytes-field w f le h =
    let bs = to_le_bytes w f in
    ap (λ zs. from_le_bytes (zs ++ replicate (8 - length bs) 0))
      (take-all 8 bs (omega (arith, length-to_le_bytes w f)))
    ∙ from_le_bytes-pad bs (8 - length bs)
    ∙ from_le_bytes-to_le_bytes w f h

fcs_width_lem :
    (k : ℕ) (single_segment : Bool)
    → k < 4
    → (k ≡ 0 → single_segment ≡ true)
    → (fcs_width k single_segment ≡ some (2 ^ k)) × (2 ^ k ≤ 8) × ((2 ^ k == 2) ≡ (k == 1))
unfolding fcs_width
fcs_width_lem zero single_segment h one = (rw (one refl) refl, omega arith, refl)
fcs_width_lem (suc zero) single_segment h one = (refl, omega arith, refl)
fcs_width_lem (suc (suc zero)) single_segment h one = (refl, omega arith, refl)
fcs_width_lem (suc (suc (suc zero))) single_segment h one = (refl, omega arith, refl)
fcs_width_lem (suc (suc (suc (suc k)))) single_segment h one = absurd (omega arith)

read_content_size_lem :
    (h : FrameHeader) (n : ℕ) (blocks : Bytes)
    → IsPinning h n
    → read_content_size
        (frame_bytes h n blocks)
        (1 + length (window_bytes h) + length h.dict_id)
        (size_width h)
      ≡ ok n
unfolding read_content_size
read_content_size_lem h n blocks p =
    let (width, small, two) = fcs_width_lem h.fcs_flag h.single_segment p.0 p.3 in
    let win = window_bytes h in
    let field = to_le_bytes (size_width h) (size_field h n) in
    let start = 1 + length win + length h.dict_id in
    let read : slice start (start + size_width h) (frame_bytes h n blocks) ≡ field =
      slice-third start (start + size_width h) (descriptor h ∷ []) win h.dict_id field blocks refl
        (omega (arith, length-to_le_bytes (size_width h) (size_field h n))) in
    let whole : start + size_width h ≤ length (frame_bytes h n blocks) = omega (
      arith,
      length-append win (h.dict_id ++ (field ++ blocks)),
      length-append h.dict_id (field ++ blocks),
      length-append field blocks,
      length-to_le_bytes (size_width h) (size_field h n),
    ) in
    let value = from_le_bytes-field (size_width h) (size_field h n) small p.5 in
    ground (arith, ap (λ zs. from_le_bytes (resize 8 0 zs)) read, whole, value, two)

length-window_bytes :
    (b : Bool) (window : ℕ) → length (if b then [] else window ∷ []) ≡ (if b then 0 else 1)
length-window_bytes true window = refl
length-window_bytes false window = refl

-- Whatever header a frame has that pins its content size, the size is read back.
pub frame_content_size-frame_bytes :
    (h : FrameHeader) (n : ℕ) (blocks : Bytes)
    → IsPinning h n
    → frame_content_size (frame_bytes h n blocks) ≡ ok n
unfolding frame_content_size
frame_content_size-frame_bytes h n blocks p =
    let (b8, b32, high, low) = descriptor_fields h p.0 p.1 in
    let (width, small, two) = fcs_width_lem h.fcs_flag h.single_segment p.0 p.3 in
    let read = read_content_size_lem h n blocks p in
    let start = sym (length-window_bytes h.single_segment h.window) in
    rw b8 (rw b32 (rw high (rw width (rw low (rw b32 (rw start (rw (sym p.2) read)))))))
