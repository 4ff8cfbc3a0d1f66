-- ===== src/V5/Examples/Codec.antt =====
-- A codec that meets what the theorems ask of zstd: it writes a frame header with the size in four
-- bytes, and behind it the value, or nothing for a value of zeros.
use mcfreeze.Base.{ℕ, ◌^◌, ◌<◌, ◌≤◌, ◌≡◌, refl, sym, ap, ◌∙◌, [], ◌∷◌}
use mcfreeze.Base.{Bytes, Bool, true, false, none, some, arith, inl, inr, ltb, ◌==◌}
use mcfreeze.Base.{if◌then◌else◌, length, replicate, drop, Bool-cases, drop-append, ◌&&◌}
use mcfreeze.Base.Words.{to_le_bytes, length-to_le_bytes}
use mcfreeze.Error.{IoError, ok}
use mcfreeze.V5.Compress.{Zstd, compress, decode, new_compressor}
use mcfreeze.V5.Compress.{new_decompressor, frame_content_size}
use mcfreeze.V5.Compress.Frame.{FrameHeader, frame_bytes, IsPinning, frame_content_size-frame_bytes}
use mcfreeze.V5.Compress.RoundTrip.{IsLossless, decode-compress}

-- The header with four bytes of size and no window, dictionary id or checksum.
abbrev short_header : FrameHeader
short_header = record {
  fcs_flag = 2;
  single_segment = true;
  unused = false;
  checksum = false;
  dict_flag = 0;
  window = 0;
  dict_id = [];
}

abbrev all_zero : Bytes → Bool
all_zero [] = true
all_zero (b ∷ bs) = (b == 0) && all_zero bs

all_zero-replicate : (v : Bytes) → all_zero v ≡ true → v ≡ replicate (length v) 0
all_zero-replicate [] h = refl
all_zero-replicate (b ∷ bs) h =
    let zero_head : b ≡ 0 = ground (arith, h) in
    let later = all_zero-replicate bs (ground (arith, h)) in
    ap (λ (n : ℕ). n ∷ bs) zero_head ∙ ap (λ zs. 0 ∷ zs) later

abbrev blocks_of : Bytes → Bytes
blocks_of v = if all_zero v then [] else v

abbrev fill : ℕ → Bytes → Bytes
fill n [] = replicate n 0
fill n (b ∷ bs) = b ∷ bs

fill-same : (v : Bytes) → all_zero v ≡ false → fill (length v) v ≡ v
fill-same [] h = refl
fill-same (b ∷ bs) h = refl

fill-blocks_of : (v : Bytes) → fill (length v) (blocks_of v) ≡ v
fill-blocks_of v = elim (Bool-cases (all_zero v)) [
  | inl zeros ↦ rw zeros (sym (all_zero-replicate v zeros))
  | inr mixed ↦ rw mixed (fill-same v mixed)
]

abbrev pub zero_codec : Zstd (Unit {0}) (Unit {0}) (Unit {0})
zero_codec = record {
  new_cctx = λ level dict. inr tt;
  include_magicbytes = λ on c. inr c;
  include_dictid = λ on c. inr c;
  include_contentsize = λ on c. inr c;
  compress_frame = λ c v.
      if ltb (length v) (2 ^ 32)
      then inr (frame_bytes short_header (length v) (blocks_of v))
      else inl IoError.other;
  new_dctx = λ dict. inr tt;
  expect_magicbytes = λ on d. inr d;
  decompress_frame = λ d frame n. inr (fill n (drop 5 frame));
}

short_header-IsPinning : (n : ℕ) → n < 2 ^ 32 → IsPinning short_header n
short_header-IsPinning n h = (
  omega arith,
  omega arith,
  refl,
  (λ e. absurd (omega arith)),
  (λ e. absurd (omega arith)),
  omega arith,
)

pub zero_codec-IsLossless : IsLossless zero_codec tt tt
zero_codec-IsLossless v frame made = elim (Bool-cases (ltb (length v) (2 ^ 32))) [
  | inl small ↦
      let header = short_header-IsPinning (length v) (ground (arith, small)) in
      let same : frame ≡ frame_bytes short_header (length v) (blocks_of v) =
        ground (arith, small, made) in
      (
        (short_header, blocks_of v, header, same),
        ap (λ f. inr (fill (length v) (drop 5 f))) same
            ∙ ap (λ bs. inr (fill (length v) bs))
                (drop-append 4 (to_le_bytes 4 (length v)) (blocks_of v)
                  (sym (length-to_le_bytes 4 (length v))))
            ∙ ap inr (fill-blocks_of v),
      )
  | inr big ↦ absurd (ground (arith, big, made))
]

decode-compress_example :
    (decode zero_codec
        (160 ∷ (7 ∷ (0 ∷ (0 ∷ (0 ∷ [])))))
        true
        (some (record { dict = none; pool = tt ∷ [] }))
      ≡ (ok (replicate 7 0), some (record { dict = none; pool = tt ∷ [] })))
    × (5 ≤ 7)
unfolding new_compressor new_decompressor compress to_le_bytes
decode-compress_example =
    decode-compress zero_codec tt none 4 (record { ctx = tt; min_compress_len = 4 })
      (record { dict = none; pool = tt ∷ [] }) (replicate 7 0)
      (some (160 ∷ (7 ∷ (0 ∷ (0 ∷ (0 ∷ [])))))) refl refl
      (λ k ctx made made'. zero_codec-IsLossless) (omega arith) refl

frame_content_size-frame_bytes_example :
    frame_content_size (frame_bytes short_header 70000 (1 ∷ [])) ≡ ok 70000
frame_content_size-frame_bytes_example =
    frame_content_size-frame_bytes short_header 70000 (1 ∷ [])
      (short_header-IsPinning 70000 (omega arith))
