-- ===== src/V5/Compress.antt =====
-- rust/crates/mcfreeze-format/src/v5/compress.rs: values as bare zstd frames. The contexts of the
-- zstd crate are a parameter: types of contexts, and the calls that the code makes on them. A
-- `Mutex` around the pool is a state that the calls pass on.
pub mod Frame
pub mod RoundTrip
use mcfreeze.Base.{String, string_eq}
use mcfreeze.Base.{ℕ, zero, suc, ◌+◌, ◌-◌, ◌*◌, ◌/◌, ◌^◌, List, [], ◌∷◌, Bool, true, false, not}
use mcfreeze.Base.{Option, none, some, bit_and, ltb, ◌==◌, if◌then◌else◌, length, slice, resize}
use mcfreeze.Base.{get_or, Bytes, ◌⊎◌, inl, inr, ◌&&◌}
use mcfreeze.Base.Words.{from_le_bytes}
use mcfreeze.Error.{IoError, Error, Result, ok, err, panic, stuck, ◌>>=◌, ◌>>◌}
use mcfreeze.Error.{corrupt_frame, frame_content_too_large, compressed_value_without_codec}
use mcfreeze.Error.{dict_checksum_mismatch, zstd, decompress as decompress_error}
use mcfreeze.V5.Block.{checksum32, max_value_len}

pub data Mode : Type 0 where
  mode_none mode_zstd mode_zstd_dict : Mode

-- `Mode::as_str`
unfoldable pub as_str : Mode → String
as_str mode_none = "none"
as_str mode_zstd = "zstd"
as_str mode_zstd_dict = "zstd-dict"

-- `Mode::from_str`, without the text of its error.
unfoldable pub from_str : String → Option Mode
from_str s =
    if string_eq s "none"
    then some mode_none
    else if string_eq s "zstd"
    then some mode_zstd
    else if string_eq s "zstd-dict"
    then some mode_zstd_dict
    else none

-- The calls into the zstd crate, with the types of its compression level and of its contexts.
pub record Zstd (Level CCtx DCtx : Type 0) : Type 0 where
  pub new_cctx : Level → Option Bytes → IoError ⊎ CCtx
  pub include_magicbytes : Bool → CCtx → IoError ⊎ CCtx
  pub include_dictid : Bool → CCtx → IoError ⊎ CCtx
  pub include_contentsize : Bool → CCtx → IoError ⊎ CCtx
  pub compress_frame : CCtx → Bytes → IoError ⊎ Bytes
  pub new_dctx : Option Bytes → IoError ⊎ DCtx
  pub expect_magicbytes : Bool → DCtx → IoError ⊎ DCtx
  pub decompress_frame : DCtx → Bytes → ℕ → IoError ⊎ Bytes

-- `map_err`
abbrev pub map_err {ℓ} : {A : Type ℓ} → (IoError → Error) → IoError ⊎ A → Result A
map_err f (inl e) = err (f e)
map_err f (inr a) = ok a

unfoldable pub verify_dict : (Bytes → ℕ → ℕ) → Bytes → ℕ → Result (Unit {0})
verify_dict xxh64 dict expected =
    let got = checksum32 xxh64 dict in
    if got == expected then ok tt else err (dict_checksum_mismatch got expected)

pub record Compressor (CCtx : Type 0) : Type 0 where
  pub ctx : CCtx
  pub min_compress_len : ℕ

pub record Decompressor (DCtx : Type 0) : Type 0 where
  pub dict : Option Bytes
  pub pool : List DCtx

-- `[0, 1, 2, 4][i]`, for an index that a mask keeps below 4.
abbrev pub dict_id_len : ℕ → ℕ
dict_id_len i = get_or (0 ∷ (1 ∷ (2 ∷ (4 ∷ [])))) i 0

-- The width of the content size field, none when the size is not pinned.
unfoldable pub fcs_width : ℕ → Bool → Option ℕ
fcs_width flag single_segment =
    if flag == 0
    then (if single_segment then some 1 else none)
    else if flag == 1
    then some 2
    else if flag == 2
    then some 4
    else some 8

-- The content size field, `fcs_len` bytes from `start` on.
unfoldable pub read_content_size : Bytes → ℕ → ℕ → Result ℕ
read_content_size frame start fcs_len =
    if ltb (length frame) (start + fcs_len)
    then err (corrupt_frame "truncated frame header")
    else let size = from_le_bytes (resize 8 0 (slice start (start + fcs_len) frame)) in
      ok (if fcs_len == 2 then size + 256 else size)

unfoldable pub frame_content_size : Bytes → Result ℕ
frame_content_size [] = err (corrupt_frame "empty frame")
frame_content_size (fhd ∷ rest) =
    if not (bit_and fhd 8 == 0)
    then err (corrupt_frame "reserved frame header bit set")
    else let single_segment = not (bit_and fhd 32 == 0) in
      let start = 1 + (if single_segment then 0 else 1) + dict_id_len (bit_and fhd 3) in
      elim (fcs_width (fhd / 64) single_segment) [
        | none ↦ err (corrupt_frame "frame content size not pinned")
        | some fcs_len ↦ read_content_size (fhd ∷ rest) start fcs_len
      ]

module _ {Level CCtx DCtx : Type 0} (api : Zstd Level CCtx DCtx) where
  -- `Compressor::new`
  unfoldable pub new_compressor : Level → Option Bytes → ℕ → Result (Compressor CCtx)
  new_compressor level dict min_compress_len = do
    c0 ← map_err zstd (api.new_cctx level dict)
    c1 ← map_err zstd (api.include_magicbytes false c0)
    c2 ← map_err zstd (api.include_dictid false c1)
    c3 ← map_err zstd (api.include_contentsize true c2)
    ok (record { ctx = c3; min_compress_len = min_compress_len })

  unfoldable pub compress : Compressor CCtx → Bytes → Result (Option Bytes)
  compress c value =
      if ltb (length value) c.min_compress_len
      then ok none
      else (map_err zstd (api.compress_frame c.ctx value) >>= λ frame.
          ok (if ltb (length frame) (length value) then some frame else none))

  unfoldable pub new_ctx : Option Bytes → Result DCtx
  new_ctx dict = do
    ctx ← map_err zstd (api.new_dctx dict)
    map_err zstd (api.expect_magicbytes false ctx)

  -- `Decompressor::new`
  unfoldable pub new_decompressor : Option Bytes → Result (Decompressor DCtx)
  unfolding new_ctx
  new_decompressor dict = do ctx ← new_ctx dict; ok (record { dict = dict; pool = ctx ∷ [] })

  -- A context of the pool, or a new one; and the pool without it.
  unfoldable pub take_ctx : Decompressor DCtx → Result DCtx × Decompressor DCtx
  unfolding new_ctx
  take_ctx d = elim d.pool [ [] ↦ (new_ctx d.dict, d) | c ∷ cs ↦ (ok c, record d { pool = cs }) ]

  unfoldable pub decompress_with :
      Decompressor DCtx → DCtx → ℕ → Bytes → Result Bytes × Decompressor DCtx
  decompress_with d ctx content_size frame = (
    map_err decompress_error (api.decompress_frame ctx frame content_size) >>= (λ value.
        if length value == content_size
        then ok value
        else err (corrupt_frame "decompressed size differs from pinned content size")),
    record d { pool = ctx ∷ d.pool },
  )

  unfoldable pub decompress : Decompressor DCtx → Bytes → Result Bytes × Decompressor DCtx
  unfolding frame_content_size take_ctx decompress_with
  decompress d frame = elim (frame_content_size frame) [
    | err e ↦ (err e, d)
    | panic ↦ (panic, d)
    | stuck ↦ (stuck, d)
    | ok content_size ↦
        if ltb max_value_len content_size
        then (err (frame_content_too_large content_size max_value_len), d)
        else let (got, d') = take_ctx d in
          elim got [
            | err e ↦ (err e, d')
            | panic ↦ (panic, d')
            | stuck ↦ (stuck, d')
            | ok ctx ↦ decompress_with d' ctx content_size frame
          ]
  ]

  unfoldable pub decode :
      Bytes → Bool → Option (Decompressor DCtx) → Result Bytes × Option (Decompressor DCtx)
  unfolding decompress
  decode stored false codec = (ok stored, codec)
  decode stored true (some d) = let (r, d') = decompress d stored in (r, some d')
  decode stored true none = (err compressed_value_without_codec, none)
