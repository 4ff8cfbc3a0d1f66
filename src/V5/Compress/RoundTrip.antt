-- ===== src/V5/Compress/RoundTrip.antt =====
-- A value that is compressed is decompressed to itself, and what decompression never returns.
use mcfreeze.Base.{ℕ, ◌≤◌, ◌<◌, ◌≡◌, refl, ap, ◌∙◌, sym, List, [], ◌∷◌, Bool}
use mcfreeze.Base.{true, false, arith, Bytes, if◌then◌else◌, Option, none, some, length, ltb}
use mcfreeze.Base.{inl, inr, ◌⊎◌, Bool-cases, ◌≢◌, All, subst}
use mcfreeze.Error.{IoError, Error, Result, ok, >>=-eq-ok}
use mcfreeze.V5.Block.{max_value_len}
use mcfreeze.V5.Compress.{Zstd, Compressor, Decompressor, compress, decompress, decompress_with}
use mcfreeze.V5.Compress.{decode, frame_content_size, take_ctx, new_compressor, new_decompressor}
use mcfreeze.V5.Compress.{map_err, new_ctx}
use mcfreeze.Error.{zstd}
use mcfreeze.V5.Compress.Frame.{FrameHeader, frame_bytes, IsPinning, frame_content_size-frame_bytes}

map_err-eq-ok :
    {A : Type 0} (f : IoError → Error) (s : IoError ⊎ A) (a : A) → map_err f s ≡ ok a → s ≡ inr a
map_err-eq-ok f (inl e) a h = cc
map_err-eq-ok f (inr b) a h = cc

module _ {Level CCtx DCtx : Type 0} (api : Zstd Level CCtx DCtx) where
  -- What zstd promises of two contexts: the frames that the one makes pin the size of the value,
  -- and the other decompresses each to its value when it is given that room.
  abbrev pub IsLossless : CCtx → DCtx → Type 0
  IsLossless c d =
      (value frame : Bytes)
      → api.compress_frame c value ≡ inr frame
      → ((h : FrameHeader) × (blocks : Bytes) × IsPinning h (length value)
          × (frame ≡ frame_bytes h (length value) blocks))
        × (api.decompress_frame d frame (length value) ≡ inr value)

  -- The pool of the decompressor has a context, and all of it satisfies `P`.
  abbrev pub IsReady : (DCtx → Type 0) → Decompressor DCtx → Type 0
  IsReady P d = (d.pool ≢ []) × All P d.pool

  decompress_with-lossless :
      (c : CCtx) (d : Decompressor DCtx) (ctx : DCtx) (value frame : Bytes)
      → IsLossless c ctx
      → api.compress_frame c value ≡ inr frame
      → (decompress_with api d ctx (length value) frame).0 ≡ ok value
  unfolding decompress_with
  decompress_with-lossless c d ctx value frame good made = ground (arith, (good value frame made).1)

  frame_content_size-lossless :
      (c : CCtx) (ctx : DCtx) (value frame : Bytes)
      → IsLossless c ctx
      → api.compress_frame c value ≡ inr frame
      → frame_content_size frame ≡ ok (length value)
  frame_content_size-lossless c ctx value frame good made =
      let (h, blocks, pins, e) = (good value frame made).0 in
      ap frame_content_size e ∙ frame_content_size-frame_bytes h (length value) blocks pins

  decompress-frame :
      (c : CCtx) (dict : Option Bytes) (pool : List DCtx) (value frame : Bytes)
      → (let d : Decompressor DCtx = record { dict = dict; pool = pool } in
          IsReady (IsLossless c) d
          → length value ≤ max_value_len
          → api.compress_frame c value ≡ inr frame
          → decompress api d frame ≡ (ok value, d))
  unfolding decompress take_ctx decompress_with
  decompress-frame c dict [] value frame ready room made = absurd (ready.0 refl)
  decompress-frame c dict (ctx ∷ pool) value frame ready room made =
      let good = ready.1.0 in
      let size = frame_content_size-lossless c ctx value frame good made in
      ground (arith, size, (good value frame made).1)

  abbrev pub stored_bytes : Bytes → Option Bytes → Bytes
  stored_bytes value none = value
  stored_bytes value (some frame) = frame

  abbrev pub is_compressed : Option Bytes → Bool
  is_compressed none = false
  is_compressed (some frame) = true

  compress-kept :
      (c : Compressor CCtx) (value frame : Bytes)
      → ltb (length value) c.min_compress_len ≡ false
      → compress api c value ≡ ok (some frame)
      → (length frame < length value) × (api.compress_frame c.ctx value ≡ inr frame)
  unfolding compress
  compress-kept c value frame long h =
      let (frame', made, kept) =
        >>=-eq-ok (map_err zstd (api.compress_frame c.ctx value))
          (λ f. ok (if ltb (length f) (length value) then some f else none))
          (let k : _ ≡ ok (some frame) = ground (arith, long, h) in k) in
      elim (Bool-cases (ltb (length frame') (length value))) [
        | inl less ↦
            let same : frame' ≡ frame = ground (arith, less, kept) in
            (
              ground (arith, less, ap length same),
              map_err-eq-ok zstd (api.compress_frame c.ctx value) frame' made ∙ ap inr same,
            )
        | inr more ↦ absurd (ground (arith, more, kept))
      ]

  pub compress-some :
      (c : Compressor CCtx) (value frame : Bytes)
      → compress api c value ≡ ok (some frame)
      → (api.compress_frame c.ctx value ≡ inr frame)
        × (length frame < length value)
        × (c.min_compress_len ≤ length value)
  unfolding compress
  compress-some c value frame h = elim (Bool-cases (ltb (length value) c.min_compress_len)) [
    | inl short ↦ absurd (ground (arith, short))
    | inr long ↦
        let (made, e) = compress-kept c value frame long h in (e, made, ground (arith, long))
  ]

  pub decode-stored :
      (c : Compressor CCtx) (value : Bytes) (r : Option Bytes) (d : Decompressor DCtx)
      → compress api c value ≡ ok r
      → length value ≤ max_value_len
      → IsReady (IsLossless c.ctx) d
      → (decode api (stored_bytes value r) (is_compressed r) (some d) ≡ (ok value, some d))
        × (length (stored_bytes value r) ≤ length value)
  unfolding decode
  decode-stored c value none d h room ready = (refl, omega arith)
  decode-stored c value (some frame) d h room ready =
      let (made, less, _) = compress-some c value frame h in
      let back = decompress-frame c.ctx d.dict d.pool value frame ready room made in
      (ap (λ (x : Result Bytes × Decompressor DCtx). (x.0, some x.1)) back, omega arith)

  new_decompressor-pool :
      (dict : Option Bytes) (d : Decompressor DCtx)
      → new_decompressor api dict ≡ ok d
      → (ctx : DCtx) × (new_ctx api dict ≡ ok ctx) × (d ≡ record { dict = dict; pool = ctx ∷ [] })
  unfolding new_decompressor
  new_decompressor-pool dict d h =
      let (ctx, made, e) =
        >>=-eq-ok (new_ctx api dict)
          (λ ctx. ok (let k : Decompressor DCtx = record { dict = dict; pool = ctx ∷ [] } in k))
          h in
      (ctx, made, ground (arith, e))

-- Compression loses nothing. Take a compressor and a decompressor whose contexts are lossless.
-- Whatever `compress` decides for a value of at most MAX_VALUE_LEN bytes, the bytes to store are
-- not longer than the value, `decode` returns the value from them and the flag, and the
-- decompressor has its contexts back.
pub decode-compress :
    {Level CCtx DCtx : Type 0} (api : Zstd Level CCtx DCtx) (level : Level) (dict : Option Bytes)
    (min_compress_len : ℕ) (c : Compressor CCtx) (d : Decompressor DCtx) (value : Bytes)
    (r : Option Bytes)
    → new_compressor api level dict min_compress_len ≡ ok c
    → new_decompressor api dict ≡ ok d
    → ((k : Compressor CCtx) (ctx : DCtx)
        → new_compressor api level dict min_compress_len ≡ ok k
        → new_ctx api dict ≡ ok ctx
        → IsLossless api k.ctx ctx)
    → length value ≤ max_value_len
    → compress api c value ≡ ok r
    → (decode api (stored_bytes api value r) (is_compressed api r) (some d) ≡ (ok value, some d))
      × (length (stored_bytes api value r) ≤ length value)
decode-compress api level dict min_compress_len c d value r hc hd good room h =
    let (ctx, made, e) = new_decompressor-pool api dict d hd in
    decode-stored api c value r d h room
      (subst (IsReady api (IsLossless api c.ctx)) (sym e) ((λ k. cc), (good c ctx hc made, tt)))
