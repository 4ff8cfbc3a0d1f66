-- ===== src/V5/Builder/Arrival.antt =====
-- rust/crates/mcfreeze-format/src/v5/builder.rs: the arrival log of a partition, a sequence of
-- frames, its writer and its readers.
use mcfreeze.Base.{ℕ, zero, suc, ◌+◌, ◌-◌, ◌/◌, ◌%◌, ◌^◌, List, [], ◌∷◌, ◌++◌}
use mcfreeze.Base.{Option, none, some, ltb, leb, ◌==◌, if◌then◌else◌, length, slice, take, set}
use mcfreeze.Base.{get_or, replicate, Bytes, drop, ◌||◌}
use mcfreeze.Base.Words.{to_le_bytes, from_le_bytes}
use mcfreeze.Data.{verify_fingerprint}
use mcfreeze.Error.{Result, ok, err, panic, stuck, ◌>>=◌, io, IoError, value_too_large}
use mcfreeze.V5.Block.{encoded_len, max_value_len}
use mcfreeze.V5.Builder.{ArrivalStats, Dir, Io, read}
use mcfreeze.V5.Builder.Sizes.{bit_len, count_in, hist_buckets}

-- 8 bytes of fingerprint, 8 of verification fingerprint, 4 of length.
abbrev pub frame_header : ℕ
frame_header = 20

pub record V5Appender : Type 0 where
  pub out : Bytes
  pub verify_seed : ℕ
  pub n_keys : ℕ
  pub data_bytes : ℕ
  pub hist : List ℕ

-- `V5Builder::appender`
unfoldable pub appender : ℕ → Dir → V5Appender × Dir
appender verify_seed dir = (
  record {
    out = [];
    verify_seed = verify_seed;
    n_keys = 0;
    data_bytes = 0;
    hist = replicate hist_buckets 0;
  },
  record dir { arrival_bin = some []; arrival_stats = none },
)

-- A frame as `append` writes it.
unfoldable pub frame_bytes : ℕ → ℕ → Bytes → Bytes
frame_bytes fp vfp value =
    to_le_bytes 8 fp ++ (to_le_bytes 8 vfp ++ (to_le_bytes 4 (length value % 2 ^ 32) ++ value))

-- `V5Appender::append`
unfoldable pub append : (Bytes → ℕ → ℕ) → Bytes → ℕ → Bytes → Io V5Appender (Unit {0})
unfolding frame_bytes
append xxh64 key fp value a =
    if ltb max_value_len (length value)
    then (err (value_too_large (length value) max_value_len), a)
    else let vfp = verify_fingerprint xxh64 key a.verify_seed in
      let a' = record a { out = a.out ++ frame_bytes fp vfp value } in
      elim (count_in (bit_len 64 (encoded_len (length value))) a.hist) [
        | ok hist ↦ (
          ok tt,
          record a' {
            hist = hist;
            n_keys = a.n_keys + 1;
            data_bytes = a.data_bytes + (frame_header + length value);
          },
        )
        | err e ↦ (err e, a')
        | panic ↦ (panic, a')
        | stuck ↦ (stuck, a')
      ]

-- `V5Appender::finish`: the log is closed before its marker is published.
unfoldable pub finish : V5Appender → Dir → Dir
finish a dir =
    let stats : ArrivalStats = record {
      n_keys = a.n_keys;
      data_bytes = a.data_bytes;
      hist = a.hist;
    } in
    record dir { arrival_bin = some a.out; arrival_stats = some stats }

pub record FrameRef : Type 0 where
  pub fp : ℕ
  pub vfp : ℕ
  pub start : ℕ
  pub len : ℕ

-- `u32::from_le_bytes(buf[pos + 16..pos + 20])`
abbrev pub frame_len : Bytes → ℕ → ℕ
frame_len buf pos = from_le_bytes (slice (pos + 16) (pos + 20) buf)

-- The loop of `parse_frames`. A round advances by a header at least.
unfoldable pub parse_frames_loop : ℕ → Bytes → ℕ → Result (List FrameRef)
parse_frames_loop zero buf pos = stuck
parse_frames_loop (suc fuel) buf pos =
    let len = frame_len buf pos in
    let start = pos + frame_header in
    let rest = parse_frames_loop fuel buf (start + len) in
    if leb (length buf) pos
    then ok []
    else if ltb (length buf) (pos + frame_header)
    then err (io IoError.unexpected_eof)
    else if ltb (length buf) (start + len)
    then err (io IoError.unexpected_eof)
    else (rest >>= λ frames. ok (
        record {
          fp = from_le_bytes (slice pos (pos + 8) buf);
          vfp = from_le_bytes (slice (pos + 8) (pos + 16) buf);
          start = start;
          len = len;
        }
        ∷ frames))

unfoldable pub parse_frames : Bytes → Result (List FrameRef)
unfolding parse_frames_loop
parse_frames buf = parse_frames_loop (suc (length buf)) buf 0

-- The loop of `sample_arrival_prefix`.
unfoldable pub sample_loop : ℕ → Bytes → ℕ → List Bytes
sample_loop zero buf pos = []
sample_loop (suc fuel) buf pos =
    let len = frame_len buf pos in
    let start = pos + frame_header in
    let end = start + len in
    let rest = sample_loop fuel buf end in
    if ltb (length buf) start || ltb (length buf) end
    then []
    else if ltb 0 len
    then slice start end buf ∷ rest
    else rest

unfoldable pub sample_arrival_prefix : Option Bytes → ℕ → Result (List Bytes)
unfolding sample_loop
sample_arrival_prefix arrival max_bytes = do
  file ← read arrival
  let buf = take max_bytes file
  ok (sample_loop (suc (length buf)) buf 0)

-- `read_exact_or_eof`: `n` bytes of the input and what is behind them, or none at a clean end.
unfoldable pub read_exact_or_eof : ℕ → Bytes → Result (Option (Bytes × Bytes))
read_exact_or_eof n input =
    if length input == 0
    then ok none
    else if ltb (length input) n
    then err (io IoError.unexpected_eof)
    else ok (some (take n input, drop n input))

-- `outs[i].write_all(bytes)`
unfoldable pub write_bucket : ℕ → Bytes → List Bytes → Result (List Bytes)
write_bucket i bytes outs =
    if ltb i (length outs) then ok (set outs i (get_or outs i [] ++ bytes)) else panic

-- The frame behind a header, to the bucket of its fingerprint's top bits, and the input behind it.
unfoldable pub scatter_frame : ℕ → Bytes → Bytes → List Bytes → Result (List Bytes × Bytes)
unfolding write_bucket
scatter_frame shift header input outs =
    let fp = from_le_bytes (slice 0 8 header) in
    let len = from_le_bytes (slice 16 20 header) in
    if ltb (length input) len
    then err (io IoError.unexpected_eof)
    else (write_bucket (fp / 2 ^ shift) (header ++ take len input) outs >>= λ outs'.
        ok (outs', drop len input))

-- The loop of `scatter_to_buckets`.
unfoldable pub scatter_loop : ℕ → ℕ → Bytes → List Bytes → Result (List Bytes)
unfolding read_exact_or_eof scatter_frame
scatter_loop zero shift input outs = stuck
scatter_loop (suc fuel) shift input outs = read_exact_or_eof frame_header input >>= λ got.
    elim got [
      | none ↦ ok outs
      | some (header, input') ↦
          scatter_frame shift header input' outs >>= λ next. scatter_loop fuel shift next.1 next.0
    ]

-- `n.trailing_zeros()` on words of `w` bits.
unfoldable pub trailing_zeros : ℕ → ℕ → ℕ
trailing_zeros zero n = 0
trailing_zeros (suc w) n = let rest = trailing_zeros w (n / 2) in if n % 2 == 1 then 0 else suc rest

unfoldable pub scatter_to_buckets : Bytes → ℕ → Result (List Bytes)
unfolding scatter_loop trailing_zeros
scatter_to_buckets arrival n_buckets =
    let shift = 64 - trailing_zeros 64 n_buckets in
    scatter_loop (suc (length arrival)) shift arrival (replicate n_buckets [])
