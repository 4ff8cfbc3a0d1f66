-- ===== src/V5/Block.antt =====
-- rust/crates/mcfreeze-format/src/v5/block.rs: encoding records into sealed blocks and scanning
-- them. `xxh64` is the hash of another crate, a parameter. The sink of the assembler is a closure
-- of its caller: a function on a state of its own. The assembler is modelled as in a release build,
-- where the `debug_assert!` on the order of the records and its field `last_fp` are compiled out.
pub mod Encoding
pub mod Scan
pub mod Seal
pub mod Pack
pub mod Assemble
pub mod Push
pub mod Refine
use mcfreeze.Base.{ℕ, zero, suc, ◌+◌, ◌-◌, ◌*◌, ◌%◌, ◌^◌, List, [], ◌∷◌, ◌++◌}
use mcfreeze.Base.{Bool, true, false, not, ◌&&◌, ◌||◌, Option, none, some, bit_and, bit_or}
use mcfreeze.Base.{ltb, leb, ◌==◌, if◌then◌else◌, length, slice, drop, resize, Bytes}
use mcfreeze.Base.Words.{to_le_bytes, from_le_bytes}
use mcfreeze.Error.{Error, Result, ok, err, panic, stuck, ◌>>=◌}
use mcfreeze.Error.{value_too_large, assembler_poisoned, record_too_large, corrupt_block}
use mcfreeze.Error.{block_checksum_mismatch}
use mcfreeze.V5.Fence.{fence_of}

abbrev pub checksum_len : ℕ
checksum_len = 4

abbrev pub header_len : ℕ
header_len = 12

abbrev pub record_align : ℕ
record_align = 8

abbrev pub stub_payload_len : ℕ
stub_payload_len = 12

abbrev pub max_value_len : ℕ
max_value_len = 2 ^ 30 - 1

abbrev pub flag_out_of_line : ℕ
flag_out_of_line = 2 ^ 31

abbrev pub flag_compressed : ℕ
flag_compressed = 2 ^ 30

-- `(n + 7) & !7` on a 64-bit usize.
unfoldable pub align8 : ℕ → ℕ
align8 n = bit_and ((n + (record_align - 1)) % 2 ^ 64) (2 ^ 64 - 1 - (record_align - 1))

unfoldable pub encoded_len : ℕ → ℕ
encoded_len payload_len = align8 (header_len + payload_len)

pub record Stub : Type 0 where
  pub heap_offset : ℕ
  pub stored_len : ℕ
  pub value_checksum : ℕ

pub data Record : Type 0 where
  inline_record : (vfp : ℕ) (value : Bytes) (compressed : Bool) → Record
  stub_record : (vfp : ℕ) (stub : Stub) (compressed : Bool) → Record

unfoldable pub record_vfp : Record → ℕ
record_vfp (inline_record vfp value compressed) = vfp
record_vfp (stub_record vfp stub compressed) = vfp

pub record Records : Type 0 where
  pub block : Bytes
  pub usable : ℕ
  pub pos : ℕ
  pub failed : Bool

unfoldable pub records : Bytes → Records
records block = record {
  block = block;
  usable = length block - checksum_len;
  pos = 0;
  failed = false;
}

-- The record of a payload, by the flags of its header.
unfoldable pub decode_record : ℕ → ℕ → Bool → Bool → Bytes → Record
decode_record vfp len true compressed payload =
    stub_record vfp
      (record {
        heap_offset = from_le_bytes (slice 0 8 payload);
        stored_len = len;
        value_checksum = from_le_bytes (drop 8 payload);
      })
      compressed
decode_record vfp len false compressed payload = inline_record vfp payload compressed

-- The part of `Records::next` behind the header.
unfoldable pub next_payload : Records → ℕ → ℕ → Option (Result Record) × Records
unfolding decode_record
next_payload it vfp lf =
    let len = bit_and lf max_value_len in
    let out_of_line = not (bit_and lf flag_out_of_line == 0) in
    let compressed = not (bit_and lf flag_compressed == 0) in
    let payload_len = if out_of_line then stub_payload_len else len in
    let start = it.pos + header_len in
    let end = start + payload_len in
    if ltb it.usable end
    then (some (err (corrupt_block "record overruns block")), record it { failed = true })
    else (
      some (ok (decode_record vfp len out_of_line compressed (slice start end it.block))),
      record it { pos = align8 end },
    )

-- `Records::next`
unfoldable pub next : Records → Option (Result Record) × Records
next it =
    if it.failed || ltb it.usable (it.pos + header_len)
    then (none, it)
    else let vfp = from_le_bytes (slice it.pos (it.pos + 8) it.block) in
      let lf = from_le_bytes (slice (it.pos + 8) (it.pos + header_len) it.block) in
      if vfp == 0 then (none, it) else next_payload it vfp lf

-- The loop of `find` over the records.
unfoldable pub find_loop : ℕ → ℕ → Records → Result (Option Record)
find_loop zero vfp it = stuck
find_loop (suc fuel) vfp it =
    let (item, it') = next it in
    elim item [
      | none ↦ ok none
      | some (ok rec) ↦ elim (record_vfp rec == vfp) [
        | true ↦ ok (some rec)
        | false ↦ find_loop fuel vfp it'
      ]
      | some (err e) ↦ err e
      | some panic ↦ panic
      | some stuck ↦ stuck
    ]

pub record Assembler (S : Type 0) : Type 0 where
  pub block_size : ℕ
  pub buf : Bytes
  pub fences : List ℕ
  pub failed : Bool
  pub sink_state : S

-- A method of the assembler: what was written before an error stays written.
abbrev pub Asm : Type 0 → Type 0 → Type 0
Asm S A = Assembler S → Result A × Assembler S

module _ {S A B : Type 0} where
  abbrev continue : Result A → (A → Asm S B) → Asm S B
  continue (ok a) f s = f a s
  continue (err e) f s = (err e, s)
  continue panic f s = (panic, s)
  continue stuck f s = (stuck, s)

  infixl 5 ◌▹◌
  abbrev pub ◌▹◌ : Asm S A → (A → Asm S B) → Asm S B
  ◌▹◌ m f s = let (r, s') = m s in continue r f s'

module _ (xxh64 : Bytes → ℕ → ℕ) where
  -- `xxh64(bytes, 0) as u32`
  unfoldable pub checksum32 : Bytes → ℕ
  checksum32 bytes = xxh64 bytes 0 % 2 ^ 32

  unfoldable pub verify : Bytes → Result (Unit {0})
  unfolding checksum32
  verify block =
      if ltb (length block) checksum_len
      then err (corrupt_block "block shorter than its checksum")
      else let body = length block - checksum_len in
        let stored = from_le_bytes (drop body block) in
        if checksum32 (slice 0 body block) == stored then ok tt else err block_checksum_mismatch

  -- A record takes 16 bytes at least, so `length block` rounds are enough.
  unfoldable pub find : Bytes → ℕ → Result (Option Record)
  unfolding verify find_loop
  find block vfp = verify block >>= λ _. find_loop (suc (length block)) vfp (records block)

-- `BlockAssembler::new`
unfoldable pub new_assembler : {S : Type 0} → ℕ → S → Result (Assembler S)
unfolding encoded_len
new_assembler block_size s =
    if (block_size % record_align == 0)
      && leb (checksum_len + encoded_len stub_payload_len) block_size
    then ok
        (record { block_size = block_size; buf = []; fences = []; failed = false; sink_state = s })
    else panic

module _ (xxh64 : Bytes → ℕ → ℕ) {S : Type 0} (sink : Bytes → S → Result (Unit {0}) × S) where
  is_err : {A : Type 0} → Result A → Bool
  is_err (ok a) = false
  is_err _ = true

  unfoldable pub cut : Asm S (Unit {0})
  unfolding is_err
  cut asm =
      let body = resize (asm.block_size - checksum_len) 0 asm.buf in
      let (res, s) = sink (body ++ to_le_bytes 4 (checksum32 xxh64 body)) asm.sink_state in
      (res, record asm { buf = []; failed = is_err res || asm.failed; sink_state = s })

  -- The end of `push_header`: the fence of a record that opens a block, and the header's bytes.
  unfoldable pub write_header : ℕ → ℕ → ℕ → Asm S (Unit {0})
  write_header fp vfp length_flags asm =
      let fences = if length asm.buf == 0 then asm.fences ++ (fence_of fp ∷ []) else asm.fences in
      (
        ok tt,
        record asm {
          fences = fences;
          buf = asm.buf ++ (to_le_bytes 8 vfp ++ to_le_bytes 4 length_flags);
        },
      )

  unfoldable pub push_header : ℕ → ℕ → ℕ → ℕ → Asm S (Unit {0})
  unfolding cut write_header
  push_header fp vfp payload_len length_flags asm =
      if asm.failed
      then (err assembler_poisoned, asm)
      else if vfp == 0
      then (panic, asm)
      else let enc = encoded_len payload_len in
        let capacity = asm.block_size - checksum_len in
        if ltb capacity enc
        then (err (record_too_large enc capacity), asm)
        else ((if ltb capacity (length asm.buf + enc) then cut else λ a. (ok tt, a)) ▹ λ _.
              write_header fp vfp length_flags)
            asm

  unfoldable pub push_payload : Bytes → Asm S (Unit {0})
  push_payload payload asm =
      let buf = asm.buf ++ payload in
      (ok tt, record asm { buf = resize (align8 (length buf)) 0 buf })

  unfoldable pub push_inline : ℕ → ℕ → Bytes → Bool → Asm S (Unit {0})
  unfolding push_header push_payload
  push_inline fp vfp stored compressed asm =
      if ltb max_value_len (length stored)
      then (err (value_too_large (length stored) max_value_len), asm)
      else let lf =
          if compressed
          then bit_or (length stored % 2 ^ 32) flag_compressed
          else length stored % 2 ^ 32 in
        (push_header fp vfp (length stored) lf ▹ λ _. push_payload stored) asm

  unfoldable pub push_stub : ℕ → ℕ → Stub → Bool → Asm S (Unit {0})
  unfolding push_header push_payload
  push_stub fp vfp stub compressed asm =
      if ltb max_value_len stub.stored_len
      then (err (value_too_large stub.stored_len max_value_len), asm)
      else let lf = bit_or stub.stored_len flag_out_of_line in
        let lf' = if compressed then bit_or lf flag_compressed else lf in
        (push_header fp vfp stub_payload_len lf' ▹ λ _.
        push_payload (to_le_bytes 8 stub.heap_offset ++ to_le_bytes 4 stub.value_checksum))
          asm

  unfoldable pub finish : Asm S (List ℕ)
  finish asm =
      if asm.failed
      then (err assembler_poisoned, asm)
      else ((if length asm.buf == 0 then (λ a. (ok tt, a)) else cut) ▹ λ _. λ a. (ok a.fences, a))
          asm
