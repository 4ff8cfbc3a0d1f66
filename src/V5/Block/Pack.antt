-- ===== src/V5/Block/Pack.antt =====
-- The assembler refines a plain packing of entries into groups: one group to a block.
use mcfreeze.Base.{ℕ, ◌+◌, ◌-◌, ◌%◌, ◌^◌, ◌<◌, ◌≡◌, refl, sym, ap, ◌∙◌}
use mcfreeze.Base.{List, [], ◌∷◌, ◌++◌, map, arith, Bytes}
use mcfreeze.Base.{append_assoc, take-all, append-nil}
use mcfreeze.Base.{length, replicate, resize, length-append, ltb}
use mcfreeze.Base.{if◌then◌else◌}
use mcfreeze.Base.Words.{to_le_bytes, length-to_le_bytes}
use mcfreeze.Error.{Result, ok}
use mcfreeze.V5.Fence.{fence_of}
use mcfreeze.V5.Block.{Record, inline_record, stub_record, record_vfp, align8}
use mcfreeze.V5.Block.{Asm, encoded_len}
use mcfreeze.V5.Block.{push_inline, push_stub}
use mcfreeze.V5.Block.Encoding.{IsStorable, length_flags, payload, encode_record}
use mcfreeze.V5.Block.Encoding.{record_size, payload-le, align8_lem}
use mcfreeze.V5.Block.Scan.{encode_records, size_of_records}

pub record Entry : Type 0 where
  pub fp : ℕ
  pub rec : Record

abbrev pub recs : List Entry → List Record
recs = map (λ e. e.rec)

-- The caller's match on where a value is stored.
unfoldable pub push_record :
    (Bytes → ℕ → ℕ) → {S : Type 0} → (Bytes → S → Result (Unit {0}) × S) → ℕ → Record → Asm S Unit
push_record xxh64 sink fp (inline_record vfp value compressed) =
    push_inline xxh64 sink fp vfp value compressed
push_record xxh64 sink fp (stub_record vfp stub compressed) =
    push_stub xxh64 sink fp vfp stub compressed

-- A sink that keeps the blocks.
unfoldable pub collect : Bytes → List Bytes → Result (Unit {0}) × List Bytes
collect block blocks = (ok tt, blocks ++ (block ∷ []))

-- Entries in groups: the sealed ones, and the one that is being filled.
pub record Packed : Type 0 where
  pub sealed : List (List Entry)
  pub current : List Entry

unfoldable pub pack : ℕ → Packed → Entry → Packed
pack block_size p e =
    if ltb (block_size - 4) (size_of_records (recs p.current) + record_size e.rec)
    then record { sealed = p.sealed ++ (p.current ∷ []); current = e ∷ [] }
    else record { sealed = p.sealed; current = p.current ++ (e ∷ []) }

unfoldable pub group_fence : List Entry → List ℕ
group_fence [] = []
group_fence (e ∷ es) = fence_of e.fp ∷ []

unfoldable pub group_fences : List (List Entry) → List ℕ
unfolding group_fence
group_fences [] = []
group_fences (g ∷ gs) = group_fence g ++ group_fences gs

pub encode_records-snoc :
    (rs : List Record) (r : Record)
    → encode_records (rs ++ (r ∷ [])) ≡ encode_records rs ++ encode_record r
unfolding encode_records
encode_records-snoc [] r = append-nil (encode_record r)
encode_records-snoc (x ∷ rs) r =
    ap (λ zs. encode_record x ++ zs) (encode_records-snoc rs r)
    ∙ sym (append_assoc (encode_record x) (encode_records rs) (encode_record r))

pub size_of_records-aligned : (rs : List Record) → size_of_records rs % 8 ≡ 0
unfolding size_of_records record_size
size_of_records-aligned [] = refl
size_of_records-aligned (r ∷ rs) = omega (arith, size_of_records-aligned rs)

pub encoded_len_lem : (r : Record) → IsStorable r → encoded_len (length (payload r)) ≡ record_size r
unfolding encoded_len record_size
encoded_len_lem r st = align8_lem (12 + length (payload r)) (omega (arith, payload-le r st))

-- `push_payload` fills the header up to a whole record.
pub payload_bytes :
    (buf : Bytes) (r : Record)
    → IsStorable r
    → length buf % 8 ≡ 0
    → length buf < 2 ^ 62
    → (let b =
          (buf ++ (to_le_bytes 8 (record_vfp r) ++ to_le_bytes 4 (length_flags r))) ++ payload r in
        resize (align8 (length b)) 0 b)
      ≡ buf ++ encode_record r
unfolding encode_record record_size
payload_bytes buf r st h8 small =
    let head = to_le_bytes 8 (record_vfp r) ++ to_le_bytes 4 (length_flags r) in
    let b = (buf ++ head) ++ payload r in
    let len : length b ≡ length buf + 12 + length (payload r) = omega (
      arith,
      length-append (buf ++ head) (payload r),
      length-append buf head,
      length-append (to_le_bytes 8 (record_vfp r)) (to_le_bytes 4 (length_flags r)),
      length-to_le_bytes 8 (record_vfp r),
      length-to_le_bytes 4 (length_flags r),
    ) in
    let full : align8 (length b) ≡ length buf + record_size r =
      align8_lem (length b) (omega (arith, payload-le r st)) ∙ omega arith in
    ap (λ zs. zs ++ replicate (align8 (length b) - length b) 0)
      (take-all (align8 (length b)) b (omega arith))
    ∙ ap (λ n. b ++ replicate n 0)
        (let e : align8 (length b) - length b ≡ record_size r - (12 + length (payload r)) =
            omega arith in
          e)
    ∙ simp append_assoc
