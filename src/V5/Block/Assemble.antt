-- ===== src/V5/Block/Assemble.antt =====
-- The state of the assembler for entries that are packed, and what `cut` and an append make of it.
use mcfreeze.Base.{ℕ, ◌+◌, ◌-◌, ◌%◌, ◌^◌, ◌≤◌, ◌<◌, ◌≡◌, refl, sym, ap, ◌∙◌}
use mcfreeze.Base.{List, [], ◌∷◌, ◌++◌, map, false, arith, Bytes}
use mcfreeze.Base.{append_assoc, take-all, append-nil}
use mcfreeze.Base.{length, replicate, resize, ◌==◌}
use mcfreeze.Base.{if◌then◌else◌}
use mcfreeze.Error.{ok}
use mcfreeze.V5.Fence.{fence_of}
use mcfreeze.V5.Block.{Record, record_vfp}
use mcfreeze.V5.Block.{Assembler, ◌▹◌, cut, write_header}
use mcfreeze.V5.Block.{push_payload}
use mcfreeze.V5.Block.Encoding.{IsStorable, length_flags, payload, encode_record}
use mcfreeze.V5.Block.Encoding.{record_size}
use mcfreeze.V5.Block.Scan.{encode_records, size_of_records, length-encode_records}
use mcfreeze.V5.Block.Seal.{seal, block_body}
use mcfreeze.V5.Block.Pack.{Entry, recs, collect, Packed, group_fence}
use mcfreeze.V5.Block.Pack.{group_fences, encode_records-snoc, size_of_records-aligned}
use mcfreeze.V5.Block.Pack.{payload_bytes}

module _ (xxh64 : Bytes → ℕ → ℕ) (block_size : ℕ) where
  -- The assembler's state when the entries are packed so.
  abbrev pub concrete : Packed → Assembler (List Bytes)
  concrete p = record {
    block_size = block_size;
    buf = encode_records (recs p.current);
    fences = group_fences p.sealed ++ group_fence p.current;
    failed = false;
    sink_state = map (λ g. seal xxh64 block_size (recs g)) p.sealed;
  }

  -- The current group fits its block.
  abbrev pub Fits : Packed → Type 0
  Fits p = size_of_records (recs p.current) + 4 ≤ block_size

-- `cut` seals what the buffer holds, and tells the sink.
pub cut_lem :
    (xxh64 : Bytes → ℕ → ℕ) (rs : List Record) (asm : Assembler (List Bytes))
    → asm.buf ≡ encode_records rs
    → size_of_records rs + 4 ≤ asm.block_size
    → cut xxh64 collect asm ≡ (
      ok tt,
      record asm { buf = []; sink_state = asm.sink_state ++ (seal xxh64 asm.block_size rs ∷ []) },
    )
unfolding cut collect seal block_body
cut_lem xxh64 rs asm eb fits =
    let e : resize (asm.block_size - 4) 0 asm.buf ≡ block_body asm.block_size rs =
      ap (resize (asm.block_size - 4) 0) eb
      ∙ ap (λ zs. zs ++ replicate (asm.block_size - 4 - length (encode_records rs)) 0)
          (take-all (asm.block_size - 4) (encode_records rs)
            (omega (arith, length-encode_records rs)))
      ∙ ap (λ n. encode_records rs ++ replicate (asm.block_size - 4 - n) 0)
          (length-encode_records rs) in
    rw e refl

-- A record behind what the buffer holds, once there is room for it.
pub append_lem :
    (xxh64 : Bytes → ℕ → ℕ) (fp : ℕ) (r : Record) (rs : List Record) (asm : Assembler (List Bytes))
    → asm.buf ≡ encode_records rs
    → size_of_records rs < 2 ^ 62
    → IsStorable r
    → (write_header xxh64 collect fp (record_vfp r) (length_flags r) ▹ λ _.
          push_payload xxh64 collect (payload r))
        asm
      ≡ (
        ok tt,
        record asm {
          buf = encode_records (rs ++ (r ∷ []));
          fences = (if length asm.buf == 0 then asm.fences ++ (fence_of fp ∷ []) else asm.fences);
        },
      )
unfolding write_header push_payload
append_lem xxh64 fp r rs asm eb small st =
    let e =
      payload_bytes asm.buf r st
        (ap (λ zs. length zs % 8) eb
          ∙ ap (λ n. n % 8) (length-encode_records rs)
          ∙ size_of_records-aligned rs)
        (omega (arith, ap length eb, length-encode_records rs)) in
    let e' = e ∙ ap (λ zs. zs ++ encode_record r) eb ∙ sym (encode_records-snoc rs r) in rw e' refl

pub group_fences-snoc :
    (gs : List (List Entry)) (g : List Entry)
    → group_fences (gs ++ (g ∷ [])) ≡ group_fences gs ++ group_fence g
unfolding group_fences
group_fences-snoc [] g = append-nil (group_fence g)
group_fences-snoc (x ∷ gs) g =
    ap (λ zs. group_fence x ++ zs) (group_fences-snoc gs g)
    ∙ sym (append_assoc (group_fence x) (group_fences gs) (group_fence g))

pub recs-snoc : (es : List Entry) (e : Entry) → recs (es ++ (e ∷ [])) ≡ recs es ++ (e.rec ∷ [])
recs-snoc [] e = refl
recs-snoc (x ∷ es) e = ap (λ rs. x.rec ∷ rs) (recs-snoc es e)

pub size-snoc :
    (rs : List Record) (r : Record)
    → size_of_records (rs ++ (r ∷ [])) ≡ size_of_records rs + record_size r
unfolding size_of_records
size-snoc [] r = omega arith
size-snoc (x ∷ rs) r = omega (arith, size-snoc rs r)

pub size_pos : (r : Record) (rs : List Record) → 0 < size_of_records (r ∷ rs)
unfolding size_of_records record_size
size_pos r rs = omega arith

pub empty_bytes : encode_records [] ≡ []
unfolding encode_records
empty_bytes = refl

-- The fences after a record joins a group that may be empty.
pub fence-join :
    (fs : List ℕ) (es : List Entry) (e : Entry)
    → (if length (encode_records (recs es)) == 0
        then (fs ++ group_fence es) ++ (fence_of e.fp ∷ [])
        else fs ++ group_fence es)
      ≡ fs ++ group_fence (es ++ (e ∷ []))
unfolding group_fence
fence-join fs [] e = unfold encode_records in ap (λ zs. zs ++ (fence_of e.fp ∷ [])) (append-nil fs)
fence-join fs (x ∷ es) e =
    ground (arith, length-encode_records (recs (x ∷ es)), size_pos x.rec (recs es))
