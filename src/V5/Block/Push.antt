-- ===== src/V5/Block/Push.antt =====
-- The refinement, step by step: each push of the assembler is one step of `pack`.
use mcfreeze.Base.{ℕ, ◌+◌, ◌-◌, ◌^◌, ◌≤◌, ◌<◌, ◌≡◌, refl, sym, ap, ◌∙◌}
use mathlib.Core.Path.{ap₂}
use mathlib.Core.List.{map-append}
use mcfreeze.Base.{List, [], ◌∷◌, ◌++◌, map, Bool, true, false, ◌≢◌, arith, Bytes}
use mcfreeze.Base.{inl, inr}
use mcfreeze.Base.{length, length-append, ltb, ◌==◌}
use mcfreeze.Base.{if◌then◌else◌, Bool-cases}
use mcfreeze.Base.Words.{to_le_bytes, length-to_le_bytes}
use mcfreeze.Error.{Result, ok}
use mcfreeze.V5.Fence.{fence_of}
use mcfreeze.V5.Block.{Record, inline_record, stub_record, record_vfp}
use mcfreeze.V5.Block.{Assembler, Asm, ◌▹◌, encoded_len, cut, write_header}
use mcfreeze.V5.Block.{push_header, push_payload, push_inline, push_stub}
use mcfreeze.V5.Block.Encoding.{IsStorable, length_flags, payload}
use mcfreeze.V5.Block.Encoding.{record_size, inline_field, stub_field}
use mcfreeze.V5.Block.Scan.{encode_records, size_of_records, length-encode_records, storable_vfp}
use mcfreeze.V5.Block.Seal.{seal}
use mcfreeze.V5.Block.Pack.{Entry, recs, push_record, collect, Packed, pack, group_fence}
use mcfreeze.V5.Block.Pack.{group_fences}
use mcfreeze.V5.Block.Pack.{encoded_len_lem}
use mcfreeze.V5.Block.Assemble.{concrete, Fits, cut_lem, append_lem, group_fences-snoc}
use mcfreeze.V5.Block.Assemble.{recs-snoc, size-snoc, empty_bytes, fence-join}

-- `push_header` for a record that fits a block: behind the others, or in a block of its own.
module _ (xxh64 : Bytes → ℕ → ℕ) (fp vfp len lf enc : ℕ) (asm : Assembler (List Bytes))
    (clean : asm.failed ≡ false) (nz : vfp ≢ 0) (ee : encoded_len len ≡ enc)
    (room : enc + 4 ≤ asm.block_size) where
  push_header-fit :
      ltb (asm.block_size - 4) (length asm.buf + enc) ≡ false
      → push_header xxh64 collect fp vfp len lf asm ≡ write_header xxh64 collect fp vfp lf asm
  unfolding push_header
  push_header-fit fit = ground arith

  push_header-full :
      ltb (asm.block_size - 4) (length asm.buf + enc) ≡ true
      → push_header xxh64 collect fp vfp len lf asm
        ≡ (cut xxh64 collect ▹ λ _. write_header xxh64 collect fp vfp lf) asm
  unfolding push_header
  push_header-full full = ground arith

abbrev Done : Type 0
Done = Result (Unit {0}) × Assembler (List Bytes)

abbrev then_do : Done → Asm (List Bytes) (Unit {0}) → Done
then_do d k = ((λ _. d) ▹ λ _. k) d.1

module _ (xxh64 : Bytes → ℕ → ℕ) (block_size : ℕ) (small : block_size < 2 ^ 62) where
  abbrev push_bytes : Entry → Asm (List Bytes) (Unit {0})
  push_bytes e =
      push_header xxh64 collect e.fp (record_vfp e.rec) (length (payload e.rec))
        (length_flags e.rec)
      ▹ λ _. push_payload xxh64 collect (payload e.rec)

  -- A push by the kind of the record writes the header and the payload that the encoding describes.
  record_push :
      (fp : ℕ) (r : Record) (asm : Assembler (List Bytes))
      → IsStorable r
      → push_record xxh64 collect fp r asm ≡ push_bytes (record { fp = fp; rec = r }) asm
  unfolding push_record push_inline push_stub record_vfp payload length_flags
  record_push fp (inline_record vfp value c) asm st =
      ground (arith, inline_field (length value) c st.2)
  record_push fp (stub_record vfp stub c) asm st = ground (
    arith,
    stub_field stub.stored_len c st.2,
    length-append (to_le_bytes 8 stub.heap_offset) (to_le_bytes 4 stub.value_checksum),
    length-to_le_bytes 8 stub.heap_offset,
    length-to_le_bytes 4 stub.value_checksum,
  )

  -- The two states that a push can lead to, as the packing names them.
  joined :
      (sealed : List (List Entry)) (current : List Entry) (e : Entry)
      → (let asm = concrete xxh64 block_size (record { sealed = sealed; current = current }) in
          record asm {
            buf = encode_records (recs current ++ (e.rec ∷ []));
            fences =
                (if length asm.buf == 0 then asm.fences ++ (fence_of e.fp ∷ []) else asm.fences);
          })
        ≡ concrete xxh64 block_size (record { sealed = sealed; current = current ++ (e ∷ []) })
  joined sealed current e = λ i. record {
    block_size = block_size;
    buf = encode_records (sym (recs-snoc current e) i);
    fences = fence-join (group_fences sealed) current e i;
    failed = false;
    sink_state = map (λ g. seal xxh64 block_size (recs g)) sealed;
  }

  opened :
      (sealed : List (List Entry)) (current : List Entry) (e : Entry)
      → (let asm = concrete xxh64 block_size (record { sealed = sealed; current = current }) in
          record asm {
            buf = encode_records (e.rec ∷ []);
            fences = asm.fences ++ (fence_of e.fp ∷ []);
            sink_state = asm.sink_state ++ (seal xxh64 block_size (recs current) ∷ []);
          })
        ≡ concrete xxh64 block_size (record { sealed = sealed ++ (current ∷ []); current = e ∷ [] })
  unfolding group_fence
  opened sealed current e =
      ap₂
        (λ (fs : List ℕ) (bs : List Bytes).
          record (concrete xxh64 block_size (record { sealed = sealed; current = e ∷ [] })) {
            fences = fs;
            sink_state = bs;
          })
        (ap (λ fs. fs ++ (fence_of e.fp ∷ [])) (sym (group_fences-snoc sealed current)))
        (sym (map-append (λ g. seal xxh64 block_size (recs g)) sealed (current ∷ [])))

  abbrev choose : Packed → Entry → Bool → Packed
  choose p e full =
      if full
      then record { sealed = p.sealed ++ (p.current ∷ []); current = e ∷ [] }
      else record { sealed = p.sealed; current = p.current ++ (e ∷ []) }

  push_entry :
      (sealed : List (List Entry)) (current : List Entry) (e : Entry)
      → Fits xxh64 block_size (record { sealed = sealed; current = current })
      → IsStorable e.rec
      → record_size e.rec + 4 ≤ block_size
      → push_bytes e (concrete xxh64 block_size (record { sealed = sealed; current = current })) ≡ (
        ok tt,
        concrete xxh64 block_size
            (pack block_size (record { sealed = sealed; current = current }) e),
      )
  unfolding pack
  push_entry sealed current e fits st room =
      let p : Packed = record { sealed = sealed; current = current } in
      let asm = concrete xxh64 block_size p in
      let enc = encoded_len_lem e.rec st in
      let nz = (storable_vfp e.rec st).0 in
      let len = length-encode_records (recs current) in
      let payload_of = push_payload xxh64 collect (payload e.rec) in
      elim (Bool-cases (ltb (block_size - 4) (length asm.buf + record_size e.rec))) [
        | inl full ↦
            ap (λ (d : Done). then_do d payload_of)
              (push_header-full xxh64 e.fp (record_vfp e.rec) (length (payload e.rec))
                (length_flags e.rec) (record_size e.rec) asm refl nz enc room full)
            ∙ ap
                (λ (d : Done).
                  then_do
                    (then_do d
                      (write_header xxh64 collect e.fp (record_vfp e.rec) (length_flags e.rec)))
                    payload_of)
                (cut_lem xxh64 (recs current) asm refl fits)
            ∙ append_lem xxh64 e.fp e.rec []
                (record asm {
                  buf = [];
                  sink_state = asm.sink_state ++ (seal xxh64 block_size (recs current) ∷ []);
                })
                (sym empty_bytes) (unfold size_of_records in omega arith) st
            ∙ ap (λ (a : Assembler (List Bytes)). (ok tt, a)) (opened sealed current e)
            ∙ ap (λ (q : Packed). (ok tt, concrete xxh64 block_size q))
                (sym (
                  ap (choose p e) (
                    ap (λ (n : ℕ). ltb (block_size - 4) (n + record_size e.rec)) (sym len) ∙ full)))
        | inr fit ↦
            ap (λ (d : Done). then_do d payload_of)
              (push_header-fit xxh64 e.fp (record_vfp e.rec) (length (payload e.rec))
                (length_flags e.rec) (record_size e.rec) asm refl nz enc room fit)
            ∙ append_lem xxh64 e.fp e.rec (recs current) asm refl (omega arith) st
            ∙ ap (λ (a : Assembler (List Bytes)). (ok tt, a)) (joined sealed current e)
            ∙ ap (λ (q : Packed). (ok tt, concrete xxh64 block_size q))
                (sym (
                  ap (choose p e)
                    (ap (λ (n : ℕ). ltb (block_size - 4) (n + record_size e.rec)) (sym len) ∙ fit)))
      ]

  -- One push of the assembler is one step of `pack`.
  pub push_record-pack :
      (p : Packed) (e : Entry)
      → Fits xxh64 block_size p
      → IsStorable e.rec
      → record_size e.rec + 4 ≤ block_size
      → push_record xxh64 collect e.fp e.rec (concrete xxh64 block_size p)
        ≡ (ok tt, concrete xxh64 block_size (pack block_size p e))
  push_record-pack p e fits st room =
      record_push e.fp e.rec (concrete xxh64 block_size p) st
      ∙ push_entry p.sealed p.current e fits st room

  pub pack-Fits :
      (p : Packed) (e : Entry)
      → Fits xxh64 block_size p
      → record_size e.rec + 4 ≤ block_size
      → Fits xxh64 block_size (pack block_size p e)
  unfolding pack
  pack-Fits p e fits room =
      elim (Bool-cases
        (ltb (block_size - 4) (size_of_records (recs p.current) + record_size e.rec))) [
          | inl full ↦ rw full (unfold size_of_records in omega arith)
          | inr fit ↦
              rw fit (rw (recs-snoc p.current e) (ground (arith, size-snoc (recs p.current) e.rec)))
        ]
