-- ===== src/V5/Block/Scan.antt =====
-- Scanning: what `Records::next` and `find` read from the bytes that `encode_record` describes.
use mcfreeze.Base.{ℕ, zero, suc, ◌+◌, ◌-◌, ◌%◌, ◌^◌, ◌≤◌, ◌<◌, ◌≡◌, refl, sym, ap, ◌∙◌}
use mcfreeze.Base.{List, [], ◌∷◌, ◌++◌, Bool, true, false, ◌≢◌, arith, Bytes}
use mcfreeze.Base.{inl, inr, Bool-cases, replicate-add}
use mcfreeze.Base.{Option, none, some, append_assoc, All, take-append, drop-append}
use mcfreeze.Base.{length, slice, replicate, length-append, ltb, ◌==◌}
use mcfreeze.Base.{slice-middle, slice-second, slice-third, if◌then◌else◌}
use mcfreeze.Base.Words.{to_le_bytes, length-to_le_bytes}
use mcfreeze.Base.Words.{from_le_bytes-to_le_bytes, from_le_bytes-zeros}
use mcfreeze.Error.{ok}
use mcfreeze.V5.Block.{Record, inline_record, stub_record, record_vfp, Records, next}
use mcfreeze.V5.Block.{find_loop, next_payload, max_value_len, decode_record}
use mcfreeze.V5.Block.Encoding.{length_flags, payload, padding, encode_record, record_size}
use mcfreeze.V5.Block.Encoding.{IsStorable, length-encode_record, align8_lem}
use mcfreeze.V5.Block.Encoding.{length_of_field, out_of_line_of_field, compressed_of_field}

-- The header that stands at the scanner's place.
next-header :
    (it : Records) (pre p rest : Bytes) (v f : ℕ)
    → it.block ≡ pre ++ (to_le_bytes 8 v ++ (to_le_bytes 4 f ++ (p ++ rest)))
    → it.pos ≡ length pre
    → it.failed ≡ false
    → it.pos + 12 ≤ it.usable
    → v < 2 ^ 64
    → f < 2 ^ 32
    → v ≢ 0
    → next it ≡ next_payload it v f
unfolding next
next-header it pre p rest v f eb ep ef hu hv hf nz = ground (
  arith,
  ap (slice it.pos (it.pos + 8)) eb
      ∙ slice-middle it.pos (it.pos + 8) pre (to_le_bytes 8 v) (to_le_bytes 4 f ++ (p ++ rest)) ep
          (omega (arith, length-to_le_bytes 8 v)),
  ap (slice (it.pos + 8) (it.pos + 12)) eb
      ∙ slice-second (it.pos + 8) (it.pos + 12) pre (to_le_bytes 8 v) (to_le_bytes 4 f) (p ++ rest)
          (omega (arith, length-to_le_bytes 8 v)) (omega (arith, length-to_le_bytes 4 f)),
  from_le_bytes-to_le_bytes 8 v hv,
  from_le_bytes-to_le_bytes 4 f hf,
)

decode-payload :
    (r : Record)
    → IsStorable r
    → (o c : Bool) × (n : ℕ) × (n ≤ max_value_len)
      × (length_flags r ≡ n + (if o then 2 ^ 31 else 0) + (if c then 2 ^ 30 else 0))
      × ((if o then 12 else n) ≡ length (payload r))
      × (decode_record (record_vfp r) n o c (payload r) ≡ r)
unfolding length_flags payload record_vfp decode_record
decode-payload (inline_record vfp value c) h =
    (false, c, length value, h.2, omega arith, refl, refl)
decode-payload (stub_record vfp stub c) h =
    let offset = to_le_bytes 8 stub.heap_offset in
    let sum = to_le_bytes 4 stub.value_checksum in
    (
      true,
      c,
      stub.stored_len,
      h.2,
      refl,
      omega (
        arith,
        length-append offset sum,
        length-to_le_bytes 8 stub.heap_offset,
        length-to_le_bytes 4 stub.value_checksum,
      ),
      ground (
        arith,
        take-append 8 offset sum (sym (length-to_le_bytes 8 stub.heap_offset)),
        drop-append 8 offset sum (sym (length-to_le_bytes 8 stub.heap_offset)),
        from_le_bytes-to_le_bytes 8 stub.heap_offset,
        from_le_bytes-to_le_bytes 4 stub.value_checksum,
      ),
    )

-- The scanner behind the header: the record itself, and the place of the next one.
next_payload-encode :
    (it : Records) (r : Record) (pre rest : Bytes)
    → IsStorable r
    → it.block
      ≡ pre
        ++ (to_le_bytes 8 (record_vfp r) ++ (to_le_bytes 4 (length_flags r) ++ (payload r ++ rest)))
    → it.pos ≡ length pre
    → it.pos % 8 ≡ 0
    → it.pos + record_size r ≤ it.usable
    → it.usable < 2 ^ 63
    → next_payload it (record_vfp r) (length_flags r)
      ≡ (some (ok r), record it { pos = it.pos + record_size r })
unfolding next_payload record_size
next_payload-encode it r pre rest st eb ep e8 hu small =
    let (o, c, n, hn, ef, el, ed) = decode-payload r st in
    ground (
      arith,
      length_of_field n o c hn,
      out_of_line_of_field n o c hn,
      compressed_of_field n o c hn,
      ap (slice (it.pos + 12) (it.pos + 12 + length (payload r))) eb
          ∙ slice-third (it.pos + 12) (it.pos + 12 + length (payload r)) pre
              (to_le_bytes 8 (record_vfp r)) (to_le_bytes 4 (length_flags r)) (payload r) rest
              (omega
                (arith, length-to_le_bytes 8 (record_vfp r), length-to_le_bytes 4 (length_flags r)))
              refl,
      align8_lem (it.pos + 12 + length (payload r)),
    )

pub storable_vfp : (r : Record) → IsStorable r → (record_vfp r ≢ 0) × (record_vfp r < 2 ^ 64)
unfolding record_vfp
storable_vfp (inline_record vfp value c) h = (h.0, h.1)
storable_vfp (stub_record vfp stub c) h = (h.0, h.1)

length_flags-lt : (r : Record) → IsStorable r → length_flags r < 2 ^ 32
length_flags-lt r st = let (o, c, n, hn, ef, el, ed) = decode-payload r st in ground arith

-- At a record that lies whole in the usable part, `next` yields it and goes on behind it.
pub next-encode_record :
    (it : Records) (r : Record) (pre rest : Bytes)
    → IsStorable r
    → it.block ≡ pre ++ (encode_record r ++ rest)
    → it.pos ≡ length pre
    → it.pos % 8 ≡ 0
    → it.failed ≡ false
    → it.pos + record_size r ≤ it.usable
    → it.usable < 2 ^ 63
    → next it ≡ (some (ok r), record it { pos = it.pos + record_size r })
unfolding encode_record record_size
next-encode_record it r pre rest st eb ep e8 ef hu small =
    let (nz, hv) = storable_vfp r st in
    let e : it.block
        ≡ pre
          ++ (to_le_bytes 8 (record_vfp r)
              ++ (to_le_bytes 4 (length_flags r) ++ (payload r ++ (padding r ++ rest)))) =
      eb ∙ simp append_assoc in
    next-header it pre (payload r) (padding r ++ rest) (record_vfp r) (length_flags r) e ep ef
      (omega arith) hv (length_flags-lt r st) nz
    ∙ next_payload-encode it r pre (padding r ++ rest) st e ep e8 (unfold record_size in hu) small

-- At zeros up to the end of the usable part there is no further record.
pub next-zeros :
    (it : Records) (pre rest : Bytes) (n : ℕ)
    → it.block ≡ pre ++ (replicate n 0 ++ rest)
    → it.pos ≡ length pre
    → it.usable ≡ it.pos + n
    → next it ≡ (none, it)
unfolding next
next-zeros it pre rest n eb ep eu = elim (Bool-cases (ltb n 12)) [
  | inl short ↦ ground arith
  | inr long ↦
      (let e : it.block ≡ pre ++ (replicate 8 0 ++ (replicate (n - 8) 0 ++ rest)) =
          eb
          ∙ ap (λ k. pre ++ (replicate k 0 ++ rest)) (let e' : n ≡ 8 + (n - 8) = ground arith in e')
          ∙ ap (λ zs. pre ++ (zs ++ rest)) (replicate-add 8 (n - 8) 0)
          ∙ ap (λ zs. pre ++ zs) (append_assoc (replicate 8 0) (replicate (n - 8) 0) rest) in
        ground (
          arith,
          ap (slice it.pos (it.pos + 8)) e
              ∙ slice-middle it.pos (it.pos + 8) pre (replicate 8 0) (replicate (n - 8) 0 ++ rest)
                  ep (omega arith),
          from_le_bytes-zeros 8,
        ))
]

record_size_aligned : (p : ℕ) (r : Record) → p % 8 ≡ 0 → (p + record_size r) % 8 ≡ 0
unfolding record_size
record_size_aligned p r h = omega arith

-- The bytes of records one behind the other, and the first record with a fingerprint.
unfoldable pub encode_records : List Record → Bytes
encode_records [] = []
encode_records (r ∷ rs) = encode_record r ++ encode_records rs

unfoldable pub size_of_records : List Record → ℕ
size_of_records [] = 0
size_of_records (r ∷ rs) = record_size r + size_of_records rs

unfoldable pub first_match : ℕ → List Record → Option Record
first_match vfp [] = none
first_match vfp (r ∷ rs) = if record_vfp r == vfp then some r else first_match vfp rs

pub length-encode_records : (rs : List Record) → length (encode_records rs) ≡ size_of_records rs
unfolding encode_records size_of_records
length-encode_records [] = refl
length-encode_records (r ∷ rs) = omega (
  arith,
  length-append (encode_record r) (encode_records rs),
  length-encode_record r,
  length-encode_records rs,
)

pub length-le-size : (rs : List Record) → length rs ≤ size_of_records rs
unfolding size_of_records record_size
length-le-size [] = omega arith
length-le-size (r ∷ rs) = omega (arith, length-le-size rs)

find_loop-none :
    (fuel vfp : ℕ) (it : Records) → next it ≡ (none, it) → find_loop (suc fuel) vfp it ≡ ok none
unfolding find_loop
find_loop-none fuel vfp it e = ground (arith)

find_loop-some :
    (fuel vfp : ℕ) (it it' : Records) (r : Record)
    → next it ≡ (some (ok r), it')
    → find_loop (suc fuel) vfp it
      ≡ (if record_vfp r == vfp then ok (some r) else find_loop fuel vfp it')
unfolding find_loop
find_loop-some fuel vfp it it' r e = ground (arith)

-- The loop of `find` over records that stand one behind the other, then zeros.
pub find_loop-encode_records :
    (rs : List Record) (fuel vfp n : ℕ) (it : Records) (pre rest : Bytes)
    → All IsStorable rs
    → it.block ≡ pre ++ (encode_records rs ++ (replicate n 0 ++ rest))
    → it.pos ≡ length pre
    → it.pos % 8 ≡ 0
    → it.failed ≡ false
    → it.usable ≡ it.pos + size_of_records rs + n
    → it.usable < 2 ^ 63
    → length rs < fuel
    → find_loop fuel vfp it ≡ ok (first_match vfp rs)
unfolding first_match encode_records size_of_records
find_loop-encode_records rs zero vfp n it pre rest st eb ep e8 ef eu small hf = absurd (omega arith)
find_loop-encode_records [] (suc fuel) vfp n it pre rest st eb ep e8 ef eu small hf =
    find_loop-none fuel vfp it (next-zeros it pre rest n eb ep (omega arith))
find_loop-encode_records (r ∷ rs) (suc fuel) vfp n it pre rest st eb ep e8 ef eu small hf =
    let it' : Records = record it { pos = it.pos + record_size r } in
    let tail = encode_records rs ++ (replicate n 0 ++ rest) in
    let here : it.block ≡ pre ++ (encode_record r ++ tail) =
      eb
      ∙ ap (λ zs. pre ++ zs)
          (append_assoc (encode_record r) (encode_records rs) (replicate n 0 ++ rest)) in
    let there : it.block ≡ (pre ++ encode_record r) ++ tail =
      here ∙ sym (append_assoc pre (encode_record r) tail) in
    let aligned : it'.pos % 8 ≡ 0 = record_size_aligned it.pos r e8 in
    find_loop-some fuel vfp it it' r
      (next-encode_record it r pre tail st.0 here ep e8 ef (omega arith) small)
    ∙ ap (λ o. if record_vfp r == vfp then ok (some r) else o)
        (find_loop-encode_records rs fuel vfp n it' (pre ++ encode_record r) rest st.1 there
          (omega (arith, length-append pre (encode_record r), length-encode_record r)) aligned ef
          (omega arith) small (omega arith))
    ∙ ground arith
