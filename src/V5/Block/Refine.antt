-- ===== src/V5/Block/Refine.antt =====
-- The whole run of an assembler: entries in, sealed blocks and their fences out.
use mathlib.Core.List.{map-append, flatten}
use mcfreeze.Base.{ℕ, ◌+◌, ◌-◌, ◌%◌, ◌^◌, ◌≤◌, ◌<◌, ◌≡◌, refl, sym, ap, ◌∙◌, subst}
use mcfreeze.Base.{List, [], ◌∷◌, ◌++◌, map, true, false, ◌≢◌, arith, Bytes}
use mcfreeze.Base.{append_assoc, All, append-nil, inl, inr, length, ltb, ◌==◌}
use mcfreeze.Base.{Bool-cases}
use mcfreeze.Error.{Result, ok, ◌>>=◌}
use mcfreeze.V5.Block.{Assembler, Asm, ◌▹◌, finish, new_assembler, align8}
use mcfreeze.V5.Block.Encoding.{IsStorable, record_size}
use mcfreeze.V5.Block.Scan.{encode_records, size_of_records, length-encode_records}
use mcfreeze.V5.Block.Seal.{seal}
use mcfreeze.V5.Block.Pack.{Entry, recs, push_record, collect, Packed, pack, group_fence}
use mcfreeze.V5.Block.Pack.{group_fences}
use mcfreeze.V5.Block.Assemble.{concrete, Fits, cut_lem, group_fences-snoc, size_pos}
use mcfreeze.V5.Block.Push.{push_record-pack, pack-Fits}

-- The calls of a caller that pushes the entries in turn, keeps the blocks, and finishes.
unfoldable pub push_all : (Bytes → ℕ → ℕ) → List Entry → Asm (List Bytes) (Unit {0})
push_all xxh64 [] asm = (ok tt, asm)
push_all xxh64 (e ∷ es) asm = (push_record xxh64 collect e.fp e.rec ▹ λ _. push_all xxh64 es) asm

unfoldable pub assemble : (Bytes → ℕ → ℕ) → ℕ → List Entry → Result (List ℕ × List Bytes)
assemble xxh64 block_size es = do
  asm ← new_assembler block_size []
  let run = (push_all xxh64 es ▹ λ _. finish xxh64 collect) asm
  fences ← run.0
  ok (fences, run.1.sink_state)

unfoldable pub pack_all : ℕ → Packed → List Entry → Packed
pack_all block_size p [] = p
pack_all block_size p (e ∷ es) = pack_all block_size (pack block_size p e) es

abbrev close_group : List (List Entry) → List Entry → List (List Entry)
close_group sealed [] = sealed
close_group sealed (e ∷ es) = sealed ++ ((e ∷ es) ∷ [])

-- The groups when nothing is left to push.
unfoldable pub close : Packed → List (List Entry)
close p = close_group p.sealed p.current

-- An entry that a block of the size can take.
abbrev pub CanHold : ℕ → Entry → Type 0
CanHold block_size e = IsStorable e.rec × (record_size e.rec + 4 ≤ block_size)

module _ (xxh64 : Bytes → ℕ → ℕ) (block_size : ℕ) (small : block_size < 2 ^ 62) where
  push_all-pack_all :
      (es : List Entry) (p : Packed)
      → Fits xxh64 block_size p
      → All (CanHold block_size) es
      → push_all xxh64 es (concrete xxh64 block_size p)
        ≡ (ok tt, concrete xxh64 block_size (pack_all block_size p es))
  unfolding push_all pack_all
  push_all-pack_all [] p fits h = refl
  push_all-pack_all (e ∷ es) p fits h =
      rw (push_record-pack xxh64 block_size small p e fits h.0.0 h.0.1) (
        push_all-pack_all es (pack block_size p e) (pack-Fits xxh64 block_size small p e fits h.0.1)
          h.1)

  pack_all-Fits :
      (es : List Entry) (p : Packed)
      → Fits xxh64 block_size p
      → All (CanHold block_size) es
      → Fits xxh64 block_size (pack_all block_size p es)
  unfolding pack_all
  pack_all-Fits [] p fits h = fits
  pack_all-Fits (e ∷ es) p fits h =
      pack_all-Fits es (pack block_size p e) (pack-Fits xxh64 block_size small p e fits h.0.1) h.1

  finish-close :
      (sealed : List (List Entry)) (current : List Entry)
      → Fits xxh64 block_size (record { sealed = sealed; current = current })
      → (let p : Packed = record { sealed = sealed; current = current } in
          let done = finish xxh64 collect (concrete xxh64 block_size p) in
          (done.0 ≡ ok (group_fences (close p)))
          × (done.1.sink_state ≡ map (λ g. seal xxh64 block_size (recs g)) (close p)))
  unfolding finish close
  finish-close sealed [] fits = (
    unfold encode_records group_fence in ap ok (append-nil (group_fences sealed)),
    unfold encode_records in refl,
  )
  finish-close sealed (x ∷ xs) fits =
      let asm = concrete xxh64 block_size (record { sealed = sealed; current = x ∷ xs }) in
      let some_bytes : (length asm.buf == 0) ≡ false =
        ground (arith, length-encode_records (recs (x ∷ xs)), size_pos x.rec (recs xs)) in
      let cutting = cut_lem xxh64 (recs (x ∷ xs)) asm refl fits in
      (
        ground (arith, some_bytes, cutting, group_fences-snoc sealed (x ∷ xs)),
        ground (
          arith,
          some_bytes,
          cutting,
          map-append (λ g. seal xxh64 block_size (recs g)) sealed ((x ∷ xs) ∷ []),
        ),
      )

-- A group that stands for a block: not empty, and no larger than a block holds.
abbrev pub IsGroup : ℕ → List Entry → Type 0
IsGroup block_size g = (g ≢ []) × (size_of_records (recs g) + 4 ≤ block_size)

flatten-snoc :
    (gs : List (List Entry)) (g : List Entry) → flatten (gs ++ (g ∷ [])) ≡ flatten gs ++ g
unfolding flatten
flatten-snoc [] g = append-nil g
flatten-snoc (x ∷ gs) g =
    ap (λ zs. x ++ zs) (flatten-snoc gs g) ∙ sym (append_assoc x (flatten gs) g)

IsGroup-snoc :
    (block_size : ℕ) (gs : List (List Entry)) (g : List Entry)
    → All (IsGroup block_size) gs
    → IsGroup block_size g
    → All (IsGroup block_size) (gs ++ (g ∷ []))
IsGroup-snoc block_size [] g h hg = (hg, tt)
IsGroup-snoc block_size (x ∷ gs) g h hg = (h.0, IsGroup-snoc block_size gs g h.1 hg)

-- What packing keeps: the entries in their order, and groups that are not empty and fit.
abbrev contents : Packed → List Entry
contents p = flatten p.sealed ++ p.current

module _ (xxh64 : Bytes → ℕ → ℕ) (block_size : ℕ) (small : block_size < 2 ^ 62) where
  abbrev Sealed : Packed → Type 0
  Sealed p = All (IsGroup block_size) p.sealed × Fits xxh64 block_size p

  current-ne-nil :
      (current : List Entry) (e : Entry)
      → record_size e.rec + 4 ≤ block_size
      → ltb (block_size - 4) (size_of_records (recs current) + record_size e.rec) ≡ true
      → current ≢ []
  current-ne-nil [] e room full eq = unfold size_of_records in ground arith
  current-ne-nil (x ∷ xs) e room full eq = cc

  pack-full :
      (p : Packed) (e : Entry)
      → ltb (block_size - 4) (size_of_records (recs p.current) + record_size e.rec) ≡ true
      → pack block_size p e ≡ record { sealed = p.sealed ++ (p.current ∷ []); current = e ∷ [] }
  unfolding pack
  pack-full p e full = rw full

  pack-fit :
      (p : Packed) (e : Entry)
      → ltb (block_size - 4) (size_of_records (recs p.current) + record_size e.rec) ≡ false
      → pack block_size p e ≡ record { sealed = p.sealed; current = p.current ++ (e ∷ []) }
  unfolding pack
  pack-fit p e fit = rw fit

  pack-contents :
      (p : Packed) (e : Entry)
      → CanHold block_size e
      → Sealed p
      → (contents (pack block_size p e) ≡ contents p ++ (e ∷ [])) × Sealed (pack block_size p e)
  pack-contents p e h s =
      let fits' = pack-Fits xxh64 block_size small p e s.1 h.1 in
      elim (Bool-cases
        (ltb (block_size - 4) (size_of_records (recs p.current) + record_size e.rec))) [
          | inl full ↦
              subst (λ (q : Packed). (contents q ≡ contents p ++ (e ∷ [])) × Sealed q)
                (sym (pack-full p e full))
                (
                  ap (λ zs. zs ++ (e ∷ [])) (flatten-snoc p.sealed p.current),
                  (
                    IsGroup-snoc block_size p.sealed p.current s.0
                        (current-ne-nil p.current e h.1 full, s.1),
                    subst (Fits xxh64 block_size) (pack-full p e full) fits',
                  ),
                )
          | inr fit ↦
              subst (λ (q : Packed). (contents q ≡ contents p ++ (e ∷ [])) × Sealed q)
                (sym (pack-fit p e fit))
                (
                  sym (append_assoc (flatten p.sealed) p.current (e ∷ [])),
                  (s.0, subst (Fits xxh64 block_size) (pack-fit p e fit) fits'),
                )
        ]

  pack_all-contents :
      (es : List Entry) (p : Packed)
      → All (CanHold block_size) es
      → Sealed p
      → (contents (pack_all block_size p es) ≡ contents p ++ es) × Sealed (pack_all block_size p es)
  unfolding pack_all
  pack_all-contents [] p h s = (sym (append-nil (contents p)), s)
  pack_all-contents (e ∷ es) p h s =
      let (now, s') = pack-contents p e h.0 s in
      let (later, s'') = pack_all-contents es (pack block_size p e) h.1 s' in
      (later ∙ ap (λ zs. zs ++ es) now ∙ append_assoc (contents p) (e ∷ []) es, s'')

  close-contents :
      (sealed : List (List Entry)) (current : List Entry)
      → Sealed (record { sealed = sealed; current = current })
      → (flatten (close (record { sealed = sealed; current = current }))
          ≡ flatten sealed ++ current)
        × All (IsGroup block_size) (close (record { sealed = sealed; current = current }))
  unfolding close
  close-contents sealed [] s = (sym (append-nil (flatten sealed)), s.0)
  close-contents sealed (x ∷ xs) s =
      (flatten-snoc sealed (x ∷ xs), IsGroup-snoc block_size sealed (x ∷ xs) s.0 ((λ e. cc), s.1))

-- The groups that the entries fall into.
unfoldable pub groups : ℕ → List Entry → List (List Entry)
groups block_size es = close (pack_all block_size (record { sealed = []; current = [] }) es)

assemble-run :
    (xxh64 : Bytes → ℕ → ℕ) (block_size : ℕ) (es : List Entry) (asm asm' : Assembler (List Bytes))
    (fences : List ℕ) (blocks : List Bytes)
    → new_assembler block_size [] ≡ ok asm
    → push_all xxh64 es asm ≡ (ok tt, asm')
    → (finish xxh64 collect asm').0 ≡ ok fences
    → (finish xxh64 collect asm').1.sink_state ≡ blocks
    → assemble xxh64 block_size es ≡ ok (fences, blocks)
unfolding assemble
assemble-run xxh64 block_size es asm asm' fences blocks new push done sink = ground arith

abbrev start : Packed
start = record { sealed = []; current = [] }

new_assembler-start :
    (xxh64 : Bytes → ℕ → ℕ) (block_size : ℕ)
    → block_size % 8 ≡ 0
    → 28 ≤ block_size
    → new_assembler block_size [] ≡ ok (concrete xxh64 block_size start)
unfolding new_assembler align8 encode_records group_fences group_fence
new_assembler-start xxh64 block_size h8 h28 = ground arith

contents-start : contents start ≡ []
unfolding flatten
contents-start = refl

-- The steps of a run over entries that each fit a block.
pub assemble-steps :
    (xxh64 : Bytes → ℕ → ℕ) (block_size : ℕ) (es : List Entry)
    → block_size % 8 ≡ 0
    → 28 ≤ block_size
    → block_size < 2 ^ 62
    → All (CanHold block_size) es
    → (asm : Assembler (List Bytes)) × (asm' : Assembler (List Bytes)) × (new_assembler block_size
          []
        ≡ ok asm)
      × (push_all xxh64 es asm ≡ (ok tt, asm'))
      × ((finish xxh64 collect asm').0 ≡ ok (group_fences (groups block_size es)))
      × ((finish xxh64 collect asm').1.sink_state
          ≡ map (λ g. seal xxh64 block_size (recs g)) (groups block_size es))
unfolding groups
assemble-steps xxh64 block_size es h8 h28 small h =
    let end = pack_all block_size start es in
    let fits : Fits xxh64 block_size start = unfold size_of_records in omega arith in
    let (all, s) = pack_all-contents xxh64 block_size small es start h (tt, fits) in
    let run = push_all-pack_all xxh64 block_size small es start fits h in
    let (done, blocks) = finish-close xxh64 block_size small end.sealed end.current s.1 in
    (
      concrete xxh64 block_size start,
      concrete xxh64 block_size end,
      new_assembler-start xxh64 block_size h8 h28,
      run,
      done,
      blocks,
    )

pub groups-contents :
    (xxh64 : Bytes → ℕ → ℕ) (block_size : ℕ) (es : List Entry)
    → 28 ≤ block_size
    → block_size < 2 ^ 62
    → All (CanHold block_size) es
    → (flatten (groups block_size es) ≡ es) × All (IsGroup block_size) (groups block_size es)
unfolding groups
groups-contents xxh64 block_size es h28 small h =
    let end = pack_all block_size start es in
    let fits : Fits xxh64 block_size start = unfold size_of_records in omega arith in
    let (all, s) = pack_all-contents xxh64 block_size small es start h (tt, fits) in
    let (flat, good) = close-contents xxh64 block_size small end.sealed end.current s in
    (flat ∙ all ∙ ap (λ zs. zs ++ es) contents-start, good)

-- Pushing storable entries that each fit a block, and finishing, succeeds. The entries fall in
-- order into groups that are not empty and fit a block; the sink gets the sealed block of each
-- group, and the fences are those of the groups' first entries.
pub assemble-groups :
    (xxh64 : Bytes → ℕ → ℕ) (block_size : ℕ) (es : List Entry)
    → block_size % 8 ≡ 0
    → 28 ≤ block_size
    → block_size < 2 ^ 62
    → All (CanHold block_size) es
    → (assemble xxh64 block_size es
        ≡ ok (
          group_fences (groups block_size es),
          map (λ g. seal xxh64 block_size (recs g)) (groups block_size es),
        ))
      × (flatten (groups block_size es) ≡ es)
      × All (IsGroup block_size) (groups block_size es)
assemble-groups xxh64 block_size es h8 h28 small h =
    let (asm, asm', new, run, done, blocks) = assemble-steps xxh64 block_size es h8 h28 small h in
    let (flat, good) = groups-contents xxh64 block_size es h28 small h in
    (
      assemble-run xxh64 block_size es asm asm' (group_fences (groups block_size es))
          (map (λ g. seal xxh64 block_size (recs g)) (groups block_size es)) new run done blocks,
      flat,
      good,
    )
