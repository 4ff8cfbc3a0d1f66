-- ===== src/V5/Reader/Get.antt =====
-- `get` on the files that an assembler wrote.
use mathlib.Core.List.{flatten}
use mcfreeze.Base.{ℕ, ◌<◌, ◌≡◌, ◌≢◌, refl, sym, ap, ◌∙◌, List, [], ◌∷◌}
use mcfreeze.Base.{All, Elem, IsSorted, Option, some, none, get_elem?, subst}
use mcfreeze.Base.{inl, inr, arith, Bytes, Bool, true, false, length, Bool-cases}
use mcfreeze.Base.{Option-cases, get_elem?-some, get_elem?-lt}
use mcfreeze.Error.{ok}
use mcfreeze.V5.Fence.{fence_of, candidate_blocks}
use mcfreeze.V5.Fence.Candidates.{IsCandidate, candidate_blocks-IsCandidate}
use mcfreeze.V5.Block.{Record, record_vfp}
use mcfreeze.V5.Block.Scan.{first_match}
use mcfreeze.V5.Block.Pack.{Entry, recs, group_fences}
use mcfreeze.V5.Compress.{Zstd, Decompressor}
use mcfreeze.V5.Reader.{Partition, miss, resolve, get_loop, get_in}
use mcfreeze.V5.Reader.Locate.{locate, group_fences-IsSorted}
use mcfreeze.V5.Reader.Held.{first_match-Elem, first_match-some, Elem-recs, recs-Elem, Elem-flatten}
use mcfreeze.V5.Reader.Held.{length-group_fences, All-Elem, Holds, scan_block, groups-ne-nil}
use mcfreeze.V5.Reader.Held.{Admits}
use mcfreeze.V5.Sketch.{contains}

-- In every group, the record that a scan finds is `r`.
abbrev OnlyMatch : ℕ → List (List Entry) → Record → Type 0
OnlyMatch vfp gs r =
    (i : ℕ) (g : List Entry) (s : Record)
    → get_elem? gs i ≡ some g
    → first_match vfp (recs g) ≡ some s
    → s ≡ r

-- In no group is there a record to find.
abbrev NoMatch : ℕ → List (List Entry) → Type 0
NoMatch vfp gs =
    (i : ℕ) (g : List Entry) → get_elem? gs i ≡ some g → first_match vfp (recs g) ≡ none

two_results :
    (gs : List (List Entry)) (i c vfp : ℕ) (g h : List Entry) (r : Record)
    → i ≡ c
    → get_elem? gs i ≡ some g
    → get_elem? gs c ≡ some h
    → first_match vfp (recs g) ≡ some r
    → first_match vfp (recs h) ≡ none
    → ⊥
two_results gs i c vfp g h r same eg eh er eh' =
    let same_group : some g ≡ some h = sym eg ∙ ap (get_elem? gs) same ∙ eh in cc

module _ (xxh64 : Bytes → ℕ → ℕ) (filter : Bytes → Bytes → ℕ → Bool) {Level CCtx DCtx : Type 0}
    (api : Zstd Level CCtx DCtx) (block_size vfp : ℕ) (gs : List (List Entry)) (part : Partition)
    (held : Holds xxh64 block_size gs part) where
  get_loop-found :
      (cs : List ℕ) (paid : Bool) (codec : Option (Decompressor DCtx)) (i : ℕ) (g : List Entry)
      (r : Record)
      → All (λ c. c < length gs) cs
      → Elem i cs
      → get_elem? gs i ≡ some g
      → first_match vfp (recs g) ≡ some r
      → OnlyMatch vfp gs r
      → get_loop xxh64 filter api part block_size vfp cs paid codec
        ≡ resolve xxh64 filter api part codec r
  unfolding get_loop
  get_loop-found [] paid codec i g r below mem eg er only = absurd mem
  get_loop-found (c ∷ cs) paid codec i g r below mem eg er only =
      let (h, eh) = get_elem?-some gs c below.0 in
      let scan = scan_block xxh64 block_size vfp c gs part h held eh in
      elim (Option-cases (first_match vfp (recs h))) [
        | inl nothing ↦
            let later : Elem i cs = elim mem [
              | inl same ↦ absurd (two_results gs i c vfp g h r same eg eh er nothing)
              | inr there ↦ there
            ] in
            rw (scan, get_loop)
              (rw nothing (get_loop-found cs true codec i g r below.1 later eg er only))
        | inr (s, found) ↦
            rw (scan, get_loop)
              (rw found (ap (resolve xxh64 filter api part codec) (only c h s eh found)))
      ]

  get_loop-none :
      (cs : List ℕ) (paid : Bool) (codec : Option (Decompressor DCtx))
      → All (λ c. c < length gs) cs
      → NoMatch vfp gs
      → (paid' : Bool) × (get_loop xxh64 filter api part block_size vfp cs paid codec
          ≡ (ok (miss paid'), codec))
  unfolding get_loop
  get_loop-none [] paid codec below none_found = (paid, refl)
  get_loop-none (c ∷ cs) paid codec below none_found =
      let (h, eh) = get_elem?-some gs c below.0 in
      let scan = scan_block xxh64 block_size vfp c gs part h held eh in
      let (paid', later) = get_loop-none cs true codec below.1 none_found in
      (paid', rw (scan, get_loop) (rw (none_found c h eh) later))

  candidates-below : (n : ℕ) → All (λ c. c < length gs) (candidate_blocks part.fences n)
  candidates-below n =
      let sorted : IsSorted part.fences =
        subst IsSorted (sym held.fences) (group_fences-IsSorted gs held.sorted) in
      All-Elem (λ c. c < length gs) (candidate_blocks part.fences n)
        (λ c mem.
          let (f, there, _, _) = (candidate_blocks-IsCandidate part.fences n c sorted).0 mem in
          omega (
            arith,
            get_elem?-lt part.fences c f there,
            ap length held.fences,
            length-group_fences gs (groups-ne-nil block_size gs held.fits),
          ))

  pub get_in-found :
      (fp : ℕ) (codec : Option (Decompressor DCtx)) (e : Entry)
      → Elem e (flatten gs)
      → e.fp ≡ fp
      → record_vfp e.rec ≡ vfp
      → ((e' : Entry) → Elem e' (flatten gs) → record_vfp e'.rec ≡ vfp → e'.rec ≡ e.rec)
      → Admits filter part fp
      → get_in xxh64 filter api part block_size fp vfp codec
        ≡ resolve xxh64 filter api part codec e.rec
  unfolding get_in resolve
  get_in-found fp codec e mem efp evfp unique admits =
      let (i, g, eg, in_group, candidate) =
        locate gs e (groups-ne-nil block_size gs held.fits) held.sorted mem in
      let (s, found) = first_match-some vfp (recs g) e.rec (recs-Elem g e in_group) evfp in
      let only : OnlyMatch vfp gs e.rec = λ j h r eh er.
        let (r_mem, r_vfp) = first_match-Elem vfp (recs h) r er in
        let (x, x_mem, q) = Elem-recs h r r_mem in
        sym q ∙ unique x (Elem-flatten gs j h x eh x_mem) (ap record_vfp q ∙ r_vfp) in
      let sorted : IsSorted part.fences =
        subst IsSorted (sym held.fences) (group_fences-IsSorted gs held.sorted) in
      let listed : Elem i (candidate_blocks part.fences (fence_of fp)) =
        (candidate_blocks-IsCandidate part.fences (fence_of fp) i sorted).1 (
          subst (λ fs. IsCandidate fs (fence_of fp) i) (sym held.fences)
            (subst (λ (n : ℕ). IsCandidate (group_fences gs) (fence_of n) i) efp candidate)) in
      let scan =
        get_loop-found (candidate_blocks part.fences (fence_of fp)) false codec i g e.rec
          (candidates-below (fence_of fp)) listed eg (found ∙ ap some (only i g s eg found)) only in
      elim (Option-cases part.sketch) [
        | inl without ↦ rw (without, get_in) scan
        | inr (sketch, given) ↦ rw (given, get_in) (rw (admits sketch given) scan)
      ]

  pub get_in-none :
      (fp : ℕ) (codec : Option (Decompressor DCtx))
      → ((e : Entry) → Elem e (flatten gs) → record_vfp e.rec ≢ vfp)
      → (paid : Bool) × (get_in xxh64 filter api part block_size fp vfp codec
          ≡ (ok (miss paid), codec))
  unfolding get_in
  get_in-none fp codec absent =
      let nowhere : NoMatch vfp gs = λ i g eg. elim (Option-cases (first_match vfp (recs g))) [
        | inl nothing ↦ nothing
        | inr (r, found) ↦
            let (r_mem, r_vfp) = first_match-Elem vfp (recs g) r found in
            let (x, x_mem, q) = Elem-recs g r r_mem in
            absurd (absent x (Elem-flatten gs i g x eg x_mem) (ap record_vfp q ∙ r_vfp))
      ] in
      let (paid, scan) =
        get_loop-none (candidate_blocks part.fences (fence_of fp)) false codec
          (candidates-below (fence_of fp)) nowhere in
      elim (Option-cases part.sketch) [
        | inl without ↦ (paid, rw (without, get_in) scan)
        | inr (sketch, given) ↦ elim (Bool-cases (contains filter sketch fp)) [
          | inl admitted ↦ (paid, rw (given, get_in) (rw admitted scan))
          | inr rejected ↦ (false, rw (given, get_in) (rw rejected refl))
        ]
      ]
