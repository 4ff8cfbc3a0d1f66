-- ===== src/V5/Reader/Held.antt =====
-- What a partition holds, and what a scan of one of its blocks finds.
use mathlib.Core.List.{flatten}
use mcfreeze.Base.{ℕ, zero, suc, ◌*◌, ◌^◌, ◌<◌, ◌≡◌, ◌≢◌, refl, sym, ap, ◌∙◌, List, [], ◌∷◌}
use mcfreeze.Base.{map, All, Elem, Elem-append, IsSorted, some, get_elem?, subst}
use mcfreeze.Base.{inl, inr, arith, Bytes, Bool, true, length, ◌==◌, ==_iff, Bool-cases}
use mcfreeze.Error.{ok, ◌>>=◌}
use mcfreeze.V5.Block.{Record, record_vfp, find}
use mcfreeze.V5.Block.Encoding.{IsStorable}
use mcfreeze.V5.Block.Scan.{first_match}
use mcfreeze.V5.Block.Seal.{seal, find-seal, length-seal}
use mcfreeze.V5.Block.Pack.{Entry, recs, group_fence, group_fences}
use mcfreeze.V5.Block.Refine.{IsGroup}
use mcfreeze.V5.Reader.{Partition}
use mcfreeze.V5.Reader.Files.{pread-flatten}
use mcfreeze.V5.Reader.Locate.{fps}
use mcfreeze.Data.{pread}
use mcfreeze.V5.Sketch.{Sketch, contains}

pub first_match-Elem :
    (vfp : ℕ) (rs : List Record) (r : Record)
    → first_match vfp rs ≡ some r
    → Elem r rs × (record_vfp r ≡ vfp)
unfolding first_match
first_match-Elem vfp [] r h = cc
first_match-Elem vfp (x ∷ rs) r h = elim (Bool-cases (record_vfp x == vfp)) [
  | inl same_vfp ↦
      let same : x ≡ r = ground (arith, same_vfp, h) in
      (inl (sym same), ap record_vfp (sym same) ∙ (==_iff (record_vfp x) vfp).0 same_vfp)
  | inr other ↦ let (mem, e) = first_match-Elem vfp rs r (ground (arith, other, h)) in (inr mem, e)
]

pub first_match-some :
    (vfp : ℕ) (rs : List Record) (r : Record)
    → Elem r rs
    → record_vfp r ≡ vfp
    → (s : Record) × (first_match vfp rs ≡ some s)
unfolding first_match
first_match-some vfp [] r h e = absurd h
first_match-some vfp (x ∷ rs) r h e = elim (Bool-cases (record_vfp x == vfp)) [
  | inl same_vfp ↦ (x, rw same_vfp refl)
  | inr other ↦ elim h [
    | inl same ↦ absurd (ground (arith, other, ap record_vfp same, e))
    | inr there ↦ (let (s, f) = first_match-some vfp rs r there e in (s, rw other f))
  ]
]

pub Elem-recs :
    (es : List Entry) (r : Record) → Elem r (recs es) → (e : Entry) × Elem e es × (e.rec ≡ r)
Elem-recs [] r h = absurd h
Elem-recs (x ∷ es) r (inl same) = (x, inl refl, sym same)
Elem-recs (x ∷ es) r (inr there) = let (e, m, q) = Elem-recs es r there in (e, inr m, q)

pub recs-Elem : (es : List Entry) (e : Entry) → Elem e es → Elem e.rec (recs es)
recs-Elem [] e h = absurd h
recs-Elem (x ∷ es) e (inl same) = inl (ap (λ (y : Entry). y.rec) same)
recs-Elem (x ∷ es) e (inr there) = inr (recs-Elem es e there)

pub Elem-flatten :
    (gs : List (List Entry)) (i : ℕ) (g : List Entry) (e : Entry)
    → get_elem? gs i ≡ some g
    → Elem e g
    → Elem e (flatten gs)
unfolding flatten
Elem-flatten [] i g e h m = cc
Elem-flatten (x ∷ gs) zero g e h m =
    let same : g ≡ x = cc in (Elem-append e x (flatten gs)).1 (inl (subst (Elem e) same m))
Elem-flatten (x ∷ gs) (suc i) g e h m =
    (Elem-append e x (flatten gs)).1 (inr (Elem-flatten gs i g e h m))

pub length-group_fences :
    (gs : List (List Entry)) → All (λ g. g ≢ []) gs → length (group_fences gs) ≡ length gs
unfolding group_fences group_fence
length-group_fences [] h = refl
length-group_fences ([] ∷ gs) h = absurd (h.0 refl)
length-group_fences ((e ∷ es) ∷ gs) h = ap suc (length-group_fences gs h.1)

pub All-Elem : {A : Type 0} (P : A → Type 0) (xs : List A) → ((x : A) → Elem x xs → P x) → All P xs
All-Elem P [] h = tt
All-Elem P (x ∷ xs) h = (h x (inl refl), All-Elem P xs (λ y m. h y (inr m)))

pub All-at : {A : Type 0} (P : A → Type 0) (xs : List A) (x : A) → All P xs → Elem x xs → P x
All-at P [] x a h = absurd h
All-at P (y ∷ xs) x a (inl same) = subst P (sym same) a.0
All-at P (y ∷ xs) x a (inr there) = All-at P xs x a.1 there

pub get_elem?-Elem :
    {A : Type 0} (xs : List A) (i : ℕ) (x : A) → get_elem? xs i ≡ some x → Elem x xs
get_elem?-Elem [] i x h = cc
get_elem?-Elem (y ∷ xs) zero x h = let same : x ≡ y = cc in inl same
get_elem?-Elem (y ∷ xs) (suc i) x h = inr (get_elem?-Elem xs i x h)

get_elem?-map :
    {A B : Type 0} (f : A → B) (xs : List A) (i : ℕ) (x : A)
    → get_elem? xs i ≡ some x
    → get_elem? (map f xs) i ≡ some (f x)
get_elem?-map f [] i x h = cc
get_elem?-map f (y ∷ xs) zero x h = let same : y ≡ x = cc in ap (λ z. some (f z)) same
get_elem?-map f (y ∷ xs) (suc i) x h = get_elem?-map f xs i x h

pub All-map-length :
    (xxh64 : Bytes → ℕ → ℕ) (block_size : ℕ) (gs : List (List Entry))
    → All (IsGroup block_size) gs
    → All (λ b. length b ≡ block_size) (map (λ g. seal xxh64 block_size (recs g)) gs)
All-map-length xxh64 block_size [] h = tt
All-map-length xxh64 block_size (g ∷ gs) h =
    (length-seal xxh64 block_size (recs g) h.0.1, All-map-length xxh64 block_size gs h.1)

-- What a partition holds: groups of storable entries, a block and a fence to each.
pub record Holds (xxh64 : Bytes → ℕ → ℕ) (block_size : ℕ) (gs : List (List Entry))
    (part : Partition) : Type 0 where
  pub small : block_size < 2 ^ 63
  pub fences : part.fences ≡ group_fences gs
  pub blocks : part.blocks ≡ flatten (map (λ g. seal xxh64 block_size (recs g)) gs)
  pub fits : All (IsGroup block_size) gs
  pub storable : (e : Entry) → Elem e (flatten gs) → IsStorable e.rec
  pub sorted : IsSorted (fps (flatten gs))

pub scan_block :
    (xxh64 : Bytes → ℕ → ℕ) (block_size vfp i : ℕ) (gs : List (List Entry)) (part : Partition)
    (g : List Entry)
    → Holds xxh64 block_size gs part
    → get_elem? gs i ≡ some g
    → (pread part.blocks (i * block_size) block_size >>= λ buf. find xxh64 buf vfp)
      ≡ ok (first_match vfp (recs g))
scan_block xxh64 block_size vfp i gs part g h e =
    let blocks = map (λ g'. seal xxh64 block_size (recs g')) gs in
    let read : pread part.blocks (i * block_size) block_size ≡ ok (seal xxh64 block_size (recs g)) =
      ap (λ file. pread file (i * block_size) block_size) h.blocks
      ∙ pread-flatten block_size i blocks (seal xxh64 block_size (recs g))
          (All-map-length xxh64 block_size gs h.fits)
          (get_elem?-map (λ g'. seal xxh64 block_size (recs g')) gs i g e) in
    let stored : All IsStorable (recs g) = All-Elem IsStorable (recs g) (λ r m.
      let (x, mem, q) = Elem-recs g r m in
      subst IsStorable q (h.storable x (Elem-flatten gs i g x e mem))) in
    let fit = All-at (IsGroup block_size) gs g h.fits (get_elem?-Elem gs i g e) in
    rw read (find-seal xxh64 block_size vfp (recs g) stored fit.1 h.small)

pub groups-ne-nil :
    (block_size : ℕ) (gs : List (List Entry)) → All (IsGroup block_size) gs → All (λ g. g ≢ []) gs
groups-ne-nil block_size [] h = tt
groups-ne-nil block_size (g ∷ gs) h = (h.0.0, groups-ne-nil block_size gs h.1)

-- The sketch, if there is one, does not reject the fingerprint.
abbrev pub Admits : (Bytes → Bytes → ℕ → Bool) → Partition → ℕ → Type 0
Admits filter part fp =
    (sketch : Sketch) → part.sketch ≡ some sketch → contains filter sketch fp ≡ true
