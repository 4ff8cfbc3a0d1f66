-- ===== src/V4/Index/Insert.antt =====
-- Insertion into a Robin Hood table: it ends, keeps the buckets and keeps all of them reached.
use mcfreeze.Base.{ℕ, zero, suc, ◌+◌, ◌*◌, ◌%◌, ◌<◌, ◌≤◌, ◌≡◌, refl, sym, ap, ◌∙◌}
use mcfreeze.Base.{subst, List, [], ◌∷◌}
use mcfreeze.Base.{Bool, true, false, ◌⊎◌, inl, inr, arith, Bool-cases, ==_iff, ◌==◌, length}
use mcfreeze.Base.{get_or, set}
use mcfreeze.Error.{Result, ok, err, psl_overflow}
use mcfreeze.V4.Index.{Bucket, Insertion, slot, is_empty, displace, advance, insert_loop}
use mcfreeze.V4.Index.{insert, start, n_occupied}
use mcfreeze.V4.Index.Slots.{length-set, sum}
use mcfreeze.V4.Index.Displace.{IsPlaced, IsIn, IsReached, IsOccupied, IsGoing, IsKept}
use mcfreeze.V4.Index.Displace.{IsPlaced-set}
use mcfreeze.V4.Index.Displace.{IsIn-set, pos-lt, displace-IsGoing, displace-measure}
use mcfreeze.V4.Index.Displace.{advance-IsGoing}

sum-bound :
    (psls : List ℕ)
    → ((p : ℕ) → p < length psls → get_or psls p 0 < 256)
    → sum psls ≤ 255 * length psls
unfolding sum
sum-bound [] h = omega arith
sum-bound (x ∷ xs) h =
    omega (arith, h 0 (omega arith), sum-bound xs (λ p less. h (suc p) (omega arith)))

-- What an insertion gives: a table with everything in its place, or the overflow error.
abbrev pub IsInserted : Result (List Bucket × List ℕ) → ℕ → (Bucket → Type 0) → Type 0
IsInserted r n kept =
    ((table : List Bucket) × (psls : List ℕ) × (r ≡ ok (table, psls))
      × IsPlaced table psls
      × (length table ≡ n)
      × ((b : Bucket) → is_empty b ≡ false → kept b → IsIn table b))
    ⊎ ((n_keys : ℕ) × (r ≡ err (psl_overflow 255 n_keys n)))

false-true : (b : Bool) → b ≡ false → b ≡ true → ⊥
false-true b h k = cc

insert-here :
    (s : Insertion)
    → IsGoing s
    → is_empty (slot s.table s.pos) ≡ true
    → (b : Bucket) → is_empty b ≡ false
    → IsKept s b
    → IsIn (set s.table s.pos s.cur) b
insert-here s going free b full k = elim (IsIn-set s.table s.pos s.cur b (pos-lt s going) k) [
  | inl found ↦ found
  | inr same ↦ absurd (false-true (is_empty b) full (ap is_empty same ∙ free))
]

insert_loop-free :
    (fuel : ℕ) (s : Insertion)
    → is_empty (slot s.table s.pos) ≡ true
    → insert_loop (suc fuel) s ≡ ok (set s.table s.pos s.cur, set s.psls s.pos s.psl)
unfolding insert_loop
insert_loop-free fuel s free = rw (free, insert_loop) refl

insert_loop-full :
    (fuel : ℕ) (s : Insertion)
    → IsOccupied s.table s.pos
    → ((displace s).psl == 255) ≡ true
    → insert_loop (suc fuel) s
      ≡ err (
          psl_overflow (displace s).psl (n_occupied (displace s).table) (length (displace s).table))
unfolding insert_loop
insert_loop-full fuel s occ full = rw (occ, insert_loop) (rw full refl)

insert_loop-next :
    (fuel : ℕ) (s : Insertion)
    → IsOccupied s.table s.pos
    → ((displace s).psl == 255) ≡ false
    → insert_loop (suc fuel) s ≡ insert_loop fuel (advance (displace s))
unfolding insert_loop
insert_loop-next fuel s occ room = rw (occ, insert_loop) (rw room refl)

IsInserted-weaken :
    (r r' : Result (List Bucket × List ℕ)) (n n' : ℕ) (kept kept' : Bucket → Type 0)
    → r ≡ r'
    → n ≡ n'
    → ((b : Bucket) → kept' b → kept b)
    → IsInserted r' n' kept
    → IsInserted r n kept'
IsInserted-weaken r r' n n' kept kept' er en weaker (inl (table, psls, e, placed, len, all)) =
    inl (table, psls, er ∙ e, placed, len ∙ sym en, λ b full k. all b full (weaker b k))
IsInserted-weaken r r' n n' kept kept' er en weaker (inr (n_keys, e)) =
    inr (n_keys, er ∙ e ∙ ap (λ (k : ℕ). err (psl_overflow 255 n_keys k)) (sym en))

advance-IsKept : (s : Insertion) (b : Bucket) → IsKept s b → IsKept (advance s) b
unfolding advance
advance-IsKept s b k = k

advance-measure :
    (s : Insertion)
    → (sum (advance s).psls + (advance s).psl ≡ sum s.psls + s.psl + 1)
      × (length (advance s).table ≡ length s.table)
unfolding advance
advance-measure s = (omega arith, refl)

insert_loop-IsInserted :
    (fuel : ℕ) (s : Insertion)
    → IsGoing s
    → 255 * (length s.table + 1) < fuel + (sum s.psls + s.psl)
    → IsInserted (insert_loop fuel s) (length s.table) (IsKept s)
insert_loop-IsInserted zero s going enough = absurd (
    omega (
      arith,
      sum-bound s.psls (λ p less. going.0.1 p (omega (arith, going.0.0))),
      going.0.0,
      going.3.1,
    ))
insert_loop-IsInserted (suc fuel) s going enough =
    elim (Bool-cases (is_empty (slot s.table s.pos))) [
      | inl free ↦ inl (
        set s.table s.pos s.cur,
        set s.psls s.pos s.psl,
        insert_loop-free fuel s free,
        IsPlaced-set s.table s.psls s.pos s.psl s.cur (pos-lt s going) going.2 going.3 going.0,
        length-set s.table s.pos s.cur,
        insert-here s going free,
      )
      | inr occ ↦
          let s' = displace s in
          let (going', same_pos, occ', kept) = displace-IsGoing s going occ in
          let (measure, len) = displace-measure s going in
          elim (Bool-cases (s'.psl == 255)) [
            | inl full ↦ inr (
              n_occupied s'.table,
              insert_loop-full fuel s occ full
                  ∙ ap (λ (k : ℕ). err (psl_overflow k (n_occupied s'.table) (length s'.table)))
                      ((==_iff s'.psl 255).0 full)
                  ∙ ap (λ (k : ℕ). err (psl_overflow 255 (n_occupied s'.table) k)) len,
            )
            | inr room ↦
                let less : s'.psl < 255 = ground (arith, room, going'.3.1) in
                let occ_there : IsOccupied s'.table s'.pos =
                  subst (λ (k : ℕ). IsOccupied s'.table k) (sym same_pos) occ' in
                let (measure', len') = advance-measure s' in
                IsInserted-weaken (insert_loop (suc fuel) s) (insert_loop fuel (advance s'))
                  (length s.table) (length (advance s').table) (IsKept (advance s')) (IsKept s)
                  (insert_loop-next fuel s occ room) (sym len ∙ sym len')
                  (λ b k. advance-IsKept s' b (kept b k))
                  (insert_loop-IsInserted fuel (advance s')
                    (advance-IsGoing s' going' occ_there less)
                    (omega (arith, measure, measure', len, len', enough)))
          ]
    ]

insert-runs :
    (table : List Bucket) (psls : List ℕ) (entry : Bucket)
    → 0 < length table
    → insert table psls entry ≡ insert_loop (256 * (length table + 1)) (start table psls entry)
unfolding insert
insert-runs table psls entry some_room =
    rw ((let e : (length table == 0) ≡ false = ground arith in e), insert) refl

-- An insertion into a Robin Hood table always ends: with a table of the same length, in which every
-- bucket is reached from its home within 255 steps over occupied places, and which has all the
-- buckets of the old one and the new one; or with the overflow error. The table is not empty, it is
-- a Robin Hood table already, and the new bucket's fingerprint is not 0.
pub insert-IsInserted :
    (table : List Bucket) (psls : List ℕ) (entry : Bucket)
    → 0 < length table
    → IsPlaced table psls
    → is_empty entry ≡ false
    → IsInserted (insert table psls entry) (length table) (λ b. IsIn table b ⊎ (b ≡ entry))
insert-IsInserted table psls entry some_room placed full =
    let begin = start table psls entry in
    let reached : IsReached table entry.fingerprint (entry.fingerprint % length table) 0 = (
      ap (λ (x : ℕ). x % length table) (omega arith),
      omega arith,
      λ j less. absurd (omega arith),
    ) in
    IsInserted-weaken (insert table psls entry) (insert_loop (256 * (length table + 1)) begin)
      (length table) (length table) (IsKept begin) (λ b. IsIn table b ⊎ (b ≡ entry))
      (insert-runs table psls entry some_room) refl (λ b k. k)
      (insert_loop-IsInserted (256 * (length table + 1)) begin (placed, some_room, full, reached)
        (omega arith))
