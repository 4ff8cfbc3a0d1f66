-- ===== src/V4/Index/Displace.antt =====
-- The invariant of a Robin Hood table, and a round of an insertion.
use native.Mathlib.Nat.{mod-lt, mod-add-mod}
use mcfreeze.Base.{ℕ, ◌+◌, ◌%◌, ◌<◌, ◌≡◌, ◌≢◌, refl, sym, ap, ◌∙◌, subst, List}
use mcfreeze.Base.{false, ◌⊎◌, inl, inr, arith, Bool-cases, ==_iff, ◌==◌, ltb}
use mcfreeze.Base.{length, set}
use mcfreeze.V4.Index.{Bucket, Insertion, slot, psl_at, is_empty, displace, advance, default_bucket}
use mcfreeze.V4.Index.Slots.{length-set, get_or-set, get_or-set_other, sum, sum-set}

abbrev pub IsOccupied : List Bucket → ℕ → Type 0
IsOccupied table p = is_empty (slot table p) ≡ false

-- The place is `d` steps behind the home of the fingerprint, and all places between hold a bucket.
abbrev pub IsReached : List Bucket → ℕ → ℕ → ℕ → Type 0
IsReached table f p d =
    (p ≡ (f + d) % length table)
    × (d < 256)
    × ((j : ℕ) → j < d → IsOccupied table ((f + j) % length table))

-- Every bucket is reached from its home, at its recorded distance.
abbrev pub IsPlaced : List Bucket → List ℕ → Type 0
IsPlaced table psls =
    (length psls ≡ length table)
    × ((p : ℕ) → p < length table → psl_at psls p < 256)
    × ((p : ℕ)
        → p < length table
        → IsOccupied table p
        → IsReached table (slot table p).fingerprint p (psl_at psls p))

-- The bucket is in the table.
abbrev pub IsIn : List Bucket → Bucket → Type 0
IsIn table b = (p : ℕ) × (p < length table) × (slot table p ≡ b)

IsOccupied-set :
    (table : List Bucket) (p j : ℕ) (c : Bucket)
    → p < length table
    → is_empty c ≡ false
    → IsOccupied table j
    → IsOccupied (set table p c) j
IsOccupied-set table p j c lt full h = elim (Bool-cases (j == p)) [
  | inl same ↦
      subst (λ (k : ℕ). IsOccupied (set table p c) k) (sym ((==_iff j p).0 same))
        (ap is_empty (get_or-set table p c default_bucket lt) ∙ full)
  | inr other ↦
      ap is_empty
        (get_or-set_other table p j c default_bucket (λ e. absurd (ground (arith, other, e))))
      ∙ h
]

pub IsReached-set :
    (table : List Bucket) (p : ℕ) (c : Bucket) (f q d : ℕ)
    → p < length table
    → is_empty c ≡ false
    → IsReached table f q d
    → IsReached (set table p c) f q d
IsReached-set table p c f q d lt full h = (
  h.0 ∙ ap (λ (n : ℕ). (f + d) % n) (sym (length-set table p c)),
  h.1,
  λ j less.
      subst (λ (n : ℕ). IsOccupied (set table p c) ((f + j) % n)) (sym (length-set table p c))
        (IsOccupied-set table p ((f + j) % length table) c lt full (h.2 j less)),
)

write_cases :
    (table : List Bucket) (psls : List ℕ) (p d : ℕ) (c : Bucket) (q : ℕ)
    → p < length table
    → length psls ≡ length table
    → ((q ≡ p) × (slot (set table p c) q ≡ c) × (psl_at (set psls p d) q ≡ d))
      ⊎ ((q ≢ p)
          × (slot (set table p c) q ≡ slot table q)
          × (psl_at (set psls p d) q ≡ psl_at psls q))
write_cases table psls p d c q lt len = elim (Bool-cases (q == p)) [
  | inl same ↦
      let e : p ≡ q = sym ((==_iff q p).0 same) in
      inl (
        sym e,
        subst (λ (k : ℕ). slot (set table p c) k ≡ c) e (get_or-set table p c default_bucket lt),
        subst (λ (k : ℕ). psl_at (set psls p d) k ≡ d) e (get_or-set psls p d 0 (omega arith)),
      )
  | inr other ↦
      let ne : q ≢ p = λ e. absurd (ground (arith, other, e)) in
      inr (ne, get_or-set_other table p q c default_bucket ne, get_or-set_other psls p q d 0 ne)
]

IsReached-eq :
    (table : List Bucket) (f f' p p' d d' : ℕ)
    → f ≡ f'
    → p ≡ p'
    → d ≡ d'
    → IsReached table f p d
    → IsReached table f' p' d'
IsReached-eq table f f' p p' d d' ef ep ed h =
    subst (λ (x : ℕ). IsReached table x p' d') ef
      (subst (λ (x : ℕ). IsReached table f x d') ep (subst (λ (x : ℕ). IsReached table f p x) ed h))

-- A write of a bucket that is reached at its place keeps all buckets reached.
pub IsPlaced-set :
    (table : List Bucket) (psls : List ℕ) (p d : ℕ) (c : Bucket)
    → p < length table
    → is_empty c ≡ false
    → IsReached table c.fingerprint p d
    → IsPlaced table psls
    → IsPlaced (set table p c) (set psls p d)
IsPlaced-set table psls p d c lt full reached placed = (
  length-set psls p d ∙ placed.0 ∙ sym (length-set table p c),
  (λ q less. elim (write_cases table psls p d c q lt placed.0) [
    | inl (_, _, ed) ↦ omega (arith, ed, reached.1)
    | inr (_, _, ed) ↦ omega (arith, ed, placed.1 q (omega (arith, length-set table p c)))
  ]),
  λ q less occ. elim (write_cases table psls p d c q lt placed.0) [
    | inl (eq, eb, ed) ↦
        IsReached-eq (set table p c) c.fingerprint (slot (set table p c) q).fingerprint p q d
          (psl_at (set psls p d) q) (ap (λ (b : Bucket). b.fingerprint) (sym eb)) (sym eq) (sym ed)
          (IsReached-set table p c c.fingerprint p d lt full reached)
    | inr (ne, eb, ed) ↦
        IsReached-eq (set table p c) (slot table q).fingerprint (slot (set table p c) q).fingerprint
          q q (psl_at psls q) (psl_at (set psls p d) q)
          (ap (λ (b : Bucket). b.fingerprint) (sym eb)) refl (sym ed)
          (IsReached-set table p c (slot table q).fingerprint q (psl_at psls q) lt full
            (placed.2 q (omega (arith, length-set table p c)) (ap is_empty (sym eb) ∙ occ)))
  ],
)

-- A write keeps the buckets of all other places, and brings its own.
pub IsIn-set :
    (table : List Bucket) (p : ℕ) (c b : Bucket)
    → p < length table
    → (IsIn table b ⊎ (b ≡ c))
    → (IsIn (set table p c) b ⊎ (b ≡ slot table p))
IsIn-set table p c b lt (inr same) =
    inl (p, omega (arith, length-set table p c), get_or-set table p c default_bucket lt ∙ sym same)
IsIn-set table p c b lt (inl (q, less, eq)) = elim (Bool-cases (q == p)) [
  | inl same ↦ inr (sym eq ∙ ap (slot table) ((==_iff q p).0 same))
  | inr other ↦ inl (
    q,
    omega (arith, length-set table p c),
    get_or-set_other table p q c default_bucket (λ e. absurd (ground (arith, other, e))) ∙ eq,
  )
]

-- What an insertion keeps from round to round.
abbrev pub IsGoing : Insertion → Type 0
IsGoing s =
    IsPlaced s.table s.psls
    × (0 < length s.table)
    × (is_empty s.cur ≡ false)
    × IsReached s.table s.cur.fingerprint s.pos s.psl

-- The bucket is in the table or on its way.
abbrev pub IsKept : Insertion → Bucket → Type 0
IsKept s b = IsIn s.table b ⊎ (b ≡ s.cur)

pub pos-lt : (s : Insertion) → IsGoing s → s.pos < length s.table
pos-lt s going =
    omega (arith, going.3.0, mod-lt (s.cur.fingerprint + s.psl) {m = length s.table} going.1)

pub displace-IsGoing :
    (s : Insertion)
    → IsGoing s
    → IsOccupied s.table s.pos
    → IsGoing (displace s)
      × (displace s).pos ≡ s.pos
      × IsOccupied (displace s).table s.pos
      × ((b : Bucket) → IsKept s b → IsKept (displace s) b)
unfolding displace
displace-IsGoing s going occ = elim (Bool-cases (ltb (psl_at s.psls s.pos) s.psl)) [
  | inl nearer ↦
      let lt = pos-lt s going in
      let old = going.0.2 s.pos lt occ in
      rw nearer (
        (
          IsPlaced-set s.table s.psls s.pos s.psl s.cur lt going.2 going.3 going.0,
          omega (arith, length-set s.table s.pos s.cur, going.1),
          occ,
          IsReached-set s.table s.pos s.cur (slot s.table s.pos).fingerprint s.pos
              (psl_at s.psls s.pos) lt going.2 old,
        ),
        refl,
        ap is_empty (get_or-set s.table s.pos s.cur default_bucket lt) ∙ going.2,
        λ b k. IsIn-set s.table s.pos s.cur b lt k,
      )
  | inr further ↦ rw further (going, refl, occ, λ b k. k)
]

pub displace-measure :
    (s : Insertion)
    → IsGoing s
    → (sum (displace s).psls + (displace s).psl ≡ sum s.psls + s.psl)
      × (length (displace s).table ≡ length s.table)
unfolding displace
displace-measure s going = elim (Bool-cases (ltb (psl_at s.psls s.pos) s.psl)) [
  | inl nearer ↦ rw nearer (
    sum-set s.psls s.pos s.psl (omega (arith, pos-lt s going, going.0.0)),
    length-set s.table s.pos s.cur,
  )
  | inr further ↦ rw further (refl, refl)
]

pub advance-IsGoing :
    (s : Insertion) → IsGoing s → IsOccupied s.table s.pos → s.psl < 255 → IsGoing (advance s)
unfolding advance
advance-IsGoing s going occ less =
    let n = length s.table in
    let f = s.cur.fingerprint in
    let (place, _, before) = going.3 in
    (
      going.0,
      going.1,
      going.2,
      (
        ap (λ (x : ℕ). (x + 1) % n) place
            ∙ mod-add-mod (f + s.psl) n 1
            ∙ ap (λ (x : ℕ). x % n) (let e : f + s.psl + 1 ≡ f + (s.psl + 1) = omega arith in e),
        omega arith,
        λ j below. elim (Bool-cases (j == s.psl)) [
          | inl last ↦
              let e : j ≡ s.psl = (==_iff j s.psl).0 last in
              subst (λ (k : ℕ). IsOccupied s.table k) (place ∙ ap (λ (x : ℕ). (f + x) % n) (sym e))
                occ
          | inr other ↦ before j (ground (arith, other, below))
        ],
      ),
    )
