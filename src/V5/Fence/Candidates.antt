-- ===== src/V5/Fence/Candidates.antt =====
-- Which blocks `candidate_blocks` names, for a fence array in order.
use mcfreeze.Base.{ℕ, zero, suc, ◌+◌, ◌-◌, ◌≤◌, ◌<◌, ◌≡◌, ap, List, [], ◌∷◌}
use mcfreeze.Base.{ltb, ◌==◌, if◌then◌else◌, drop, length, get_elem?, All, some}
use mcfreeze.Base.{◌↔◌, ◌⊎◌, inl, inr, arith, Bool-cases, Elem, IsSorted, subst, lt→ltb, ltb→lt}
use mcfreeze.Base.{==_iff, get_elem?-some, get_elem?-drop, Elem-append, ◌∙◌, length-drop}
use mcfreeze.V5.Fence.{partition_point, count_equal, range_from, candidate_blocks}

-- The block may hold a record with high half `h`: its fence is not above `h`, and the fence behind
-- it, if there is one, is not below `h`.
abbrev pub IsCandidate : List ℕ → ℕ → ℕ → Type 0
IsCandidate fences h i =
    (f : ℕ) × (get_elem? fences i ≡ some f)
    × (f ≤ h)
    × ((g : ℕ) → get_elem? fences (suc i) ≡ some g → h ≤ g)

All-get : (P : ℕ → Type 0) (xs : List ℕ) (i x : ℕ) → All P xs → get_elem? xs i ≡ some x → P x
All-get P [] i x h e = cc
All-get P (y ∷ xs) zero x h e = let e' : y ≡ x = cc in subst P e' h.0
All-get P (y ∷ xs) (suc i) x h e = All-get P xs i x h.1 e

partition_point_lem :
    (h : ℕ) (fs : List ℕ) (j f : ℕ)
    → IsSorted fs
    → get_elem? fs j ≡ some f
    → (j < partition_point h fs → f < h) × (partition_point h fs ≤ j → h ≤ f)
unfolding partition_point
partition_point_lem h [] j f s e = cc
partition_point_lem h (x ∷ fs) zero f s e = ground arith
partition_point_lem h (x ∷ fs) (suc j) f s e =
    ground (arith, partition_point_lem h fs j f s.1 e, All-get (λ y. x ≤ y) fs j f s.0 e)

count_equal_lem :
    (h : ℕ) (fs : List ℕ) (j f : ℕ)
    → IsSorted fs
    → All (λ x. h ≤ x) fs
    → get_elem? fs j ≡ some f
    → (j < count_equal h fs → f ≡ h) × (count_equal h fs ≤ j → h < f)
unfolding count_equal
count_equal_lem h [] j f s a e = cc
count_equal_lem h (x ∷ fs) zero f s a e = ground arith
count_equal_lem h (x ∷ fs) (suc j) f s a e =
    ground (arith, count_equal_lem h fs j f s.1 a.1 e, All-get (λ y. x ≤ y) fs j f s.0 e)

count_equal-le : (h : ℕ) (fs : List ℕ) → count_equal h fs ≤ length fs
unfolding count_equal
count_equal-le h [] = omega arith
count_equal-le h (x ∷ fs) = ground (arith, count_equal-le h fs)

partition_point-le : (h : ℕ) (fs : List ℕ) → partition_point h fs ≤ length fs
unfolding partition_point
partition_point-le h [] = omega arith
partition_point-le h (x ∷ fs) = ground (arith, partition_point-le h fs)

Elem-range_from : (i start n : ℕ) → Elem i (range_from start n) ↔ ((start ≤ i) × (i < start + n))
unfolding range_from
Elem-range_from i start zero = (λ e. absurd e, λ h. absurd (omega arith))
Elem-range_from i start (suc n) = (
  λ e. elim e [
    | inl h ↦ (omega arith, omega arith)
    | inr h ↦ (let ih = (Elem-range_from i (suc start) n).0 h in (omega arith, omega arith))
  ],
  λ h. elim (Bool-cases (i == start)) [
    | inl e ↦ inl ((==_iff i start).0 e)
    | inr ne ↦ inr ((Elem-range_from i (suc start) n).1 (ground (arith, ne), omega arith))
  ],
)

All-weaken : (h x : ℕ) (fs : List ℕ) → h ≤ x → All (λ y. x ≤ y) fs → All (λ y. h ≤ y) fs
All-weaken h x [] le a = tt
All-weaken h x (f ∷ fs) le a = (omega arith, All-weaken h x fs le a.1)

All-drop : (h : ℕ) (fs : List ℕ) → IsSorted fs → All (λ x. h ≤ x) (drop (partition_point h fs) fs)
unfolding partition_point
All-drop h [] s = tt
All-drop h (f ∷ fs) s = elim (Bool-cases (ltb f h)) [
  | inl e ↦ rw e (All-drop h fs s.1)
  | inr e ↦ rw e (ground arith, All-weaken h f fs (ground arith) s.0)
]

drop-IsSorted : (n : ℕ) (fs : List ℕ) → IsSorted fs → IsSorted (drop n fs)
drop-IsSorted zero fs s = s
drop-IsSorted (suc n) [] s = tt
drop-IsSorted (suc n) (f ∷ fs) s = drop-IsSorted n fs s.1

back-places :
    (lo i : ℕ) → Elem i (if ltb 0 lo then (lo - 1) ∷ [] else []) ↔ ((0 < lo) × (i ≡ lo - 1))
back-places zero i = (λ e. absurd e, λ h. absurd (omega arith))
back-places (suc lo) i =
    rw (lt→ltb 0 (suc lo) (omega arith))
      (λ e. elim e [ inl h ↦ (omega arith, h) | inr h ↦ absurd h ], λ h. inl h.1)

candidate_blocks-places :
    (fences : List ℕ) (h i : ℕ)
    → (let lo = partition_point h fences in
        Elem i (candidate_blocks fences h)
        ↔ (((lo ≤ i) × (i < lo + count_equal h (drop lo fences))) ⊎ ((0 < lo) × (i ≡ lo - 1))))
unfolding candidate_blocks
candidate_blocks-places fences h i =
    let lo = partition_point h fences in
    let n = count_equal h (drop lo fences) in
    let back = if ltb 0 lo then (lo - 1) ∷ [] else [] in
    let split = Elem-append i (range_from lo n) back in
    let range = Elem-range_from i lo n in
    let last = back-places lo i in
    (
      λ e. elim (split.0 e) [ inl k ↦ inl (range.0 k) | inr k ↦ inr (last.0 k) ],
      λ e. elim e [ inl k ↦ split.1 (inl (range.1 k)) | inr k ↦ split.1 (inr (last.1 k)) ],
    )

-- How the fence at a place compares with `h`.
place_lem :
    (fences : List ℕ) (h i f : ℕ)
    → IsSorted fences
    → get_elem? fences i ≡ some f
    → (let lo = partition_point h fences in
        let n = count_equal h (drop lo fences) in
        (i < lo → f < h) × (lo ≤ i → h ≤ f) × (lo ≤ i → i < lo + n → f ≡ h) × (lo + n ≤ i → h < f))
place_lem fences h i f s e =
    let lo = partition_point h fences in
    let (below, above) = partition_point_lem h fences i f s e in
    let in_rest : lo ≤ i → get_elem? (drop lo fences) (i - lo) ≡ some f = λ le.
      get_elem?-drop lo (i - lo) fences
      ∙ ap (get_elem? fences) (let k : lo + (i - lo) ≡ i = omega arith in k)
      ∙ e in
    let equal : (le : lo ≤ i) → _ = λ le.
      count_equal_lem h (drop lo fences) (i - lo) f (drop-IsSorted lo fences s)
        (All-drop h fences s) (in_rest le) in
    (below, above, λ le lt. (equal le).0 (omega arith), λ le. (equal (omega arith)).1 (omega arith))

-- In an array of fences in order, `candidate_blocks` names exactly the blocks that may hold a
-- record of the high half `h`: those whose fence is at most `h` and whose next fence, if there is
-- one, is at least `h`.
pub candidate_blocks-IsCandidate :
    (fences : List ℕ) (h i : ℕ)
    → IsSorted fences
    → Elem i (candidate_blocks fences h) ↔ IsCandidate fences h i
candidate_blocks-IsCandidate fences h i s =
    let lo = partition_point h fences in
    let rest = drop lo fences in
    let n = count_equal h rest in
    let places = candidate_blocks-places fences h i in
    let bounds : lo + n ≤ length fences =
      omega (arith, count_equal-le h rest, partition_point-le h fences, length-drop lo fences) in
    let later : lo ≤ suc i → (g : ℕ) → get_elem? fences (suc i) ≡ some g → h ≤ g =
      λ le g e. (place_lem fences h (suc i) g s e).1 le in
    (
      λ e. elim (places.0 e) [
        | inl (le, lt) ↦
            let (f, here) = get_elem?-some fences i (omega arith) in
            (f, here, omega (arith, (place_lem fences h i f s here).2 le lt), later (omega arith))
        | inr (pos, last) ↦
            let (f, here) = get_elem?-some fences i (omega (arith, partition_point-le h fences)) in
            (
              f,
              here,
              omega (arith, (place_lem fences h i f s here).0 (omega arith)),
              later (omega arith),
            )
      ],
      λ c.
          let (f, here, le, next) = c in
          let (below, above, equal, over) = place_lem fences h i f s here in
          places.1 (elim (Bool-cases (ltb i lo)) [
            | inl before ↦ elim (Bool-cases (ltb (suc i) lo)) [
              | inl twice ↦
                  let (g, here') =
                    get_elem?-some fences (suc i)
                      (omega (arith, ltb→lt (suc i) lo twice, bounds)) in
                  absurd (
                    omega (
                      arith,
                      next g here',
                      (place_lem fences h (suc i) g s here').0 (ltb→lt (suc i) lo twice),
                    ))
              | inr last ↦ inr (ground (arith, before), ground (arith, before, last))
            ]
            | inr after ↦ inl (ground (arith, after), ground (arith, after))
          ]),
    )
