-- ===== src/V5/Builder/Dedup.antt =====
-- The fingerprints of a sketch: sorted, each once.
use mcfreeze.Base.{ℕ, ◌≤◌, ◌<◌, List, [], ◌∷◌, arith}
use mcfreeze.Base.{All, Elem, IsSorted, Bool-cases, inl, inr, ◌==◌}
use mcfreeze.V5.Builder.Partition.{dedup, dedup_step}

-- In ascending order, without repetitions.
abbrev pub IsAscending : List ℕ → Type 0
IsAscending [] = Unit {0}
IsAscending (x ∷ []) = Unit {0}
IsAscending (x ∷ (y ∷ ys)) = (x < y) × IsAscending (y ∷ ys)

dedup_step-Elem : (x y : ℕ) (ys : List ℕ) → Elem y (x ∷ ys) → Elem y (dedup_step x ys)
unfolding dedup_step
dedup_step-Elem x y [] h = h
dedup_step-Elem x y (z ∷ ys) h = elim (Bool-cases (x == z)) [
  | inl same ↦ elim h [
    | inl e ↦ rw same (inl (ground (arith, same, e)))
    | inr there ↦ rw same there
  ]
  | inr other ↦ rw other h
]

-- Every element is still there.
pub dedup-Elem : (xs : List ℕ) (y : ℕ) → Elem y xs → Elem y (dedup xs)
unfolding dedup
dedup-Elem [] y h = h
dedup-Elem (x ∷ xs) y (inl e) = dedup_step-Elem x y (dedup xs) (inl e)
dedup-Elem (x ∷ xs) y (inr there) = dedup_step-Elem x y (dedup xs) (inr (dedup-Elem xs y there))

dedup_step-All : (P : ℕ → Type 0) (x : ℕ) (ys : List ℕ) → P x → All P ys → All P (dedup_step x ys)
unfolding dedup_step
dedup_step-All P x [] h k = (h, tt)
dedup_step-All P x (y ∷ ys) h k = elim (Bool-cases (x == y)) [
  | inl same ↦ rw same k
  | inr other ↦ rw other (h, k)
]

dedup-All : (P : ℕ → Type 0) (xs : List ℕ) → All P xs → All P (dedup xs)
unfolding dedup
dedup-All P [] h = tt
dedup-All P (x ∷ xs) h = dedup_step-All P x (dedup xs) h.0 (dedup-All P xs h.1)

dedup_step-IsAscending :
    (x : ℕ) (ys : List ℕ) → All (λ y. x ≤ y) ys → IsAscending ys → IsAscending (dedup_step x ys)
unfolding dedup_step
dedup_step-IsAscending x [] h k = tt
dedup_step-IsAscending x (y ∷ ys) h k = elim (Bool-cases (x == y)) [
  | inl same ↦ rw same k
  | inr other ↦ rw other (ground (arith, other, h.0), k)
]

-- Of a sorted list each element stays once.
pub dedup-IsAscending : (xs : List ℕ) → IsSorted xs → IsAscending (dedup xs)
unfolding dedup
dedup-IsAscending [] h = tt
dedup-IsAscending (x ∷ xs) h =
    dedup_step-IsAscending x (dedup xs) (dedup-All (λ y. x ≤ y) xs h.0) (dedup-IsAscending xs h.1)
