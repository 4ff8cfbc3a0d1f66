-- ===== src/V5/Builder/Order.antt =====
-- Sorting the bucket files one after the other sorts the partition.
use mathlib.Core.List.{flatten, Permᴰ}
use mathlib.Core.List.Permᴰ
use native.Mathlib.Nat.{mod-add-div', mod-lt, mul-le-mul_right, one-le-pow}
use mcfreeze.Base.{ℕ, zero, suc, ◌+◌, ◌-◌, ◌*◌, ◌/◌, ◌^◌, ◌≤◌, ◌<◌, ◌≡◌, refl, sym, ap, ◌∙◌}
use mcfreeze.Base.{List, [], ◌∷◌, ◌++◌, map, arith, All, IsSorted, subst, ◌==◌}
use mcfreeze.Base.{false, Bool-cases, inl, inr, length}
use mcfreeze.V5.Fence.{range_from}
use mcfreeze.V5.Builder.Frames.{Frame, IsFrame}
use mcfreeze.V5.Builder.Radix.{bucket, fits}

abbrev pub frame_fps : List Frame → List ℕ
frame_fps = map (λ f. f.fp)

-- A sort: the same elements, in the order of their fingerprints.
abbrev pub IsOrdered : List Frame → List Frame → Type 0
IsOrdered sorted fs = IsSorted (frame_fps sorted) × Permᴰ sorted fs

pub All-Perm : {A : Type 0} (P : A → Type 0) {xs ys : List A} → Permᴰ xs ys → All P xs → All P ys
All-Perm P Permᴰ.nil h = tt
All-Perm P (Permᴰ.cons e p) h = (subst P e h.0, All-Perm P p h.1)
All-Perm P (Permᴰ.swap e e') h = (subst P e' h.1.0, (subst P e h.0, h.1.1))
All-Perm P (Permᴰ.trans p q) h = All-Perm P q (All-Perm P p h)

pub length-Perm : {A : Type 0} {xs ys : List A} → Permᴰ xs ys → length xs ≡ length ys
length-Perm Permᴰ.nil = refl
length-Perm (Permᴰ.cons _ p) = ap suc (length-Perm p)
length-Perm (Permᴰ.swap _ _) = refl
length-Perm (Permᴰ.trans p q) = length-Perm p ∙ length-Perm q

All-append : {A : Type 0} (P : A → Type 0) (xs ys : List A) → All P xs → All P ys → All P (xs ++ ys)
All-append P [] ys h k = k
All-append P (x ∷ xs) ys h k = (h.0, All-append P xs ys h.1 k)

pub All-map :
    {A : Type 0} (P Q : A → Type 0) (xs : List A) → ((x : A) → P x → Q x) → All P xs → All Q xs
All-map P Q [] f h = tt
All-map P Q (x ∷ xs) f h = (f x h.0, All-map P Q xs f h.1)

All-fps : (P : ℕ → Type 0) (fs : List Frame) → All (λ f. P f.fp) fs → All P (frame_fps fs)
All-fps P [] h = tt
All-fps P (f ∷ fs) h = (h.0, All-fps P fs h.1)

fps-All : (P : ℕ → Type 0) (fs : List Frame) → All P (frame_fps fs) → All (λ f. P f.fp) fs
fps-All P [] h = tt
fps-All P (f ∷ fs) h = (h.0, fps-All P fs h.1)

append-IsSorted :
    (xs ys : List Frame)
    → IsSorted (frame_fps xs)
    → IsSorted (frame_fps ys)
    → All (λ x. All (λ y. x.fp ≤ y.fp) ys) xs
    → IsSorted (frame_fps (xs ++ ys))
append-IsSorted [] ys sx sy h = sy
append-IsSorted (x ∷ xs) ys sx sy h = (
  All-fps (λ y. x.fp ≤ y) (xs ++ ys)
      (All-append (λ y. x.fp ≤ y.fp) xs ys (fps-All (λ y. x.fp ≤ y) xs sx.0) h.0),
  append-IsSorted xs ys sx.1 sy h.1,
)

bucket-All : (shift i : ℕ) (fs : List Frame) → All (λ f. f.fp / 2 ^ shift ≡ i) (bucket shift i fs)
unfolding bucket
bucket-All shift i [] = tt
bucket-All shift i (f ∷ fs) =
    let rest = bucket-All shift i fs in
    elim (Bool-cases (f.fp / 2 ^ shift == i)) [
      | inl here ↦ rw here (ground (arith, here), rest)
      | inr elsewhere ↦ rw elsewhere rest
    ]

-- The sorted frames of `n` buckets from `s` on.
abbrev pub sorted_buckets : (List Frame → List Frame) → ℕ → List Frame → ℕ → ℕ → List Frame
sorted_buckets order shift fs s n = flatten (map (λ i. order (bucket shift i fs)) (range_from s n))

module _ (order : List Frame → List Frame) (shift : ℕ) (fs : List Frame)
    (ordered : (i : ℕ) → IsOrdered (order (bucket shift i fs)) (bucket shift i fs)) where
  order-All : (i : ℕ) → All (λ f. f.fp / 2 ^ shift ≡ i) (order (bucket shift i fs))
  order-All i =
      All-Perm (λ f. f.fp / 2 ^ shift ≡ i) (Permᴰ.symm (ordered i).1) (bucket-All shift i fs)

  le-of-buckets : (x y s : ℕ) → x / 2 ^ shift ≡ s → s < y / 2 ^ shift → x ≤ y
  le-of-buckets x y s e lt =
      let d = 2 ^ shift in
      let low = mul-le-mul_right {m = suc s} {n = y / d} d lt in
      let below = mod-lt x {m = d} (one-le-pow shift 2 (omega arith)) in
      omega (arith, mod-add-div' x d, mod-add-div' y d, low, below, ap (λ q. q * d) e)

  sorted_buckets-IsSorted :
      (s n : ℕ)
      → IsSorted (frame_fps (sorted_buckets order shift fs s n))
        × All (λ f. s ≤ f.fp / 2 ^ shift) (sorted_buckets order shift fs s n)
  unfolding flatten range_from
  sorted_buckets-IsSorted s zero = (tt, tt)
  sorted_buckets-IsSorted s (suc n) =
      let first = order (bucket shift s fs) in
      let others = sorted_buckets order shift fs (suc s) n in
      let (sorted, above) = sorted_buckets-IsSorted (suc s) n in
      let at_s = order-All s in
      (
        append-IsSorted first others (ordered s).0 sorted (
            All-map (λ f. f.fp / 2 ^ shift ≡ s) (λ x. All (λ y. x.fp ≤ y.fp) others) first
              (λ x e.
                All-map (λ y. suc s ≤ y.fp / 2 ^ shift) (λ y. x.fp ≤ y.fp) others
                  (λ y lt. le-of-buckets x.fp y.fp s e (omega arith)) above)
              at_s),
        All-append (λ f. s ≤ f.fp / 2 ^ shift) first others
            (All-map (λ f. f.fp / 2 ^ shift ≡ s) (λ f. s ≤ f.fp / 2 ^ shift) first
              (λ x e. omega arith) at_s)
            (All-map (λ f. suc s ≤ f.fp / 2 ^ shift) (λ f. s ≤ f.fp / 2 ^ shift) others
              (λ x e. omega arith) above),
      )

-- The frames of `n` buckets from `s` on, each in the order of arrival.
abbrev in_buckets : ℕ → ℕ → ℕ → List Frame → List Frame
in_buckets shift s n fs = flatten (map (λ i. bucket shift i fs) (range_from s n))

in_buckets-below :
    (shift s n : ℕ) (f : Frame) (fs : List Frame)
    → f.fp / 2 ^ shift < s
    → in_buckets shift s n (f ∷ fs) ≡ in_buckets shift s n fs
unfolding flatten range_from bucket
in_buckets-below shift s zero f fs h = refl
in_buckets-below shift s (suc n) f fs h =
    let other : (f.fp / 2 ^ shift == s) ≡ false = ground arith in
    rw other
      (ap (λ zs. bucket shift s fs ++ zs) (in_buckets-below shift (suc s) n f fs (omega arith)))

in_buckets-cons :
    (shift s n : ℕ) (f : Frame) (fs : List Frame)
    → s ≤ f.fp / 2 ^ shift
    → f.fp / 2 ^ shift < s + n
    → Permᴰ (in_buckets shift s n (f ∷ fs)) (f ∷ in_buckets shift s n fs)
unfolding flatten range_from bucket
in_buckets-cons shift s zero f fs low high = absurd (omega arith)
in_buckets-cons shift s (suc n) f fs low high = elim (Bool-cases (f.fp / 2 ^ shift == s)) [
  | inl here ↦ rw here (
      subst (λ zs. Permᴰ (f ∷ (bucket shift s fs ++ zs)) (f ∷ in_buckets shift s (suc n) fs))
        (sym (in_buckets-below shift (suc s) n f fs (ground (arith, here)))) (Permᴰ.refl _))
  | inr later ↦ rw later (
      Permᴰ.trans
        (Permᴰ.append_left (bucket shift s fs)
          (in_buckets-cons shift (suc s) n f fs (ground (arith, later)) (omega arith)))
        (Permᴰ.middle f (bucket shift s fs) (in_buckets shift (suc s) n fs)))
]

in_buckets-nil : (shift s n : ℕ) → in_buckets shift s n [] ≡ []
unfolding flatten range_from bucket
in_buckets-nil shift s zero = refl
in_buckets-nil shift s (suc n) = in_buckets-nil shift (suc s) n

in_buckets-Perm :
    (shift n : ℕ) (fs : List Frame)
    → All (λ f. f.fp / 2 ^ shift < n) fs
    → Permᴰ (in_buckets shift 0 n fs) fs
in_buckets-Perm shift n [] h = subst (λ zs. Permᴰ zs []) (sym (in_buckets-nil shift 0 n)) Permᴰ.nil
in_buckets-Perm shift n (f ∷ fs) h =
    Permᴰ.trans (in_buckets-cons shift 0 n f fs (omega arith) (omega (arith, h.0)))
      (Permᴰ.cons refl (in_buckets-Perm shift n fs h.1))

sorted_buckets-Perm :
    (order : List Frame → List Frame) (shift : ℕ) (fs : List Frame)
    → ((i : ℕ) → IsOrdered (order (bucket shift i fs)) (bucket shift i fs))
    → (s n : ℕ) → Permᴰ (sorted_buckets order shift fs s n) (in_buckets shift s n fs)
unfolding flatten range_from
sorted_buckets-Perm order shift fs ordered s zero = Permᴰ.nil
sorted_buckets-Perm order shift fs ordered s (suc n) =
    Permᴰ.trans (Permᴰ.append_right (sorted_buckets order shift fs (suc s) n) (ordered s).1)
      (Permᴰ.append_left (bucket shift s fs) (sorted_buckets-Perm order shift fs ordered (suc s) n))

-- Sorting the buckets by themselves, one after the other, sorts all frames: when the frames of each
-- of the `2 ^ k` buckets are sorted, all of them together are in the order of their fingerprints and
-- are the frames of the log.
pub sorted_buckets-IsOrdered :
    (order : List Frame → List Frame) (k : ℕ) (fs : List Frame)
    → ((i : ℕ) → IsOrdered (order (bucket (64 - k) i fs)) (bucket (64 - k) i fs))
    → k ≤ 64
    → All IsFrame fs
    → IsOrdered (sorted_buckets order (64 - k) fs 0 (2 ^ k)) fs
sorted_buckets-IsOrdered order k fs ordered h fr = (
  (sorted_buckets-IsSorted order (64 - k) fs ordered 0 (2 ^ k)).0,
  Permᴰ.trans (sorted_buckets-Perm order (64 - k) fs ordered 0 (2 ^ k))
      (in_buckets-Perm (64 - k) (2 ^ k) fs (fits k fs h fr)),
)

pub bucket-IsFrame :
    (shift i : ℕ) (fs : List Frame) → All IsFrame fs → All IsFrame (bucket shift i fs)
unfolding bucket
bucket-IsFrame shift i [] h = tt
bucket-IsFrame shift i (f ∷ fs) h =
    let rest = bucket-IsFrame shift i fs h.1 in
    elim (Bool-cases (f.fp / 2 ^ shift == i)) [
      | inl here ↦ rw here (h.0, rest)
      | inr elsewhere ↦ rw elsewhere rest
    ]
