-- ===== src/V5/Builder/Bounds.antt =====
-- The block size and the number of radix buckets are in their bounds, and what they promise.
use mcfreeze.Base.{ℕ, zero, suc, ◌+◌, ◌*◌, ◌/◌, ◌%◌, ◌^◌, ◌≤◌, ◌<◌, min, ◌≡◌, refl, List}
use mcfreeze.Base.{[], ◌∷◌, true, none, some, ltb, leb, if◌then◌else◌, arith}
use mcfreeze.Base.{take, inl, inr, ◌⊎◌, ◌∙◌, Bool-cases, ◌==◌}
use mcfreeze.Base.{ap}
use native.Mathlib.Nat.{pow-suc, pow-le-pow_right, mod-add-div', mod-lt, mul-le-mul_right}
use mcfreeze.Base.Words.{is_power_of_two, is_power_of_two_complete}
use mcfreeze.Error.{ok}
use mcfreeze.V5.Meta.{min_block_size, validate_block_size}
use mcfreeze.V5.Builder.Sizes.{sum, median_bucket, clamp, div_ceil, auto_tune_block_size}
use mcfreeze.V5.Builder.Sizes.{next_power_of_two, bucket_count, bit_len, max_auto_block_size}

pub pow-le : (i j : ℕ) → i ≤ j → 2 ^ i ≤ 2 ^ j
pow-le i j h = pow-le-pow_right {n = 2} (omega arith) {i = i} {j = j} h

pub bit_len-le : (w n k : ℕ) → n < 2 ^ k → k ≤ w → bit_len w n ≤ k
unfolding bit_len
bit_len-le zero n k h hk = omega arith
bit_len-le (suc w) n zero h hk = ground arith
bit_len-le (suc w) n (suc k) h hk =
    let ih = bit_len-le w (n / 2) k (omega (arith, pow-suc 2 k)) (omega arith) in ground (arith, ih)

-- The first bucket up to which the target is reached.
median_bucket-first :
    (target cumulative : ℕ) (hist : List ℕ)
    → cumulative < target
    → target ≤ cumulative + sum hist
    → (i : ℕ) × (median_bucket target cumulative hist ≡ some i)
      × (cumulative + sum (take i hist) < target)
      × (target ≤ cumulative + sum (take (suc i) hist))
unfolding median_bucket sum
median_bucket-first target cumulative [] low high = absurd (omega arith)
median_bucket-first target cumulative (c ∷ hist) low high =
    elim (Bool-cases (leb target (cumulative + c))) [
      | inl here ↦ (0, rw here refl, omega arith, ground (arith, here))
      | inr later ↦
          let (i, e, below, reach) =
            median_bucket-first target (cumulative + c) hist (ground (arith, later))
              (omega arith) in
          (suc i, rw later (rw e refl), omega arith, omega arith)
    ]

-- Half of the records, rounded up, lie in the buckets up to the median one, and fewer in those
-- below it.
abbrev pub IsMedian : List ℕ → ℕ → Type 0
IsMedian hist i = (2 * sum (take i hist) < sum hist) × (sum hist ≤ 2 * sum (take (suc i) hist))

div_ceil-two : (n : ℕ) → div_ceil n 2 ≡ (n + 1) / 2
unfolding div_ceil
div_ceil-two n = ground arith

-- A power of two from 4096 to 65536 that is no smaller than `2 ^ e`, or the largest.
abbrev pub Covers : ℕ → ℕ → Type 0
Covers e b = (k : ℕ) × (12 ≤ k) × (k ≤ 16) × (b ≡ 2 ^ k) × (e ≤ k ⊎ k ≡ 16)

clamp-Covers : (e : ℕ) → Covers e (clamp (2 ^ e) min_block_size max_auto_block_size)
clamp-Covers e = elim (Bool-cases (ltb e 12)) [
  | inl small ↦
      let low : 2 ^ e ≤ 2 ^ 12 = pow-le e 12 (ground (arith, small)) in
      (12, omega arith, omega arith, ground (arith, low), inl (ground (arith, small)))
  | inr large ↦ elim (Bool-cases (ltb 16 e)) [
    | inl over ↦
        let high : 2 ^ 16 ≤ 2 ^ e = pow-le 16 e (ground (arith, over)) in
        (16, omega arith, omega arith, ground (arith, high), inr refl)
    | inr in_range ↦
        let low : 2 ^ 12 ≤ 2 ^ e = pow-le 12 e (ground (arith, large)) in
        let high : 2 ^ e ≤ 2 ^ 16 = pow-le e 16 (ground (arith, in_range)) in
        (
          e,
          ground (arith, large),
          ground (arith, in_range),
          ground (arith, low, high),
          inl (omega arith),
        )
  ]
]

validate-power : (k : ℕ) → 12 ≤ k → k ≤ 16 → validate_block_size (2 ^ k) ≡ ok tt
unfolding validate_block_size
validate-power k low high =
    let pow : is_power_of_two 32 (2 ^ k) ≡ true = is_power_of_two_complete 32 k (omega arith) in
    let large : 2 ^ 12 ≤ 2 ^ k = pow-le 12 k low in ground (arith, pow, large)

-- The block size that the builder chooses is a power of two from 4096 to 65536 and passes
-- `validate_block_size`. With no records it is 4096; otherwise there is a median bucket `i` of the
-- histogram, and the size is no smaller than `2 ^ (i + 1)`, twice the bound of that bucket, unless
-- that is above 65536.
pub auto_tune_block_size-Covers :
    (hist : List ℕ)
    → (b : ℕ) × (auto_tune_block_size hist ≡ ok b)
      × (validate_block_size b ≡ ok tt)
      × (((sum hist ≡ 0) × (b ≡ 4096)) ⊎ ((i : ℕ) × IsMedian hist i × Covers (min (i + 1) 31) b))
unfolding auto_tune_block_size
auto_tune_block_size-Covers hist = elim (Bool-cases (sum hist == 0)) [
  | inl none_yet ↦ (
    4096,
    rw none_yet refl,
    validate-power 12 (omega arith) (omega arith),
    inl (ground (arith, none_yet), refl),
  )
  | inr some_yet ↦
      let two = div_ceil-two (sum hist) in
      let (i, e, below, reach) =
        median_bucket-first (div_ceil (sum hist) 2) 0 hist (ground (arith, two, some_yet))
          (omega (arith, two)) in
      let (k, low, high, eq, cov) = clamp-Covers (min (i + 1) 31) in
      (
        clamp (2 ^ min (i + 1) 31) min_block_size max_auto_block_size,
        rw some_yet (rw e refl),
        ap validate_block_size eq ∙ validate-power k low high,
        inr (i, (omega (arith, two), omega (arith, two)), (k, low, high, eq, cov)),
      )
]

-- The first power of two that is not below `n`, if one is reached.
next_power_of_two_lem :
    (w j n : ℕ)
    → (next_power_of_two w (2 ^ j) n ≡ none)
      ⊎ ((k : ℕ) × (next_power_of_two w (2 ^ j) n ≡ some (2 ^ k)) × (n ≤ 2 ^ k))
unfolding next_power_of_two
next_power_of_two_lem zero j n = inl refl
next_power_of_two_lem (suc w) j n =
    let next : 2 * 2 ^ j ≡ 2 ^ suc j = omega (arith, pow-suc 2 j) in
    elim (Bool-cases (leb n (2 ^ j))) [
      | inl here ↦ inr (j, rw here refl, ground (arith, here))
      | inr later ↦ rw later (rw next (next_power_of_two_lem w (suc j) n))
    ]

div_ceil-le : (n d : ℕ) → 0 < d → n ≤ div_ceil n d * d
unfolding div_ceil
div_ceil-le n zero h = absurd (omega arith)
div_ceil-le n (suc d) h =
    let whole = mod-add-div' n (suc d) in
    let rest = mod-lt n {m = suc d} h in
    elim (Bool-cases (n % suc d == 0)) [
      | inl exact ↦ rw exact (ground (arith, whole, exact))
      | inr over ↦ rw over (omega (arith, whole, rest))
    ]

divisor-pos : (d : ℕ) → 0 < (if d == 0 then 1 else d)
divisor-pos d = ground arith

covered : (n d p : ℕ) → 0 < d → div_ceil n d ≤ p → n ≤ p * d
covered n zero p h le = absurd (omega arith)
covered n (suc d) p h le =
    omega
      (arith, div_ceil-le n (suc d) h, mul-le-mul_right {m = div_ceil n (suc d)} {n = p} (suc d) le)

-- The number of radix buckets is a power of two from 1 to 64, and the buckets of the target size
-- together hold the arrival log, unless there are 64. A target of 0 bytes counts as 1.
pub bucket_count-Covers :
    (arrival_bytes bucket_bytes : ℕ)
    → (k : ℕ) × (k ≤ 6)
      × (bucket_count arrival_bytes bucket_bytes ≡ 2 ^ k)
      × ((arrival_bytes ≤ 2 ^ k * (if bucket_bytes == 0 then 1 else bucket_bytes)) ⊎ (k ≡ 6))
unfolding bucket_count
bucket_count-Covers arrival_bytes bucket_bytes =
    let d = if bucket_bytes == 0 then 1 else bucket_bytes in
    let want = div_ceil arrival_bytes d in
    let reached : (next_power_of_two 64 1 want ≡ none)
        ⊎ ((k : ℕ) × (next_power_of_two 64 1 want ≡ some (2 ^ k)) × (want ≤ 2 ^ k)) =
      next_power_of_two_lem 64 0 want in
    elim reached [
      | inl over ↦ (6, omega arith, rw (over, bucket_count) refl, inr refl)
      | inr (k, found, enough) ↦ elim (Bool-cases (ltb k 6)) [
        | inl small ↦
            let low = pow-le 0 k (omega arith) in
            let high = pow-le k 6 (ground (arith, small)) in
            (
              k,
              ground (arith, small),
              rw (found, bucket_count) (ground (arith, low, high)),
              inl (covered arrival_bytes d (2 ^ k) (divisor-pos bucket_bytes) enough),
            )
        | inr large ↦
            let high = pow-le 6 k (ground (arith, large)) in
            (6, omega arith, rw (found, bucket_count) (ground (arith, high)), inr refl)
      ]
    ]
