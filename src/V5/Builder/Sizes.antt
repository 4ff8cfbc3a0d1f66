-- ===== src/V5/Builder/Sizes.antt =====
-- rust/crates/mcfreeze-format/src/v5/builder.rs: the histogram of record sizes, and the block size
-- and the number of buckets that the builder chooses.
use mcfreeze.Base.{ℕ, zero, suc, ◌+◌, ◌-◌, ◌*◌, ◌/◌, ◌%◌, ◌^◌, min, List}
use mcfreeze.Base.{[], ◌∷◌, Option, none, some, ltb, leb, if◌then◌else◌}
use mcfreeze.Base.{length, set, get_or, ◌==◌}
use mcfreeze.Error.{Result, ok, panic}
use mcfreeze.V5.Meta.{min_block_size}

abbrev pub hist_buckets : ℕ
hist_buckets = 33

abbrev pub max_auto_block_size : ℕ
max_auto_block_size = 65536

abbrev pub max_radix_buckets : ℕ
max_radix_buckets = 64

-- `u64::BITS - n.leading_zeros()`, on words of `w` bits.
unfoldable pub bit_len : ℕ → ℕ → ℕ
bit_len zero n = 0
bit_len (suc w) n = let rest = bit_len w (n / 2) in if n == 0 then 0 else suc rest

-- `hist[i] += 1`
unfoldable pub count_in : ℕ → List ℕ → Result (List ℕ)
count_in i hist = if ltb i (length hist) then ok (set hist i (get_or hist i 0 + 1)) else panic

unfoldable pub sum : List ℕ → ℕ
sum [] = 0
sum (x ∷ xs) = x + sum xs

-- The `position` of the first bucket at which the cumulative count reaches `target`.
unfoldable pub median_bucket : ℕ → ℕ → List ℕ → Option ℕ
median_bucket target cumulative [] = none
median_bucket target cumulative (c ∷ hist) =
    if leb target (cumulative + c)
    then some 0
    else elim (median_bucket target (cumulative + c) hist) [ none ↦ none | some i ↦ some (suc i) ]

abbrev pub clamp : ℕ → ℕ → ℕ → ℕ
clamp n low high = if ltb n low then low else if ltb high n then high else n

-- `(n + d - 1) / d` without the overflow, for a divisor that is not zero.
unfoldable pub div_ceil : ℕ → ℕ → ℕ
div_ceil n zero = 0
div_ceil n (suc d) = if n % suc d == 0 then n / suc d else n / suc d + 1

unfoldable pub auto_tune_block_size : List ℕ → Result ℕ
unfolding sum median_bucket div_ceil
auto_tune_block_size hist =
    let total = sum hist in
    if total == 0 then ok min_block_size else elim (median_bucket (div_ceil total 2) 0 hist) [
      | none ↦ panic
      | some b ↦ ok (clamp (2 ^ min (b + 1) 31) min_block_size max_auto_block_size)
    ]

-- `checked_next_power_of_two`: the first power of two from `2 ^ k` on that is not below `n`, by `w`
-- doublings at most.
unfoldable pub next_power_of_two : ℕ → ℕ → ℕ → Option ℕ
next_power_of_two zero p n = none
next_power_of_two (suc w) p n =
    let rest = next_power_of_two w (2 * p) n in if leb n p then some p else rest

unfoldable pub bucket_count : ℕ → ℕ → ℕ
unfolding div_ceil next_power_of_two
bucket_count arrival_bytes bucket_bytes =
    let want = div_ceil arrival_bytes (if bucket_bytes == 0 then 1 else bucket_bytes) in
    elim (next_power_of_two 64 1 want) [
      | none ↦ clamp (2 ^ 64 - 1) 1 max_radix_buckets
      | some p ↦ clamp p 1 max_radix_buckets
    ]
