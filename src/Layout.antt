-- ===== src/Layout.antt =====
-- rust/crates/mcfreeze-format/src/meta.rs: the partition layout and the V4 `meta.json` payload.
use mcfreeze.Base.{ℕ, ◌-◌, ◌%◌, ◌^◌, ◌<◌, ◌≡◌, ap}
use mcfreeze.Base.{not, ◌||◌, ◌==◌, if◌then◌else◌, bit_and, arith}
use mcfreeze.Base.Bits.{bit_and_mask}
use mcfreeze.Base.Words.{is_power_of_two, is_power_of_two_sound, is_power_of_two_complete}
use mcfreeze.Base.{◌≢◌, inl, inr, Bool-cases}
use native.Mathlib.Nat.{one-le-pow, mod-lt}
use mcfreeze.Error.{Result, ok, err, invalid_partition_count}

pub record Layout : Type 0 where
  pub n_partitions : ℕ
  pub partition_mask : ℕ

-- `Layout::new`
unfoldable pub new : ℕ → Result Layout
new n =
    if n == 0 || not (is_power_of_two 32 n)
    then err (invalid_partition_count n)
    else ok (record { n_partitions = n; partition_mask = n - 1 })

unfoldable pub partition_of : Layout → ℕ → ℕ
partition_of layout fingerprint = bit_and fingerprint layout.partition_mask

-- What `new` accepts, and what it makes of it.
pub new_power : {n : ℕ} {l : Layout} → new n ≡ ok l → (k : ℕ) × (k < 32) × (n ≡ 2 ^ k)
unfolding new
new_power {n} {l} h = is_power_of_two_sound 32 n (ground arith)

pub new_fields :
    {n : ℕ} {l : Layout} → new n ≡ ok l → (l.n_partitions ≡ n) × (l.partition_mask ≡ n - 1)
unfolding new
new_fields h = ground arith

pub partition_of-mod :
    (n : ℕ) {l : Layout} (fp : ℕ)
    → new n ≡ ok l
    → (partition_of l fp ≡ fp % n) × (partition_of l fp < n)
unfolding partition_of
partition_of-mod n {l} fp h =
    let (k, _, e) = new_power h in
    ground (
      arith,
      new_fields h,
      bit_and_mask k fp,
      one-le-pow k 2,
      mod-lt fp {m = n} (omega (arith, one-le-pow k 2)),
      ap (λ (t : ℕ). bit_and fp (t - 1)) e,
      ap (λ (t : ℕ). fp % t) e,
    )

pub new-power : (k : ℕ) → k < 32 → (l : Layout) × (new (2 ^ k) ≡ ok l)
unfolding new
new-power k h = (
  record { n_partitions = 2 ^ k; partition_mask = 2 ^ k - 1 },
  ground (arith, is_power_of_two_complete 32 k h, one-le-pow k 2),
)

not_power : (n : ℕ) → ((k : ℕ) → k < 32 → n ≢ 2 ^ k) → new n ≡ err (invalid_partition_count n)
unfolding new
not_power n h = elim (Bool-cases (is_power_of_two 32 n)) [
  | inl pow ↦ (let (k, lt, e) = is_power_of_two_sound 32 n pow in absurd (h k lt e))
  | inr other ↦ ground arith
]

-- `Layout::new` accepts every power of two of a u32 and refuses any other count with
-- `InvalidPartitionCount`; a layout that it makes routes a fingerprint by the remainder, to a
-- partition below the count.
pub new-partition_of :
    (n fp : ℕ)
    → ((k : ℕ) → k < 32 → n ≡ 2 ^ k → (l : Layout) × (new n ≡ ok l))
      × (((k : ℕ) → k < 32 → n ≢ 2 ^ k) → new n ≡ err (invalid_partition_count n))
      × ((l : Layout) → new n ≡ ok l → (partition_of l fp ≡ fp % n) × (partition_of l fp < n))
new-partition_of n fp =
    (λ k lt e. rw e (new-power k lt), not_power n, λ l h. partition_of-mod n fp h)
