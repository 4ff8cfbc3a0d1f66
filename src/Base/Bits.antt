-- ===== src/Base/Bits.antt =====
-- `&` and `|` with masks and single bits, as arithmetic. `bitwise` recurs on binary digits with
-- fuel; the first lemmas drop the fuel, so that an operation is known by its lowest digit.
use Prim.Native.Nat.{ℕ, zero, suc, ◌+◌, ◌-◌, ◌*◌, ◌/◌, ◌%◌, ◌^◌, ◌≤◌, ◌<◌, min, max}
use Prim.Native.Nat.{bit_and, bit_or, digits, bit_and-bitwise, bit_or-bitwise}
use mathlib.Core.Path.{◌≡◌, refl, ap, ◌∙◌}
use native.Mathlib.Nat.{pow-suc, one-le-pow, div-add-mod}
use native.Mathlib.Omega.{arith}

-- Any fuel that reaches the first number gives the same digits.
module _ (pad : ℕ → ℕ) (op : ℕ → ℕ → ℕ) where
  enough_fuel : (k l x y : ℕ) → x ≤ k → x ≤ l → digits pad op k x y ≡ digits pad op l x y
  enough_fuel k zero (suc x) y p q = absurd (omega arith)
  enough_fuel zero l (suc x) y p q = absurd (omega arith)
  enough_fuel (suc k) (suc l) (suc x) y p q =
      rw (enough_fuel k l (suc x / 2) (y / 2) (omega arith) (omega arith))
  enough_fuel zero zero zero y p q = refl
  enough_fuel zero (suc l) zero y p q = refl
  enough_fuel (suc k) zero zero y p q = refl
  enough_fuel (suc k) (suc l) zero y p q = refl

pub bit_and_low : (x y : ℕ) → bit_and x y ≡ bit_and (x / 2) (y / 2) * 2 + min (x % 2) (y % 2)
bit_and_low zero y = simp bit_and-bitwise (omega arith)
bit_and_low (suc x) y = simp bit_and-bitwise (
    omega (
      arith,
      enough_fuel (λ b. 0) min x (suc x / 2) (suc x / 2) (y / 2) (omega arith) (omega arith),
    ))

pub bit_or_low : (x y : ℕ) → bit_or x y ≡ bit_or (x / 2) (y / 2) * 2 + max (x % 2) (y % 2)
bit_or_low zero y = simp bit_or-bitwise (omega arith)
bit_or_low (suc x) y = simp bit_or-bitwise (
    omega (
      arith,
      enough_fuel (λ b. b) max x (suc x / 2) (suc x / 2) (y / 2) (omega arith) (omega arith),
    ))

and_zero_below : (n x : ℕ) → x ≤ n → bit_and x 0 ≡ 0
and_zero_below zero zero h = refl
and_zero_below zero (suc x) h = absurd (omega arith)
and_zero_below (suc n) x h = omega (arith, bit_and_low x 0, and_zero_below n (x / 2) (omega arith))

or_zero_below : (n x : ℕ) → x ≤ n → bit_or x 0 ≡ x
or_zero_below zero zero h = refl
or_zero_below zero (suc x) h = absurd (omega arith)
or_zero_below (suc n) x h = omega (arith, bit_or_low x 0, or_zero_below n (x / 2) (omega arith))

pub bit_and-zero : (x : ℕ) → bit_and x 0 ≡ 0
bit_and-zero x = and_zero_below x x (omega arith)

pub bit_or-zero : (x : ℕ) → bit_or x 0 ≡ x
bit_or-zero x = or_zero_below x x (omega arith)

double : (q k : ℕ) → q * 2 ^ suc k ≡ q * 2 ^ k * 2
double q k = omega (arith, ap (λ (t : ℕ). q * t) (pow-suc 2 k))

-- A mask that has no bit below `k` acts on the bits from `k` on.
pub bit_and_above :
    (k q r m : ℕ) → r < 2 ^ k → bit_and (q * 2 ^ k + r) (m * 2 ^ k) ≡ bit_and q m * 2 ^ k
bit_and_above zero q r m h = ground (arith)
bit_and_above (suc k) q r m h = ground (
  arith,
  bit_and_low (q * 2 ^ suc k + r) (m * 2 ^ suc k),
  double q k,
  double m k,
  double (bit_and q m) k,
  bit_and_above k q (r / 2) m (omega (arith, pow-suc 2 k)),
)

pub bit_or_above :
    (k q r m : ℕ) → r < 2 ^ k → bit_or (q * 2 ^ k + r) (m * 2 ^ k) ≡ bit_or q m * 2 ^ k + r
bit_or_above zero q r m h = ground (arith)
bit_or_above (suc k) q r m h = ground (
  arith,
  bit_or_low (q * 2 ^ suc k + r) (m * 2 ^ suc k),
  double q k,
  double m k,
  double (bit_or q m) k,
  bit_or_above k q (r / 2) m (omega (arith, pow-suc 2 k)),
)

mask_of_sum : (k q r : ℕ) → r < 2 ^ k → bit_and (q * 2 ^ k + r) (2 ^ k - 1) ≡ r
mask_of_sum zero q r h = ground (arith, bit_and-zero (q * 1 + r))
mask_of_sum (suc k) q r h = ground (
  arith,
  bit_and_low (q * 2 ^ suc k + r) (2 ^ suc k - 1),
  double q k,
  pow-suc 2 k,
  one-le-pow k 2,
  mask_of_sum k q (r / 2),
)

-- `x & (2^k - 1)` is the remainder by 2^k.
pub bit_and_mask : (k x : ℕ) → bit_and x (2 ^ k - 1) ≡ x % 2 ^ k
bit_and_mask k x =
    ground (arith, one-le-pow k 2, mask_of_sum k (x / 2 ^ k) (x % 2 ^ k), div-add-mod x (2 ^ k))

-- `x & m << k`, by the bits of x from k on.
pub bit_and_shifted : (k x m : ℕ) → bit_and x (m * 2 ^ k) ≡ bit_and (x / 2 ^ k) m * 2 ^ k
bit_and_shifted k x m =
    ground (arith, one-le-pow k 2, bit_and_above k (x / 2 ^ k) (x % 2 ^ k) m, div-add-mod x (2 ^ k))

-- `x & 1 << k` is bit k of x, in its place.
pub bit_and_bit : (k x : ℕ) → bit_and x (1 * 2 ^ k) ≡ x / 2 ^ k % 2 * 2 ^ k
bit_and_bit k x = bit_and_shifted k x 1 ∙ ap (λ (t : ℕ). t * 2 ^ k) (bit_and_mask 1 (x / 2 ^ k))
