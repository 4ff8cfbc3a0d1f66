-- ===== src/Base/Words.antt =====
-- Byte strings: little-endian integers (`to_le_bytes`, `from_le_bytes`) and powers of two.
use Prim.Native.Nat.{ℕ, zero, suc, ◌+◌, ◌*◌, ◌/◌, ◌%◌, ◌^◌, ◌<◌}
use mathlib.Core.Path.{◌≡◌, refl, ap}
use mathlib.Core.Bool.{Bool, true, false}
use mathlib.Core.List.{List, [], ◌∷◌}
use native.Mathlib.Nat.{pow-suc}
use native.Mathlib.Omega.{arith}
use mathlib.Core.Logic.{inl, inr}
use mcfreeze.Base.Tests.{◌==◌, if◌then◌else◌, Bool-cases}
use mcfreeze.Base.Lists.{length, replicate, All}

abbrev pub Bytes : Type 0
Bytes = List ℕ

abbrev pub IsByte : ℕ → Type 0
IsByte b = b < 256

-- The `w` low bytes of `n`, the lowest first.
unfoldable pub to_le_bytes : ℕ → ℕ → Bytes
to_le_bytes zero n = []
to_le_bytes (suc w) n = n % 256 ∷ to_le_bytes w (n / 256)

unfoldable pub from_le_bytes : Bytes → ℕ
from_le_bytes [] = 0
from_le_bytes (b ∷ bs) = b + 256 * from_le_bytes bs

pub length-to_le_bytes : (w n : ℕ) → length (to_le_bytes w n) ≡ w
unfolding to_le_bytes
length-to_le_bytes zero n = refl
length-to_le_bytes (suc w) n = ap suc (length-to_le_bytes w (n / 256))

pub from_le_bytes-to_le_bytes : (w n : ℕ) → n < 256 ^ w → from_le_bytes (to_le_bytes w n) ≡ n
unfolding to_le_bytes from_le_bytes
from_le_bytes-to_le_bytes zero n h = omega arith
from_le_bytes-to_le_bytes (suc w) n h =
    omega (arith, from_le_bytes-to_le_bytes w (n / 256) (omega (arith, pow-suc 256 w)))

pub to_le_bytes-IsByte : (w n : ℕ) → All IsByte (to_le_bytes w n)
unfolding to_le_bytes
to_le_bytes-IsByte zero n = tt
to_le_bytes-IsByte (suc w) n = (omega arith, to_le_bytes-IsByte w (n / 256))

pub from_le_bytes-lt : (bs : Bytes) → All IsByte bs → from_le_bytes bs < 256 ^ length bs
unfolding from_le_bytes
from_le_bytes-lt [] h = omega arith
from_le_bytes-lt (b ∷ bs) h = omega (arith, from_le_bytes-lt bs h.1, h.0, pow-suc 256 (length bs))

pub from_le_bytes-zeros : (n : ℕ) → from_le_bytes (replicate n 0) ≡ 0
unfolding from_le_bytes
from_le_bytes-zeros zero = refl
from_le_bytes-zeros (suc n) = omega (arith, from_le_bytes-zeros n)

-- `n.is_power_of_two()` on a word of `w` bits: shift out zeros until the number is odd.
pub is_power_of_two_loop : ℕ → ℕ → Bool
is_power_of_two_loop zero n = false
is_power_of_two_loop (suc w) n =
    let rest = is_power_of_two_loop w (n / 2) in if n % 2 == 1 then n == 1 else rest

unfoldable pub is_power_of_two : ℕ → ℕ → Bool
unfolding is_power_of_two_loop
is_power_of_two w n = is_power_of_two_loop w n

-- The test passes exactly at the powers of two that the word can hold.
pub is_power_of_two_sound : (w n : ℕ) → is_power_of_two w n ≡ true → (k : ℕ) × (k < w) × (n ≡ 2 ^ k)
unfolding is_power_of_two
is_power_of_two_sound zero n h = absurd (ground arith)
is_power_of_two_sound (suc w) n h = elim (Bool-cases (n % 2 == 1)) [
  | inl odd ↦ (0, omega arith, ground arith)
  | inr even ↦
      let (k, lt, e) = is_power_of_two_sound w (n / 2) (rw even at h) in
      (suc k, omega arith, ground (arith, pow-suc 2 k))
]

pub is_power_of_two_complete : (w k : ℕ) → k < w → is_power_of_two w (2 ^ k) ≡ true
unfolding is_power_of_two
is_power_of_two_complete zero k h = absurd (omega arith)
is_power_of_two_complete (suc w) zero h = refl
is_power_of_two_complete (suc w) (suc k) h =
    ground (arith, pow-suc 2 k, is_power_of_two_complete w k)
