-- ===== src/V5/Fence.antt =====
-- rust/crates/mcfreeze-format/src/v5/fence.rs: the candidate blocks of a fingerprint.
-- `partition_point` is the standard library's: on a slice that the test splits, the number of
-- elements before the first that fails it.
pub mod Candidates
use mcfreeze.Base.{ℕ, zero, suc, ◌+◌, ◌-◌, ◌/◌, ◌^◌, List, [], ◌∷◌, ◌++◌, Bool, Option, none, some}
use mcfreeze.Base.{ltb, ◌==◌, if◌then◌else◌, drop}

-- `(fp >> 32) as u32`
unfoldable pub fence_of : ℕ → ℕ
fence_of fp = fp / 2 ^ 32

unfoldable pub partition_point : ℕ → List ℕ → ℕ
partition_point h [] = 0
partition_point h (f ∷ fs) = if ltb f h then suc (partition_point h fs) else 0

-- `take_while(|f| f == h).count()`
unfoldable pub count_equal : ℕ → List ℕ → ℕ
count_equal h [] = 0
count_equal h (f ∷ fs) = if f == h then suc (count_equal h fs) else 0

-- `start .. start + n`
unfoldable pub range_from : ℕ → ℕ → List ℕ
range_from start zero = []
range_from start (suc n) = start ∷ range_from (suc start) n

unfoldable pub candidate_blocks : List ℕ → ℕ → List ℕ
candidate_blocks fences h =
    let lo = partition_point h fences in
    let eq = count_equal h (drop lo fences) in
    let back = if ltb 0 lo then (lo - 1) ∷ [] else [] in range_from lo eq ++ back
